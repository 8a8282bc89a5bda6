-- ===== src/Linear.antt =====
-- The reference checker of cmd/thesis-oracle-linearizable: a history of one register, key by key.
pub mod Value
pub mod Model
pub mod Memo
pub mod Links
pub mod Search
pub mod Events
pub mod Correct
pub mod RealTime
pub mod Verdict
pub mod Budget
pub mod Check
pub mod Load
pub mod History
