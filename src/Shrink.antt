-- ===== src/Shrink.antt =====
-- The shrinker (internal/shrink): delta debugging, what counts as the same bug, the budget that every
-- execution is charged to, the narrowing of fault windows and the confirmation gate.
pub mod Budget
pub mod Ddmin
pub mod Identity
pub mod Narrow
pub mod Policy
pub mod Attempt
pub mod Prober
pub mod Judge
pub mod Confirm
