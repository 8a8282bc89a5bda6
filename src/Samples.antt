-- ===== src/Samples.antt =====
-- Concrete runs.
mod Histories
mod Loading
mod Phases
mod Probing
mod Runs
mod Shrinking
mod Streams
