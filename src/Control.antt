-- ===== src/Control.antt =====
-- The control plane of internal/control: outcomes, budgets, the loop over worlds, the verdict and the
-- phase log.
pub mod Outcome
pub mod Budget
pub mod Run
pub mod Verdict
pub mod Phase
