-- ===== src/Orchestration.antt =====
-- internal/orchestration: the governed call of a capability and its budgets.
pub mod Domain
pub mod Budget
pub mod Ports
pub mod Status
pub mod Service
