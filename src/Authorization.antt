-- ===== src/Authorization.antt =====
-- internal/authorization: the policy bundle, its evaluation and its cache.
pub mod Bundle
pub mod Constraints
pub mod Evaluate
pub mod Cache
