-- ===== src/Executor.antt =====
-- src/executor and src/include/executor: expressions, and the nodes of a query plan.
pub mod Expression
pub mod Projection
pub mod Plan
