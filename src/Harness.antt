-- ===== src/Harness.antt =====
-- harness/: the actions of a harness agent, the policies on them, their execution and the loop.
pub mod Actions
pub mod Policies
pub mod Registry
pub mod Executor
pub mod Loop
mod Tests
