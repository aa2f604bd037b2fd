-- ===== src/Agents.antt =====
-- agents/: the profiles of the specialist agents, their registry and the router.
pub mod Profile
pub mod Keywords
pub mod Registry
pub mod Router
mod Tests
