-- ===== src/ModelRouter.antt =====
-- services/model_router.py: `ModelRouter`. A provider's answer, its price and the clock come from
-- elsewhere; amounts are natural numbers of one unit.
pub mod Names
pub mod Provider
pub mod Completion
pub mod Fallback
pub mod Configured
mod Tests
