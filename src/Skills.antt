-- ===== src/Skills.antt =====
-- db/skill_service.py and services/agent_learning_service.py: skills are defined in YAML, published
-- in versions, and changed by proposals that a user reviews.
pub mod Yaml
pub mod Definition
pub mod Catalog
pub mod Store
pub mod Proposals
pub mod Sync
pub mod Reach
pub mod Search
mod Tests
