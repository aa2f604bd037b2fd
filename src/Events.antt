-- ===== src/Events.antt =====
-- db/repositories.py and harness/events.py: the events of the agents' runs.
pub mod Redact
pub mod Store
pub mod Journal
mod Tests
