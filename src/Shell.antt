-- ===== src/Shell.antt =====
-- tools/shell_command.py: shell commands are classified by risk, and run at once, after an approval,
-- or never.
pub mod Rules
pub mod SafeRules
pub mod Classify
pub mod Store
pub mod Tool
mod Tests
