-- ===== src/TaskQueue.antt =====
-- db/task_queue.py. A function takes the tables and returns the new ones with its result; an
-- exception leaves them as they were. The clock, the keys of new rows and the rows that other
-- transactions hold locked (`FOR UPDATE SKIP LOCKED`) are arguments.
pub mod Rules
pub mod Create
pub mod Listing
pub mod Claim
pub mod Change
pub mod Attempts
pub mod Parents
pub mod Validity
mod Tests
