-- ===== src/Worker.antt =====
-- workers/main.py: `worker_loop`. What other sessions do is an argument: each round of the loop has
-- an environment with the clock, the locks, and `handle_task`, the agent runtime, which may change
-- the tables. The loop itself never ends unless `once` is set; it is run over a list of rounds.
pub mod Closing
use agent_sam.Prelude.{
  ℕ, String, ◌<>◌, Bool, true, false, Option, none, some, List, [], ◌∷◌, Outcome, ok, raise, ◌==◌,
  string_eq, if◌then◌else◌,
}
use agent_sam.Database.{Task, Tables}
use agent_sam.TaskQueue.Claim.{ClaimCall, claim_next_task}
use agent_sam.TaskQueue.Change.{complete_task, pause_task, fail_task}

-- The part of `AgentRunResult` that the worker reads, or the text of an exception.
pub data Handled : Type 0 where
  returned : (status final_summary : String) → Handled
  raised : String → Handled

pub record Round : Type 0 where
  pub claim : ClaimCall
  pub handle_task : Task → Tables → Handled × Tables
  pub locked : ℕ → Bool
  pub locked_runs : ℕ → Bool
  pub now : ℕ

abbrev pub tables_after {ℓ} : {A : Type ℓ} → Tables → Outcome (A × Tables) → Tables
tables_after db (ok (_, db')) = db'
tables_after db (raise e) = db

-- The session that records how the task ended.
unfoldable pub close_task : Round → ℕ → Handled → Tables → Outcome (Option Task × Tables)
close_task r id (raised text) = fail_task r.locked r.locked_runs r.now id (some text)
close_task r id (returned status final_summary) =
    if status == "completed"
    then complete_task r.locked r.locked_runs r.now id
    else if status == "paused"
    then pause_task r.locked r.locked_runs r.now id
    else if status == "failed"
    then fail_task r.locked r.locked_runs r.now id (some final_summary)
    else fail_task r.locked r.locked_runs r.now id
        (some ("Unexpected agent result status: " <> status))

process : Round → Task → Tables → Tables
process r t db =
    let (handled, db') = r.handle_task t db in tables_after db' (close_task r t.id handled db')

finish_round : Round → Option Task × Tables → Option Task × Tables
finish_round r (none, db) = (none, db)
finish_round r (some t, db) = (some t, process r t db)

-- The worker asks for a task of any workspace.
abbrev pub worker_claim : Round → ClaimCall
worker_claim r = record r.claim { workspace_id = none }

-- One round: the task that was claimed, if any, and the tables.
unfoldable pub worker_round : Round → Tables → Option Task × Tables
unfolding process finish_round
worker_round r db = finish_round r (claim_next_task (worker_claim r) db)

unfoldable pub worker_loop : Bool → List Round → Tables → Tables
worker_loop once [] db = db
worker_loop once (r ∷ rs) db =
    let after = (worker_round r db).1 in
    let rest = worker_loop once rs after in if once then after else rest
