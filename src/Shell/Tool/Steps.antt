-- ===== src/Shell/Tool/Steps.antt =====
-- The steps of a call of the shell tool, and the execution of its process.
use agent_sam.Prelude.{
  ℕ, String, true, false, none, some, List, [], ◌∷◌, ◌≡◌, ◌≢◌, ◌⊎◌, inl, inr, refl, ◌∙◌, subst,
  arith, find, update, contains, nat_eq, string_eq, pos, negsuc, zero, suc, option_eq,
}
use agent_sam.Shell.Classify.{classify_command}
use agent_sam.Shell.Store.{
  ToolCall, Process, Store, Ending, exited, timed_out, Host, has_call_id, find_call,
}
use agent_sam.Shell.Tool.{resolve_working_directory, finished, process_of, execute_tool_call}
use agent_sam.Shell.Tool.Calls.{waiting_statuses, is_tool_call_approved}

-- Rows of other calls are left alone.
pub find_call-update-other :
    (c : ToolCall) (rows : List ToolCall) (j : ℕ)
    → j ≢ c.id
    → find (has_call_id j) (update (has_call_id c.id) (λ _. c) rows) ≡ find (has_call_id j) rows
find_call-update-other c [] j n = refl
find_call-update-other c (x ∷ xs) j n = ground (
  arith,
  find_call-update-other c xs j n,
  nat_eq.beq_iff x.id c.id,
  nat_eq.beq_iff x.id j,
  nat_eq.beq_iff c.id j,
)

pub find_call-update-same :
    (c old : ToolCall) (rows : List ToolCall)
    → find (has_call_id c.id) rows ≡ some old
    → find (has_call_id c.id) (update (has_call_id c.id) (λ _. c) rows) ≡ some c
find_call-update-same c old [] h = cc
find_call-update-same c old (x ∷ xs) h =
    ground
      (arith, find_call-update-same c old xs, nat_eq.beq_iff x.id c.id, nat_eq.beq_iff c.id c.id)

-- A call whose process has ended: well, with another exit code, or at the time limit.
abbrev pub IsOver : ToolCall → Type 0
IsOver c =
    ((c.status ≡ "completed") × (c.exit_code ≡ some (pos zero)))
    ⊎ (((c.status ≡ "failed") × (c.exit_code ≢ some (pos zero))) ⊎ (c.status ≡ "timed_out"))

finished-IsOver :
    (h : Host) (timeout elapsed : ℕ) (e : Ending) (c : ToolCall)
    → IsOver (finished h timeout elapsed e c)
finished-IsOver h timeout elapsed (exited (pos zero) stdout stderr) c = inl (refl, refl)
finished-IsOver h timeout elapsed (exited (pos (suc n)) stdout stderr) c =
    inr (inl (refl, (λ e. cc)))
finished-IsOver h timeout elapsed (exited (negsuc n) stdout stderr) c = inr (inl (refl, (λ e. cc)))
finished-IsOver h timeout elapsed (timed_out code stdout stderr) c = inr (inr refl)

-- A call that is over waits for nothing.
pub IsOver-not_waiting : (c : ToolCall) → IsOver c → contains waiting_statuses c.status ≡ false
IsOver-not_waiting c (inl (e, code)) = rw e refl
IsOver-not_waiting c (inr (inl (e, code))) = rw e refl
IsOver-not_waiting c (inr (inr e)) = rw e refl

module _ (h : Host) where
  -- A process that the rules on commands and on directories admit.
  abbrev pub IsAllowed : Process → Type 0
  IsAllowed p =
      ((classify_command h.search p.command).blocked ≡ false)
      × (h.is_directory (h.resolve p.cwd) ≡ true)
      × (h.in_allowed_roots (h.resolve p.cwd) ≡ true)

  -- A process whose command needs an approval belongs to a call that has one.
  abbrev pub IsApproved : Store → Process → Type 0
  IsApproved s p =
      (classify_command h.search p.command).requires_approval ≡ true
      → (c : ToolCall) × (find_call p.tool_call_id s ≡ some c) × (is_tool_call_approved c s ≡ true)

  abbrev pub Keeps : ℕ → Store → Store → Type 0
  Keeps i s s' = (j : ℕ) → j ≢ i → find_call j s' ≡ find_call j s

  -- The call `i` of the store is over.
  abbrev pub IsSpent : Store → ℕ → Type 0
  IsSpent s i = (c : ToolCall) × (find_call i s ≡ some c) × IsOver c

  -- The call `i` starts nothing, or one process that is allowed, and spends the call.
  abbrev pub IsStep : ℕ → Store → Store → Type 0
  IsStep i s s' =
      Keeps i s s'
      × ((s'.spawned ≡ s.spawned)
          ⊎ ((p : Process) × (s'.spawned ≡ p ∷ s.spawned)
              × (p.tool_call_id ≡ i)
              × IsAllowed p
              × IsApproved s p
              × IsSpent s' i))

  pub resolve_working_directory-none :
      (raw : String)
      → (resolve_working_directory h raw).1 ≡ none
      → (h.is_directory (h.resolve raw) ≡ true) × (h.in_allowed_roots (h.resolve raw) ≡ true)
  unfolding resolve_working_directory
  resolve_working_directory-none raw e = ground arith

  pub resolve_working_directory-path :
      (raw : String) → (resolve_working_directory h raw).0 ≡ h.resolve raw
  unfolding resolve_working_directory
  resolve_working_directory-path raw = ground arith

  finished-id :
      (timeout elapsed : ℕ) (e : Ending) (c : ToolCall) → (finished h timeout elapsed e c).id ≡ c.id
  finished-id timeout elapsed (exited code stdout stderr) c = refl
  finished-id timeout elapsed (timed_out code stdout stderr) c = refl

  pub write_call-keeps :
      (s : Store) (c : ToolCall) (rows : List ToolCall) (i : ℕ)
      → c.id ≡ i
      → ((j : ℕ) → j ≢ i → find (has_call_id j) rows ≡ find_call j s)
      → (j : ℕ) → j ≢ i
      → find (has_call_id j) (update (has_call_id c.id) (λ _. c) rows) ≡ find_call j s
  write_call-keeps s c rows i same keep j n =
      find_call-update-other c rows j (λ e. n (e ∙ same)) ∙ keep j n

  pub execute_tool_call-IsStep :
      (s : Store) (running : ToolCall) (rows : List ToolCall) (i : ℕ)
      → running.id ≡ i
      → find (has_call_id i) rows ≡ some running
      → ((j : ℕ) → j ≢ i → find (has_call_id j) rows ≡ find_call j s)
      → IsAllowed (process_of h running)
      → IsApproved s (process_of h running)
      → IsStep i s (execute_tool_call h running (record s { tool_calls = rows })).1
  unfolding execute_tool_call
  execute_tool_call-IsStep s running rows i same found keep allowed approved =
      let p = process_of h running in
      let t = running.input_payload.timeout_seconds in
      let fin = finished h t (h.elapsed_ms p) (h.run p t) running in
      let fin_id : fin.id ≡ i = finished-id t (h.elapsed_ms p) (h.run p t) running ∙ same in
      let stored = find_call-update-same fin running rows (rw fin_id found) in
      (
        write_call-keeps s fin rows i fin_id keep,
        inr (
          p,
          refl,
          same,
          allowed,
          approved,
          (
            fin,
            subst
                (λ j. find (has_call_id j) (update (has_call_id fin.id) (λ _. fin) rows) ≡ some fin)
                fin_id stored,
            finished-IsOver h t (h.elapsed_ms p) (h.run p t) running,
          ),
        ),
      )
