-- ===== src/Journal/Run/Replay.antt =====
-- Running the same operation again, in `OperationJournal.run` of fusion_relay/operations.py.
use Prim.Native.String.{len}
use devin_fusion_via_codex.Common.{
  ◌≡◌, ◌∙◌, Bool, true, false, Option, none, some, List, String, eq_refl, if◌then◌else◌, ltb,
  Result, ok, err, Option-cases, Bool-cases, inl, inr, refl, Result-cases,
}
use devin_fusion_via_codex.Journal.Rows.{
  Status, executing, succeeded, outcome_unknown, is_terminal, Operation, fetch, finish, reserve_row,
  fetch-finish, fetch-append,
}
use devin_fusion_via_codex.Journal.Run.{
  JournalError, unknown_outcome, check_raised, ToolCall, Parsed, Execution, raised, returned_other,
  returned, Checks, stop, go, begin, after_begin, settle, Ran, run_accepted, accept_call, run,
  dispatch, recorded,
}

abbrev passing : Checks
passing = record { before_reservation = true; before_dispatch = true }

-- The row of a key right after its reservation.
fetch-reserve :
    (scope cid fingerprint : String) (rows : List Operation)
    → fetch scope cid rows ≡ none
    → fetch scope cid (reserve_row scope cid fingerprint rows)
      ≡ some (record {
        scope = scope;
        operation_id = cid;
        fingerprint = fingerprint;
        status = executing;
        result = none;
      })
fetch-reserve scope cid fingerprint rows h =
    rw (fetch-append scope cid rows) (unfold fetch in rw (h, eq_refl scope, eq_refl cid))

-- The row of a key once a reserved operation has been settled.
fetch-settled :
    (scope cid fingerprint : String) (status : Status) (result : Option String)
    (rows : List Operation)
    → fetch scope cid rows ≡ none
    → fetch scope cid (finish scope cid status result (reserve_row scope cid fingerprint rows))
      ≡ some (record {
        scope = scope;
        operation_id = cid;
        fingerprint = fingerprint;
        status = status;
        result = result;
      })
fetch-settled scope cid fingerprint status result rows h = rw (
  fetch-finish scope cid scope cid status result (reserve_row scope cid fingerprint rows),
  eq_refl scope,
  eq_refl cid,
  fetch-reserve scope cid fingerprint rows h,
)

begin_known :
    (scope cid fingerprint : String) (check : Bool) (rows : List Operation) (row : Operation)
    → fetch scope cid rows ≡ some row
    → begin scope cid fingerprint check rows
      ≡ (stop (if check then recorded fingerprint row else err check_raised), rows)
unfolding begin
begin_known scope cid fingerprint true rows row h = rw (h, begin)
begin_known scope cid fingerprint false rows row h = refl

begin_new :
    (scope cid fingerprint : String) (check : Bool) (rows : List Operation)
    → fetch scope cid rows ≡ none
    → begin scope cid fingerprint check rows ≡ (
        if check
        then (go, reserve_row scope cid fingerprint rows)
        else (stop (err check_raised), rows))
unfolding begin
begin_new scope cid fingerprint true rows h = rw (h, begin)
begin_new scope cid fingerprint false rows h = refl

-- An operation that has a row is not executed, and its row stays.
pub run_accepted_known :
    (scope cid fingerprint : String) (checks : Checks) (execution : Execution)
    (rows : List Operation) (row : Operation)
    → fetch scope cid rows ≡ some row
    → run_accepted scope cid fingerprint checks execution rows ≡ record {
      result = if checks.before_reservation then recorded fingerprint row else err check_raised;
      rows = rows;
      executed = false;
    }
unfolding run_accepted
run_accepted_known scope cid fingerprint checks execution rows row h =
    rw (begin_known scope cid fingerprint checks.before_reservation rows row h, run_accepted)

-- What a repeated call answers: a text that was returned, and else that the outcome is unknown.
abbrev pub repeated : Result JournalError (Option String) → Result JournalError (Option String)
repeated (ok text) = ok text
repeated (err e) = err unknown_outcome

repeats :
    (scope cid fingerprint : String) (status : Status) (result : Option String)
    (execution : Execution) (rows : List Operation)
    → fetch scope cid rows ≡ none
    → let rows' = finish scope cid status result (reserve_row scope cid fingerprint rows) in
      run_accepted scope cid fingerprint passing execution rows' ≡ record {
        result = if is_terminal status then ok result else err unknown_outcome;
        rows = rows';
        executed = false;
      }
unfolding recorded
repeats scope cid fingerprint status result execution rows h = rw (
  run_accepted_known scope cid fingerprint passing execution
      (finish scope cid status result (reserve_row scope cid fingerprint rows)) _
      (fetch-settled scope cid fingerprint status result rows h),
  eq_refl fingerprint,
)

rerun_settled :
    (scope cid fingerprint : String) (execution again : Execution) (rows : List Operation)
    → fetch scope cid rows ≡ none
    → let (r, rows') = settle scope cid execution (reserve_row scope cid fingerprint rows) in
      run_accepted scope cid fingerprint passing again rows'
      ≡ record { result = repeated r; rows = rows'; executed = false }
unfolding settle
rerun_settled scope cid fingerprint raised again rows h =
    repeats scope cid fingerprint outcome_unknown none again rows h
rerun_settled scope cid fingerprint returned_other again rows h =
    repeats scope cid fingerprint outcome_unknown none again rows h
rerun_settled scope cid fingerprint (returned text) again rows h =
    elim (Bool-cases (ltb 4194304 (len text))) [
      | inl large ↦ rw large (repeats scope cid fingerprint outcome_unknown none again rows h)
      | inr fits ↦ rw fits (repeats scope cid fingerprint succeeded (some text) again rows h)
    ]

run_accepted_new :
    (scope cid fingerprint : String) (checks : Checks) (execution : Execution)
    (rows : List Operation)
    → fetch scope cid rows ≡ none
    → run_accepted scope cid fingerprint checks execution rows ≡ (
        if checks.before_reservation
        then dispatch scope cid checks.before_dispatch execution
            (reserve_row scope cid fingerprint rows)
        else record { result = err check_raised; rows = rows; executed = false })
unfolding run_accepted
run_accepted_new scope cid fingerprint checks execution rows h =
    rw (begin_new scope cid fingerprint checks.before_reservation rows h, run_accepted)
      (stopped-or-dispatched checks.before_reservation)
  where
    stopped-or-dispatched :
        (b : Bool)
        → after_begin scope cid checks.before_dispatch execution (
            if b
            then (go, reserve_row scope cid fingerprint rows)
            else (stop (err check_raised), rows))
          ≡ (if b
              then dispatch scope cid checks.before_dispatch execution
                  (reserve_row scope cid fingerprint rows)
              else record { result = err check_raised; rows = rows; executed = false })
    stopped-or-dispatched true = refl
    stopped-or-dispatched false = refl

-- The second call after a run that executed.
abbrev Repeats : String → String → String → Execution → Ran → Type 0
Repeats scope cid fingerprint again ran =
    ran.executed ≡ true
    → run_accepted scope cid fingerprint passing again ran.rows
      ≡ record { result = repeated ran.result; rows = ran.rows; executed = false }

dispatch-Repeats :
    (scope cid fingerprint : String) (check : Bool) (execution again : Execution)
    (rows : List Operation)
    → fetch scope cid rows ≡ none
    → Repeats scope cid fingerprint again
        (dispatch scope cid check execution (reserve_row scope cid fingerprint rows))
unfolding dispatch
dispatch-Repeats scope cid fingerprint false execution again rows h executed = cc
dispatch-Repeats scope cid fingerprint true execution again rows h executed =
    rerun_settled scope cid fingerprint execution again rows h

pub rerun_accepted :
    (scope cid fingerprint : String) (checks : Checks) (execution again : Execution)
    (rows : List Operation)
    → Repeats scope cid fingerprint again (run_accepted scope cid fingerprint checks execution rows)
rerun_accepted scope cid fingerprint checks execution again rows =
    elim (Option-cases (fetch scope cid rows)) [
      | inr (row, e) ↦
          rw (run_accepted_known scope cid fingerprint checks execution rows row e) (λ h. cc)
      | inl e ↦ elim (Bool-cases checks.before_reservation) [
        | inl passes ↦
            rw (run_accepted_new scope cid fingerprint checks execution rows e, passes)
              (dispatch-Repeats scope cid fingerprint checks.before_dispatch execution again rows e)
        | inr stops ↦
            rw (run_accepted_new scope cid fingerprint checks execution rows e, stops) (λ h. cc)
      ]
    ]

module _ (loads : String → Parsed) (fingerprint_of : String → String → String) where
  pub accepted :
      (scope : String) (call : ToolCall) (checks : Checks) (execution : Execution)
      (rows : List Operation) (cid fingerprint : String)
      → accept_call loads fingerprint_of scope call ≡ ok (cid, fingerprint)
      → run loads fingerprint_of scope call checks execution rows
        ≡ run_accepted scope cid fingerprint checks execution rows
  unfolding run
  accepted scope call checks execution rows cid fingerprint e = rw (e, run)

  refused :
      (scope : String) (call : ToolCall) (checks : Checks) (execution : Execution)
      (rows : List Operation) (x : JournalError)
      → accept_call loads fingerprint_of scope call ≡ err x
      → run loads fingerprint_of scope call checks execution rows
        ≡ record { result = err x; rows = rows; executed = false }
  unfolding run
  refused scope call checks execution rows x e = rw (e, run)

  -- Once a call was executed, running it again executes nothing and changes no row, whatever the
  -- callable would do: it returns the text that the first run returned, and where the first run
  -- raised it raises that the outcome is unknown.
  pub run_again :
      (scope : String) (call : ToolCall) (checks : Checks) (execution again : Execution)
      (rows : List Operation)
      → (run loads fingerprint_of scope call checks execution rows).executed ≡ true
      → let ran = run loads fingerprint_of scope call checks execution rows in
        run loads fingerprint_of scope call
          (record { before_reservation = true; before_dispatch = true })
          again
          ran.rows
        ≡ record { result = repeated ran.result; rows = ran.rows; executed = false }
  run_again scope call checks execution again rows =
      elim (Result-cases (accept_call loads fingerprint_of scope call)) [
        | inl ((cid, fingerprint), e) ↦
            rw (accepted scope call checks execution rows cid fingerprint e) (λ h.
              accepted scope call passing again
                (run_accepted scope cid fingerprint checks execution rows).rows cid fingerprint e
              ∙ rerun_accepted scope cid fingerprint checks execution again rows h)
        | inr (x, e) ↦ rw (refused scope call checks execution rows x e) (λ h. cc)
      ]
