-- ===== src/Journal/Run.antt =====
-- fusion_relay/operations.py: `lookup` and `run` of `OperationJournal`. `json.loads` of the arguments
-- and the SHA-256 fingerprint are parameters. A check is whether the caller's callback returns, and
-- an execution is what the caller's callable does. Failures of the database itself are not modelled.
pub mod Once
pub mod Replay
use Prim.Native.String.{len}
use devin_fusion_via_codex.Common.{
  ℕ, ◌≡◌, Bool, true, false, not, Option, none, some, List, [], ◌∷◌, String, str_eq, if◌then◌else◌,
  ltb, Result, ok, err, raise_if, ◌>>=◌, ◌>>◌,
}
use devin_fusion_via_codex.Journal.Rows.{
  Status, executing, succeeded, cancelled, outcome_unknown, is_terminal, Operation, fetch, finish,
  reserve_row,
}

-- `UnsupportedRequest` by its messages, `IncompleteResponse`, and what a callback raises.
pub data JournalError : Type 0 where
  scope_required invalid_call invalid_arguments arguments_not_object conflicting_reuse :
      JournalError
  unknown_outcome check_raised execution_raised : JournalError

abbrev pub max_result_bytes : ℕ
max_result_bytes = 4194304

-- A field of a tool call that is missing or no text is `none`.
pub record ToolCall : Type 0 where
  pub call_id : Option String
  pub name : Option String
  pub arguments : Option String

pub data Parsed : Type 0 where
  invalid object other_value : Parsed

pub data Execution : Type 0 where
  raised returned_other : Execution
  returned : String → Execution

-- Whether the checks up to the reservation return, and the one before the dispatch.
pub record Checks : Type 0 where
  pub before_reservation : Bool
  pub before_dispatch : Bool

-- `lookup`: an `executing` row is shown as `outcome_unknown`.
abbrev pub observed : Status → Status
observed executing = outcome_unknown
observed status = status

unfoldable pub lookup : String → String → List Operation → Option Operation
lookup scope operation_id rows = elim (fetch scope operation_id rows) [
  | none ↦ none
  | some row ↦ some (record row { status = observed row.status })
]

-- What the transaction before the dispatch decides.
pub data Begin : Type 0 where
  stop : Result JournalError (Option String) → Begin
  go : Begin

pub recorded : String → Operation → Result JournalError (Option String)
recorded fingerprint row =
    if not (str_eq row.fingerprint fingerprint)
    then err conflicting_reuse
    else if is_terminal row.status
    then ok row.result
    else err unknown_outcome

unfoldable pub begin : String → String → String → Bool → List Operation → Begin × List Operation
unfolding recorded
begin scope cid fingerprint check rows =
    if not check then (stop (err check_raised), rows) else elim (fetch scope cid rows) [
      | some row ↦ (stop (recorded fingerprint row), rows)
      | none ↦ (go, reserve_row scope cid fingerprint rows)
    ]

-- What is recorded once the callable has ended.
unfoldable pub settle :
    String
    → String
    → Execution
    → List Operation
    → Result JournalError (Option String) × List Operation
settle scope cid raised rows = (err execution_raised, finish scope cid outcome_unknown none rows)
settle scope cid returned_other rows =
    (err unknown_outcome, finish scope cid outcome_unknown none rows)
settle scope cid (returned text) rows =
    if ltb max_result_bytes (len text)
    then (err unknown_outcome, finish scope cid outcome_unknown none rows)
    else (ok (some text), finish scope cid succeeded (some text) rows)

abbrev pub cancel_result : Option String
cancel_result = some "cancelled before dispatch"

-- The result, the rows left, and whether the callable was called.
pub record Ran : Type 0 where
  pub result : Result JournalError (Option String)
  pub rows : List Operation
  pub executed : Bool

-- From the last check on.
pub dispatch : String → String → Bool → Execution → List Operation → Ran
unfolding settle
dispatch scope cid false execution rows = record {
  result = err check_raised;
  rows = finish scope cid cancelled cancel_result rows;
  executed = false;
}
dispatch scope cid true execution rows =
    let (r, rows') = settle scope cid execution rows in
    record { result = r; rows = rows'; executed = true }

abbrev pub after_begin : String → String → Bool → Execution → Begin × List Operation → Ran
after_begin scope cid check execution (stop r, rows) = record {
  result = r;
  rows = rows;
  executed = false;
}
after_begin scope cid check execution (go, rows) = dispatch scope cid check execution rows

-- `run` once the call's shape is checked.
unfoldable pub run_accepted : String → String → String → Checks → Execution → List Operation → Ran
unfolding begin dispatch
run_accepted scope cid fingerprint checks execution rows =
    after_begin scope cid checks.before_dispatch execution
      (begin scope cid fingerprint checks.before_reservation rows)

-- A text that is there and not empty.
abbrev pub nonempty : Option String → JournalError → Result JournalError String
nonempty none e = err e
nonempty (some text) e = if str_eq text "" then err e else ok text

abbrev pub present : Option String → JournalError → Result JournalError String
present none e = err e
present (some text) e = ok text

abbrev pub check_parsed : Parsed → Result JournalError (Unit {0})
check_parsed invalid = err invalid_arguments
check_parsed other_value = err arguments_not_object
check_parsed object = ok tt

module _ (loads : String → Parsed) (fingerprint_of : String → String → String) where
  -- The checks of the call's shape: its id and its fingerprint.
  pub accept_call : String → ToolCall → Result JournalError (String × String)
  accept_call scope call = do
    raise_if (str_eq scope "") scope_required
    cid ← nonempty call.call_id invalid_call
    name ← nonempty call.name invalid_call
    arguments ← present call.arguments invalid_call
    check_parsed (loads arguments)
    ok (cid, fingerprint_of name arguments)

  unfoldable pub run : String → ToolCall → Checks → Execution → List Operation → Ran
  unfolding accept_call run_accepted
  run scope call checks execution rows = elim (accept_call scope call) [
    | err e ↦ record { result = err e; rows = rows; executed = false }
    | ok (cid, fingerprint) ↦ run_accepted scope cid fingerprint checks execution rows
  ]
