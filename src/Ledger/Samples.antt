-- ===== src/Ledger/Samples.antt =====
-- Small inputs for runs of fusion_relay/continuation.py, and what the calls make of them.
use devin_fusion_via_codex.Common.{
  ◌≡◌, ◌≢◌, refl, false, Option, none, some, List, [], ◌∷◌, String, str_eq, if◌then◌else◌, ok,
}
use devin_fusion_via_codex.Common.Json.{
  Json, same_items_refl, get, all_objects, string, array, object, nil, cons, Object, end, field,
}
use devin_fusion_via_codex.Journal.Rows.{Operation, executing, succeeded, fetch, finish}
use devin_fusion_via_codex.Ledger.Binding.{
  ContinuationBinding, Codec, Payload, turn, committed, resolution, scope_of, seal, unseal,
}
use devin_fusion_via_codex.Ledger.Visible.{
  visible_items, show_items, show_item, content_of, parts_text, part_text,
}
use devin_fusion_via_codex.Ledger.State.{
  Ledger, Turn, result_committed, history_evidenced, Opened, turns, open_turns, open_turn, turns_of,
  any_status, head_of, put_head, clashes, place, record_scope,
}
use devin_fusion_via_codex.Ledger.Reserve.{
  Reservation, admitted, history_of, anchor_of, departs, reserve, reserve_new, splices, splice_all,
  splice, any_legacy, evidence, evidence_count,
}
use devin_fusion_via_codex.Ledger.Commit.{commit, holds}
use devin_fusion_via_codex.Ledger.Paid.Replayed.{ReadsBack}
use devin_fusion_via_codex.Ledger.Steps.{reserve_step, commit_step, Reach, here, next}

abbrev pub binding : ContinuationBinding
binding = record { account = "acct"; session = "ses"; lane = "lead"; profile = "p"; epoch = "e1" }

abbrev pub said : String → String → Json
said who what = object (field "content" (string what) (field "role" (string who) end))

abbrev pub first_body : Object
first_body = field "input" (array (cons (said "user" "hi") nil)) end

abbrev pub second_body : Object
second_body =
    field "input"
      (array (
        cons (said "user" "hi") (cons (said "assistant" "hello") (cons (said "user" "go on") nil))))
      end

abbrev pub thought : Json
thought = object (field "type" (string "reasoning") end)

abbrev pub reply : Json
reply = object (
    field "content"
      (array (
        cons (object (field "text" (string "hello") (field "type" (string "output_text") end)))
          nil))
      (field "type" (string "message") end))

abbrev pub first_output : List Json
first_output = thought ∷ reply ∷ []

abbrev pub encrypt : Payload → String
encrypt (turn input output) = "turn"
encrypt (committed wire revision) = "result"
encrypt (resolution ref) = "note"

abbrev pub decrypt : String → Option Payload
decrypt x =
    if str_eq x "turn"
    then some (turn first_body first_output)
    else if str_eq x "result"
    then some (committed "wire" 1)
    else none

abbrev pub codec : Codec
codec = record {
  scope_digest = λ b. b.epoch;
  body_digest = λ b. "in";
  output_digest = λ o. "out";
  wire_digest = λ w. "dig";
  body_size = λ b. 100;
  size = λ p. 100;
  encrypt = λ n s o p. encrypt p;
  decrypt = λ s o x. decrypt x;
}

abbrev pub empty : Ledger
empty = record {
  operations = [];
  deliveries = [];
  heads = [];
  turns = [];
  acks = [];
  transitions = [];
  bindings = [];
}

abbrev pub row_in : String → Operation
row_in o = record {
  scope = "e1";
  operation_id = o;
  fingerprint = "in";
  status = executing;
  result = none;
}

abbrev pub first_reserved : Ledger
first_reserved = record empty {
  operations = row_in "op1" ∷ [];
  bindings = record { scope = "e1"; binding = binding } ∷ [];
}

abbrev pub first_reservation : Reservation
first_reservation = record {
  scope = "e1";
  operation_id = "op1";
  revision = 0;
  native_body = first_body;
  merged = said "user" "hi" ∷ [];
  evidenced = 0;
}

pub reserve_first :
    reserve codec binding "op1" first_body empty ≡ ok (admitted first_reservation, first_reserved)
unfolding reserve scope_of history_of get all_objects fetch reserve_new any_status turns turns_of
    open_turns head_of splices any_legacy splice_all record_scope
reserve_first = refl

abbrev pub first_turn : Turn
first_turn = record {
  scope = "e1";
  revision = 1;
  operation_id = "op1";
  input_digest = "in";
  output_digest = "out";
  sealed = "turn";
  response_digest = "dig";
  state = result_committed;
}

abbrev pub first_committed : Ledger
first_committed = record first_reserved {
  operations = record (row_in "op1") { status = succeeded; result = some "result" } ∷ [];
  heads = record { scope = "e1"; revision = 1 } ∷ [];
  turns = first_turn ∷ [];
}

pub commit_first :
    commit codec "n1" "n2" first_reservation first_output "wire" first_reserved
    ≡ ok (tt, first_committed)
unfolding commit visible_items show_items show_item content_of parts_text part_text seal fetch holds
    head_of clashes place put_head finish get all_objects
commit_first = refl

abbrev pub second_merged : List Json
second_merged = said "user" "hi" ∷ thought ∷ reply ∷ said "user" "go on" ∷ []

abbrev pub second_reservation : Reservation
second_reservation = record {
  scope = "e1";
  operation_id = "op2";
  revision = 1;
  native_body = second_body;
  merged = second_merged;
  evidenced = 1;
}

abbrev pub second_reserved : Ledger
second_reserved = record first_committed {
  operations =
      record (row_in "op1") { status = succeeded; result = some "result" } ∷ row_in "op2" ∷ [];
  turns = record first_turn { state = history_evidenced } ∷ [];
}

abbrev pub second_history : List Json
second_history = said "user" "hi" ∷ said "assistant" "hello" ∷ said "user" "go on" ∷ []

pub stays_here :
    departs second_history 0 (said "user" "hi" ∷ []) (said "assistant" "hello" ∷ []) ≡ false
unfolding departs
stays_here =
    rw (same_items_refl (said "user" "hi" ∷ []), same_items_refl (said "assistant" "hello" ∷ []))
      refl

abbrev pub first_opened : Opened
first_opened = record { operation_id = "op1"; input = first_body; output = first_output }

pub spliced :
    splices second_history 0 (first_opened ∷ [])
    ≡ ok (record { start = 1; end = 2; output = first_output } ∷ [])
unfolding splices anchor_of visible_items show_items show_item content_of parts_text part_text get
    all_objects
spliced = rw (splices, stays_here) refl

pub reserve_second :
    reserve codec binding "op2" second_body first_committed
    ≡ ok (admitted second_reservation, second_reserved)
unfolding reserve scope_of history_of get all_objects fetch reserve_new any_status turns turns_of
    open_turns open_turn unseal head_of splice_all splice evidence evidence_count any_legacy
    record_scope
reserve_second = rw (reserve, reserve_new, turns, spliced) refl

abbrev pub Elsewhere : String → Type 0
Elsewhere s = s ≢ "e1"

abbrev pub first_run : Reach codec Elsewhere empty first_committed
first_run =
    next
      (next here (reserve_step binding "op1" first_body (admitted first_reservation) reserve_first))
      (commit_step "n1" "n2" first_reservation first_output "wire" tt commit_first)

abbrev pub second_run : Reach codec Elsewhere first_committed second_reserved
second_run =
    next here (reserve_step binding "op2" second_body (admitted second_reservation) reserve_second)

pub history_read : history_of second_body ≡ ok second_history
unfolding history_of get all_objects
history_read = refl

pub turns_read : turns codec "e1" first_committed ≡ ok (first_opened ∷ [])
unfolding turns turns_of open_turns open_turn unseal
turns_read = refl

pub scoped : scope_of codec binding ≡ ok "e1"
unfolding scope_of
scoped = refl

pub result_read : ReadsBack codec "n2" "e1" "op1" (committed "wire" 1)
unfolding ReadsBack
result_read = refl
