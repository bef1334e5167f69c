-- ===== src/Accounting/Tests.antt =====
-- Runs of fusion_relay/accounting.py on small inputs.
use devin_fusion_via_codex.Common.{◌≡◌, refl, true, false, none, some, [], ◌∷◌, String, ok, err}
use devin_fusion_via_codex.Accounting.{
  Event, Admitted, Receipt, Accounts, Digests, pending, complete_state, reconciled_unknown,
  unavailable, is_ref, admitted_of, receipt_of, set_state, look_up, same_dict, agrees,
  recorded_digests, place_receipt,
}
use devin_fusion_via_codex.Accounting.Complete.{
  check_event, check_events, proposed, store_events, store_completion, valid_completion, complete,
  all_intact, insert_receipt, reconcile, reconcile_states, count_pending, close_others,
  acknowledge_pending, acknowledge_unknown,
}
use devin_fusion_via_codex.Accounting.Receipts.{complete_step, here, next, Stored, has_unique_ids}
use devin_fusion_via_codex.Accounting.Final.{Reach-has_unique_ids, Reach-Stored}
use devin_fusion_via_codex.Accounting.Closed.{complete_is_final}
use devin_fusion_via_codex.Accounting.Reconciled.{IsReconciled, acknowledge_unknown-IsReconciled}

abbrev op : String
op = "0123456789abcdef0123456789abcdef0123456789abcdef0123456789abcdef"

abbrev account : String
account = "1123456789abcdef0123456789abcdef0123456789abcdef0123456789abcdef"

abbrev first_id : String
first_id = "2123456789abcdef0123456789abcdef0123456789abcdef0123456789abcdef"

abbrev unknown_id : String
unknown_id = "3123456789abcdef0123456789abcdef0123456789abcdef0123456789abcdef"

abbrev digests : Digests
digests = record { digest_of = λ e. e.status; reconciled_id = λ o. unknown_id }

abbrev first_event : Event
first_event = record {
  event_id = first_id;
  provider = "codex";
  account_ref = account;
  status = "completed";
  input_tokens = some 7;
  output_tokens = some 2;
  cached_tokens = none;
  reasoning_tokens = none;
}

abbrev second_event : Event
second_event = record first_event { event_id = unknown_id }

abbrev operation : Admitted
operation = record {
  operation_id = op;
  run_id = "run";
  provider = "codex";
  account_ref = account;
  state = pending;
}

abbrev admitted_only : Accounts
admitted_only = record {
  run_id = "run";
  operations = operation ∷ [];
  events = [];
  reconciliations = [];
  runs = record { run_id = "run"; closed = false } ∷ [];
  degraded = false;
  gaps = 0;
}

abbrev first_receipt : Receipt
first_receipt = record {
  operation_id = op;
  event = first_event;
  digest = "completed";
  committed = 5;
  exported = false;
}

abbrev completed : Accounts
completed = record admitted_only {
  operations = record operation { state = complete_state } ∷ [];
  events = first_receipt ∷ [];
}

complete_first : complete digests op 5 (first_event ∷ []) admitted_only ≡ (ok tt, completed)
unfolding complete is_ref check_events check_event valid_completion store_completion admitted_of
    store_events receipt_of place_receipt set_state recorded_digests
complete_first = refl

-- Another event for the completed operation is refused, and the ledger is degraded.
complete_other :
    complete digests op 6 (second_event ∷ []) completed
    ≡ (err unavailable, record completed { degraded = true; gaps = 1 })
unfolding complete is_ref check_events check_event valid_completion store_completion admitted_of
    same_dict agrees look_up recorded_digests proposed
complete_other = refl

-- The same completion again changes nothing.
complete_again : completed ≡ (complete digests op 6 (first_event ∷ []) completed).1
unfolding complete is_ref check_events check_event valid_completion store_completion admitted_of
    same_dict agrees look_up recorded_digests proposed store_events receipt_of place_receipt
    set_state
complete_again = refl

empty_unique : has_unique_ids admitted_only.events ≡ true
unfolding has_unique_ids
empty_unique = refl

completed_now : completed ≡ (complete digests op 5 (first_event ∷ []) admitted_only).1
completed_now = rw complete_first refl

Reach-has_unique_ids_example : has_unique_ids completed.events ≡ true
Reach-has_unique_ids_example =
    Reach-has_unique_ids digests empty_unique
      (next here (complete_step op 5 (first_event ∷ []) completed_now))

first_there : receipt_of first_id completed.events ≡ some first_receipt
unfolding receipt_of
first_there = refl

Reach-Stored_example : Stored first_id first_receipt completed.events
Reach-Stored_example =
    Reach-Stored digests first_id first_receipt first_there
      (next here (complete_step op 6 (first_event ∷ []) complete_again))

completed_there :
    admitted_of op completed.operations ≡ some (record operation { state = complete_state })
unfolding admitted_of
completed_there = refl

complete_is_final_example :
    (complete digests op 6 (second_event ∷ []) completed).1.events ≡ first_receipt ∷ []
complete_is_final_example =
    complete_is_final digests op 6 (second_event ∷ []) (record operation { state = complete_state })
      completed completed_there refl

abbrev unknown_receipt : Receipt
unknown_receipt = record {
  operation_id = op;
  event = record first_event {
    event_id = unknown_id;
    status = "unknown";
    input_tokens = none;
    output_tokens = none;
  };
  digest = "unknown";
  committed = 8;
  exported = false;
}

abbrev reconciled : Accounts
reconciled = record admitted_only {
  operations = record operation { state = reconciled_unknown } ∷ [];
  events = unknown_receipt ∷ [];
  reconciliations =
      record { reconciliation_id = "rec"; evidence_ref = account; unknown_operations = 1 } ∷ [];
}

acknowledge_first :
    acknowledge_unknown digests "rec" account true 8 admitted_only ≡ (ok tt, reconciled)
unfolding acknowledge_unknown is_ref all_intact acknowledge_pending reconcile insert_receipt
    receipt_of reconcile_states count_pending close_others
acknowledge_first = refl

acknowledge_unknown-IsReconciled_example :
    IsReconciled digests "rec" account 8 admitted_only reconciled
acknowledge_unknown-IsReconciled_example =
    acknowledge_unknown-IsReconciled digests "rec" account 8 true admitted_only reconciled
      acknowledge_first

abbrev taken_late : Accounts
taken_late = record reconciled {
  operations = record operation { state = complete_state } ∷ [];
  events = unknown_receipt ∷ record first_receipt { committed = 9 } ∷ [];
}

-- A completion after the reconciliation is taken, beside the receipt of the unknown outcome.
complete_late : complete digests op 9 (first_event ∷ []) reconciled ≡ (ok tt, taken_late)
unfolding complete is_ref check_events check_event valid_completion store_completion admitted_of
    store_events receipt_of place_receipt set_state recorded_digests
complete_late = refl

-- Its retry is refused as a conflict, and the ledger is degraded.
complete_late_again :
    complete digests op 10 (first_event ∷ []) taken_late
    ≡ (err unavailable, record taken_late { degraded = true; gaps = 1 })
unfolding complete is_ref check_events check_event valid_completion store_completion admitted_of
    same_dict agrees look_up recorded_digests proposed
complete_late_again = refl
