-- ===== src/Ledger/Tests.antt =====
-- Runs of fusion_relay/continuation.py on small inputs.
use devin_fusion_via_codex.Common.{
  ℕ, ◌≡◌, refl, true, false, none, some, [], ◌∷◌, String, ok, arith,
}
use devin_fusion_via_codex.Journal.Rows.{fetch}
use devin_fusion_via_codex.Journal.Delivery.{existing}
use devin_fusion_via_codex.Ledger.Binding.{ContinuationBinding, scope_of, consumer_for}
use devin_fusion_via_codex.Ledger.State.{
  Ledger, consumer_acknowledged, turn_of, any_status, is_unresolved, head_of,
}
use devin_fusion_via_codex.Ledger.Reserve.{reserve}
use devin_fusion_via_codex.Ledger.Reserve.Merged.{reserve-Reinserted}
use devin_fusion_via_codex.Ledger.Reserve.Splices.{Reinserted}
use devin_fusion_via_codex.Ledger.Commit.{is_evidence, resolve_unknown}
use devin_fusion_via_codex.Ledger.Accept.{
  ack_of, matches_turn, settle_delivery, acknowledge_prior, mark_acknowledged, acknowledge_result,
  acceptance_state, acknowledged,
}
use devin_fusion_via_codex.Ledger.Epoch.{
  newest, mem_text, follow, last_of, epoch_chain, resolve_epoch,
}
use devin_fusion_via_codex.Ledger.Epoch.Walk.{resolve_epoch_last}
use devin_fusion_via_codex.Ledger.Epoch.Links.{IsChain, epoch_chain-IsChain}
use devin_fusion_via_codex.Ledger.Chain.{IsChained, revisions, count_from}
use devin_fusion_via_codex.Ledger.Chain.Steps.{Reach-IsChained}
use devin_fusion_via_codex.Ledger.Lane.{IsSingle, unresolved_count, has_unique_keys}
use devin_fusion_via_codex.Ledger.Reserve.Unchanged.{Replays}
use devin_fusion_via_codex.Ledger.Lane.Single.{Reach-IsSingle, reserve_alone}
use devin_fusion_via_codex.Ledger.Lane.Blocked.{reserve_blocked, resolve_unknown_frees}
use devin_fusion_via_codex.Ledger.Paid.Replayed.{replay_with, commit_is_replayed}
use devin_fusion_via_codex.Ledger.Stays.{Stays}
use devin_fusion_via_codex.Ledger.Stays.Final.{Reach-Stays}
use devin_fusion_via_codex.Ledger.Stays.Acknowledged.{answer, acknowledge_is_final}
use devin_fusion_via_codex.Ledger.Steps.{here}
use devin_fusion_via_codex.Ledger.Steps.Changes.{Unresolved}
use devin_fusion_via_codex.Ledger.Epoch.Candidate.{
  history_matches, candidates, find_carry_candidate, IsCarryable, find_carry_candidate-IsCarryable,
}
use devin_fusion_via_codex.Ledger.Reserve.{anchor_of}
use devin_fusion_via_codex.Ledger.Samples.{stays_here}
use devin_fusion_via_codex.Ledger.Visible.{
  visible_items, show_items, show_item, content_of, parts_text, part_text,
}
use devin_fusion_via_codex.Common.Json.{get, all_objects}
use devin_fusion_via_codex.Ledger.Binding.{unseal}
use devin_fusion_via_codex.Ledger.State.{turns, turns_of, open_turns, open_turn}
use devin_fusion_via_codex.Ledger.Samples.{
  binding, first_body, second_body, first_output, codec, empty, row_in, first_reserved,
  first_reservation, first_turn, first_committed, second_merged, second_reservation,
  second_reserved, second_history, first_opened, Elsewhere, first_run, second_run, reserve_first,
  commit_first, reserve_second, history_read, turns_read, scoped, result_read,
}

reserve-Reinserted_example :
    Reinserted (first_output ∷ []) second_merged second_history × ◌≡◌ {A = ℕ} 1 1
reserve-Reinserted_example =
    reserve-Reinserted codec binding "op2" second_body first_committed second_reservation
      second_reserved second_history (first_opened ∷ []) reserve_second history_read turns_read

empty-IsChained : IsChained empty
unfolding IsChained revisions head_of count_from
empty-IsChained s = refl

committed-IsChained : IsChained first_committed
committed-IsChained = Reach-IsChained codec Elsewhere empty-IsChained first_run

Reach-IsChained_example : IsChained second_reserved
Reach-IsChained_example = Reach-IsChained codec Elsewhere committed-IsChained second_run

empty-IsSingle : IsSingle []
unfolding has_unique_keys unresolved_count
empty-IsSingle = record { unique = refl; single = λ s. omega arith }

committed-IsSingle : IsSingle first_committed.operations
committed-IsSingle = Reach-IsSingle codec Elsewhere empty-IsSingle first_run

reserved-IsSingle : IsSingle second_reserved.operations
reserved-IsSingle = Reach-IsSingle codec Elsewhere committed-IsSingle second_run

Reach-IsSingle_example : IsSingle second_reserved.operations
Reach-IsSingle_example = Reach-IsSingle codec Elsewhere committed-IsSingle second_run

reserve_alone_example :
    (unresolved_count "e1" first_committed.operations ≡ 0)
    × (unresolved_count "e1" second_reserved.operations ≡ 1)
reserve_alone_example =
    reserve_alone codec binding "op2" second_body first_committed second_reserved second_reservation
      committed-IsSingle reserve_second

lane_busy : any_status is_unresolved "e1" second_reserved.operations ≡ true
unfolding any_status
lane_busy = refl

-- While the second operation is executing, the first is replayed.
replay_first :
    reserve codec binding "op1" first_body second_reserved
    ≡ ok (replay_with "e1" "op1" 1 "wire", second_reserved)
replay_first =
    commit_is_replayed codec "n2" binding "op1" first_body empty first_reserved first_reserved
      first_committed second_reserved first_reservation "n1" "wire" first_output tt result_read
      reserve_first commit_first second_run

reserve_blocked_example : Replays codec binding "op1" first_body second_reserved second_reserved
reserve_blocked_example =
    reserve_blocked codec binding "e1" "op1" first_body second_reserved second_reserved
      (replay_with "e1" "op1" 1 "wire") reserved-IsSingle scoped lane_busy replay_first

abbrev evidence_ref : String
evidence_ref = "0123456789abcdef0123456789abcdef0123456789abcdef0123456789abcdef"

evidence_read : is_evidence evidence_ref ≡ true
unfolding is_evidence
evidence_read = refl

second-Unresolved : Unresolved "e1" "op2" second_reserved.operations
unfolding fetch
second-Unresolved = record { row = row_in "op2"; found = refl; unresolved = refl }

resolve_unknown_frees_example :
    (n : Ledger) × (resolve_unknown codec "n3" "e1" "op2" evidence_ref "abandoned" second_reserved
      ≡ ok (tt, n))
    × (unresolved_count "e1" n.operations ≡ 0)
resolve_unknown_frees_example =
    resolve_unknown_frees codec "n3" "e1" "op2" evidence_ref second_reserved reserved-IsSingle
      second-Unresolved evidence_read refl

commit_is_replayed_example :
    reserve codec binding "op1" first_body second_reserved
    ≡ ok (replay_with "e1" "op1" 1 "wire", second_reserved)
commit_is_replayed_example =
    commit_is_replayed codec "n2" binding "op1" first_body empty first_reserved first_reserved
      first_committed second_reserved first_reservation "n1" "wire" first_output tt result_read
      reserve_first commit_first second_run

first_stored : turn_of "e1" "op1" first_committed.turns ≡ some first_turn
unfolding turn_of
first_stored = refl

Reach-Stays_example : Stays "e1" "op1" first_turn second_reserved.turns
Reach-Stays_example = Reach-Stays codec "e1" "op1" first_turn first_stored second_run

abbrev first_acknowledged : Ledger
first_acknowledged = record second_reserved {
  turns = record first_turn { state = consumer_acknowledged } ∷ [];
  acks =
      record {
        scope = "e1";
        operation_id = "op1";
        revision = 1;
        response_digest = "dig";
        reference = "ref";
      }
      ∷ [];
}

acknowledge_first :
    acknowledge_result codec binding "op1" 1 "dig" "ref" second_reserved
    ≡ ok (false, first_acknowledged)
unfolding acknowledge_result scope_of consumer_for matches_turn turn_of ack_of acknowledge_prior
    settle_delivery existing mark_acknowledged
acknowledge_first = refl

acknowledge_is_final_example :
    (acceptance_state codec binding "op1" first_acknowledged ≡ ok acknowledged)
    × (acknowledge_result codec binding "op1" 1 "dig" "other" first_acknowledged
        ≡ answer 1 "dig" "ref" 1 "dig" "other" first_acknowledged)
acknowledge_is_final_example =
    acknowledge_is_final codec binding "e1" "op1" 1 "dig" "ref" second_reserved first_acknowledged
      first_acknowledged scoped acknowledge_first here 1 "dig" "other"

abbrev forked : Ledger
forked = record empty {
  transitions =
      record {
        from_scope = "e1";
        to_scope = "e2";
        to_epoch = "e2";
        prior_head = 0;
        carried_from = none;
      }
      ∷ [];
  heads = record { scope = "e2"; revision = 0 } ∷ [];
}

abbrev next_binding : ContinuationBinding
next_binding = record binding { epoch = "e2" }

chain_found : epoch_chain codec binding forked ≡ ok (binding ∷ next_binding ∷ [])
unfolding epoch_chain scope_of follow newest mem_text
chain_found = refl

epoch_chain-IsChain_example : IsChain codec forked binding (binding ∷ next_binding ∷ [])
epoch_chain-IsChain_example =
    epoch_chain-IsChain codec forked binding (binding ∷ next_binding ∷ []) chain_found

epoch_found : resolve_epoch codec binding forked ≡ ok next_binding
unfolding resolve_epoch epoch_chain scope_of follow newest mem_text last_of
epoch_found = refl

resolve_epoch_last_example :
    (s : String) × (scope_of codec next_binding ≡ ok s) × (newest s forked.transitions ≡ none)
resolve_epoch_last_example = resolve_epoch_last codec forked binding next_binding epoch_found

abbrev resumed : ContinuationBinding
resumed = record binding { session = "ses2"; epoch = "e9" }

first_matches : history_matches second_history 0 (first_opened ∷ []) ≡ ok true
unfolding history_matches anchor_of visible_items show_items show_item content_of parts_text
    part_text get all_objects
first_matches = rw (history_matches, stays_here) refl

candidate_found :
    find_carry_candidate codec resumed second_history 64 first_committed ≡ ok (some binding)
unfolding find_carry_candidate scope_of candidates any_status turns turns_of open_turns open_turn
    unseal
candidate_found = rw (find_carry_candidate, first_matches) refl

find_carry_candidate-IsCarryable_example :
    IsCarryable codec resumed second_history first_committed binding
find_carry_candidate-IsCarryable_example =
    find_carry_candidate-IsCarryable codec resumed second_history first_committed 64 binding
      candidate_found
