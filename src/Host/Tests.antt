-- ===== src/Host/Tests.antt =====
-- Runs of fusion_relay/continuation_host.py on small inputs.
use devin_fusion_via_codex.Common.{◌≡◌, refl, false, [], ◌∷◌, some, ok}
use devin_fusion_via_codex.Journal.Rows.{succeeded, fetch, finish}
use devin_fusion_via_codex.Ledger.Binding.{seal, consumer_for}
use devin_fusion_via_codex.Ledger.State.{Ledger, head_of, put_head, clashes, place}
use devin_fusion_via_codex.Ledger.Reserve.{admitted, reserve}
use devin_fusion_via_codex.Ledger.Commit.{commit, holds}
use devin_fusion_via_codex.Ledger.Accept.{offer_result, mark_offered}
use devin_fusion_via_codex.Ledger.State.{offered}
use devin_fusion_via_codex.Journal.Delivery.{offer, existing, id_taken, check_delivery_args}
use devin_fusion_via_codex.Ledger.Visible.{
  visible_items, show_items, show_item, content_of, parts_text, part_text,
}
use devin_fusion_via_codex.Common.Json.{get, all_objects}
use devin_fusion_via_codex.Ledger.Paid.Replayed.{replay_with}
use devin_fusion_via_codex.Ledger.Steps.{here}
use devin_fusion_via_codex.Ledger.Samples.{
  binding, codec, first_body, first_output, empty, first_reserved, first_reservation,
  first_committed, first_turn, reserve_first, commit_first, scoped, result_read,
}
use devin_fusion_via_codex.Host.{
  fits, answers, returned, execute, in_scope, run_reserved, checked, send, finish_commit,
}
use devin_fusion_via_codex.Host.Settled.{Holds, row_status, execute_settles}
use devin_fusion_via_codex.Host.Replayed.{execute_is_replayed}

abbrev first_offered : Ledger
first_offered = record first_committed {
  deliveries =
      record {
        scope = "e1";
        operation_id = "op1";
        consumer = "native-client:ses";
        delivery_id = "d1";
        acknowledged = false;
      }
      ∷ [];
  turns = record first_turn { state = offered } ∷ [];
}

first-Holds : Holds codec first_reservation first_reserved
unfolding Holds holds fetch
first-Holds = refl

offer_first : offer_result "d1" first_reservation binding first_committed ≡ ok ("d1", first_offered)
unfolding offer_result consumer_for offer existing id_taken check_delivery_args fetch mark_offered
offer_first = refl

execute_first :
    execute codec "n1" "n2" "d1" binding
      (admitted first_reservation)
      fits
      (answers first_output "wire")
      first_reserved
    ≡ (returned "wire" false, first_offered)
unfolding execute in_scope run_reserved checked send finish_commit
execute_first = rw (scoped, commit_first, offer_first) refl

execute_settles_example :
    row_status (
      fetch "e1" "op1"
        (execute codec "n1" "n2" "d1" binding
          (admitted first_reservation)
          fits
          (answers first_output "wire")
          first_reserved).1.operations)
    ≡ some succeeded
unfolding commit visible_items show_items show_item content_of parts_text part_text seal fetch holds
    head_of clashes place put_head finish get all_objects
execute_settles_example =
    execute_settles codec "n1" "n2" "d1" binding first_reservation fits
      (answers first_output "wire") first_reserved scoped first-Holds

execute_is_replayed_example :
    reserve codec binding "op1" first_body first_offered
    ≡ ok (replay_with "e1" "op1" 1 "wire", first_offered)
execute_is_replayed_example =
    execute_is_replayed codec "n1" "n2" "d1" binding "op1" first_body first_reservation fits
      (answers first_output "wire") "wire" false empty first_reserved first_reserved first_offered
      first_offered result_read reserve_first execute_first here
