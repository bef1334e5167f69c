-- ===== src/Journal/Tests.antt =====
-- Runs of fusion_relay/operations.py, and the theorems at concrete inputs.
use devin_fusion_via_codex.Common.{◌≡◌, ◌≤◌, refl, true, false, some, [], ◌∷◌, String, ok, ◌>>=◌}
use devin_fusion_via_codex.Journal.Rows.{Operation, succeeded, fetch}
use devin_fusion_via_codex.Journal.Run.{
  ToolCall, Parsed, object, raised, returned, Checks, Ran, run, run_accepted,
}
use devin_fusion_via_codex.Journal.Run.Replay.{run_again, repeated}
use devin_fusion_via_codex.Journal.Run.Once.{
  World, fresh, Reach, count, after_run, called_once, run_accepted-Reach,
}
use devin_fusion_via_codex.Journal.Delivery.{
  Delivery, Offered, existing, id_taken, offer, acknowledge, pending_deliveries, acknowledged_of,
}
use devin_fusion_via_codex.Journal.Delivery.Laws.{
  offer_again, pending_deliveries-acknowledge, without, known,
}

abbrev loads : String → Parsed
loads text = object

abbrev fingerprint_of : String → String → String
fingerprint_of name arguments = name

abbrev passing : Checks
passing = record { before_reservation = true; before_dispatch = true }

abbrev tool : ToolCall
tool = record { call_id = some "c1"; name = some "screenshot"; arguments = some "{}" }

abbrev first_run : Ran
first_run = run loads fingerprint_of "s" tool passing raised []

first_run_executed : first_run.executed ≡ true
unfolding run fetch
first_run_executed = refl

run_again_example :
    run loads fingerprint_of "s" tool passing (returned "x") first_run.rows
    ≡ record { result = repeated first_run.result; rows = first_run.rows; executed = false }
run_again_example =
    run_again loads fingerprint_of "s" tool passing raised (returned "x") [] first_run_executed

abbrev once : World
once = after_run fresh ("s", "c1") (run_accepted "s" "c1" "f" passing raised [])

once_reached : Reach fresh once
once_reached = run_accepted-Reach fresh "s" "c1" "f" passing raised

called_once_example : count "s" "c1" once.calls ≤ 1
called_once_example = called_once "s" "c1" once_reached

abbrev done : Operation
done = record {
  scope = "s";
  operation_id = "c1";
  fingerprint = "f";
  status = succeeded;
  result = some "x";
}

abbrev handed : Delivery
handed = record {
  scope = "s";
  operation_id = "c1";
  consumer = "ui";
  delivery_id = "d1";
  acknowledged = false;
}

abbrev answer : Offered
answer = record { delivery_id = "d1"; operation_id = "c1"; status = succeeded; result = some "x" }

offered_once : offer "s" "c1" "ui" "d1" (done ∷ []) [] ≡ ok (answer, handed ∷ [])
unfolding offer fetch existing
offered_once = refl

offer_again_example : offer "s" "c1" "ui" "d2" (done ∷ []) (handed ∷ []) ≡ ok (answer, handed ∷ [])
offer_again_example =
    offer_again "s" "c1" "ui" "d1" "d2" (done ∷ []) [] answer (handed ∷ []) offered_once

acknowledged_once :
    acknowledge "s" "ui" "d1" (handed ∷ []) ≡ ok (true, record handed { acknowledged = true } ∷ [])
unfolding acknowledge
acknowledged_once = refl

pending_deliveries-acknowledge_example :
    (pending_deliveries "s" "ui" (done ∷ []) (record handed { acknowledged = true } ∷ [])
      ≡ (do l ← pending_deliveries "s" "ui" (done ∷ []) (handed ∷ []); ok (without "d1" l)))
    × (true ≡ known (acknowledged_of "s" "ui" "d1" (handed ∷ [])))
pending_deliveries-acknowledge_example =
    pending_deliveries-acknowledge "s" "ui" "d1" (done ∷ []) (handed ∷ []) true
      (record handed { acknowledged = true } ∷ []) (unfold id_taken in (refl, tt)) acknowledged_once
