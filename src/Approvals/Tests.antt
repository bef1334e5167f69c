-- ===== src/Approvals/Tests.antt =====
-- Runs of fusion_relay/approvals.py on small inputs.
use devin_fusion_via_codex.Common.{
  ◌≤◌, length, ◌≡◌, ◌≢◌, ◌↔◌, refl, arith, true, false, none, List, [], ◌∷◌, ok, err,
}
use devin_fusion_via_codex.Approvals.Ticket.{
  ApprovalScope, ApprovalTicket, scope_revoked, check_scope, is_app, is_digest, allow_once,
  allow_task, deny,
}
use devin_fusion_via_codex.Approvals.Manager.{
  Manager, allowed_once, Counter, revision, default_counter, entry_of, prune, prune_tickets,
  has_live_grant,
}
use devin_fusion_via_codex.Approvals.Operations.{
  Asked, request, check_request, allowed_of, enqueue, new_ticket, put_entry, allows, decide,
  decide_entry, apply_decision, set_status, is_pending,
}
use devin_fusion_via_codex.Approvals.Passing.{authorize, is_allowed}
use devin_fusion_via_codex.Approvals.Revoke.{revoke, check_revision}
use devin_fusion_via_codex.Approvals.Steps.{here, next, request_step}
use devin_fusion_via_codex.Approvals.Capacity.{Reach-Fits}
use devin_fusion_via_codex.Approvals.Authorized.{Approved, authorize-iff-Approved}
use devin_fusion_via_codex.Approvals.Revoked.{revoke_is_final, consume_is_final}

abbrev scope : ApprovalScope
scope = record {
  principal = "user";
  session = "s1";
  operation_id = "op";
  app = "com.example";
  capability = "act";
  binding_revision = 1;
  action_digest = "0123456789abcdef0123456789abcdef0123456789abcdef0123456789abcdef";
}

abbrev asked : Asked
asked = record {
  scope = scope;
  task = "task";
  action_summary = "click";
  ttl = 5000;
  allowed_decisions = none;
}

abbrev start : Manager
start = record {
  max_pending = 2;
  tickets = [];
  grants = [];
  revisions = [];
  history = [];
  closed = false;
}

abbrev ticket : ApprovalTicket
ticket = record {
  request_id = "id1";
  scope = scope;
  task = "task";
  action_summary = "click";
  expires_at = 5010;
  revision = 1;
  allowed_decisions = allow_once ∷ allow_task ∷ deny ∷ [];
}

abbrev counters : List Counter
counters = record { session = "s1"; app = "com.example"; value = 1 } ∷ []

abbrev decided : Manager
decided = record start {
  tickets = record { ticket = ticket; status = allowed_once } ∷ [];
  revisions = counters;
}

asks : (request asked "id1" 10 10 10 start).0 ≡ ok ticket
unfolding request check_request allowed_of check_scope is_app is_digest enqueue new_ticket
    default_counter prune prune_tickets allows revision
asks = refl

decides :
    decide "id1" allow_once 1 20 20 20 (request asked "id1" 10 10 10 start).1 ≡ (true, decided)
unfolding request check_request allowed_of check_scope is_app is_digest enqueue new_ticket
    default_counter prune prune_tickets allows revision has_live_grant put_entry decide decide_entry
    is_pending apply_decision set_status entry_of
decides = refl

approves : Approved ticket 30 30 (prune 30 decided)
unfolding prune prune_tickets entry_of revision is_allowed
approves = record {
  status = allowed_once;
  listed = refl;
  allowed = refl;
  running = refl;
  in_time = omega arith;
  current = refl;
  granted = λ e. absurd (ground arith);
}

authorize-iff-Approved_example :
    ((authorize ticket true 30 30 30 decided).0 ≡ ok tt) ↔ Approved ticket 30 30 (prune 30 decided)
authorize-iff-Approved_example = authorize-iff-Approved ticket true 30 30 30 decided

revoke_is_final_example :
    (check_revision ticket (revoke "s1" none (request asked "id1" 10 10 10 start).1)
      ≡ err scope_revoked)
    × ((authorize ticket true 30 30 30 (revoke "s1" none (request asked "id1" 10 10 10 start).1)).0
        ≢ ok tt)
revoke_is_final_example =
    revoke_is_final {P = λ id. Unit {0}} {Q = λ id. Unit {0}} asked "id1" 10 10 10 start
      (request asked "id1" 10 10 10 start).1 _ ticket "s1" none true 30 30 30 asks here refl here

consume_is_final_example :
    (authorize ticket false 40 40 40 (authorize ticket true 30 30 30 decided).1).0 ≢ ok tt
consume_is_final_example =
    consume_is_final ticket 30 30 30 decided (authorize ticket true 30 30 30 decided).1 false 40 40
      40 ((authorize-iff-Approved ticket true 30 30 30 decided).1 approves) here

Reach-Fits_example :
    length (request asked "id1" 10 10 10 start).1.tickets
    ≤ (request asked "id1" 10 10 10 start).1.max_pending
Reach-Fits_example =
    Reach-Fits {P = λ id. Unit {0}} start (request asked "id1" 10 10 10 start).1 (omega arith)
      (next here (request_step asked "id1" 10 10 10 tt refl))
