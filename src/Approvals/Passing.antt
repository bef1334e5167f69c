-- ===== src/Approvals/Passing.antt =====
-- fusion_relay/approvals.py: `wait` and `authorize` of `ApprovalManager`, which let an approved action pass.
use devin_fusion_via_codex.Common.{
  ℕ, Bool, true, false, not, Option, none, some, leb, ◌==◌, if◌then◌else◌, Result, ok, err,
  raise_if, ◌>>◌,
}
use devin_fusion_via_codex.Approvals.Ticket.{
  ApprovalTicket, ApprovalError, manager_closed, ticket_invalid, ticket_not_approved,
  ticket_expired, ticket_stale, grant_gone, ticket_cancelled, ticket_revoked, same_ticket,
}
use devin_fusion_via_codex.Approvals.Manager.{
  Manager, Entry, Status, pending, allowed_once, allowed_task, revoked, revision, entry_of,
  terminal, has_live_grant, prune,
}

-- `_fail`
unfoldable pub fail {ℓ} :
    {A : Type ℓ} → ApprovalTicket → ApprovalError → Manager → Result ApprovalError A × Manager
fail t e m = (err e, terminal t.request_id m)

-- What `wait` and `authorize` ask of an approved ticket.
unfoldable pub check_approved :
    ApprovalTicket → Status → ℕ → Manager → Result ApprovalError (Unit {0})
check_approved t status t3 m = do
  raise_if (not (t.revision == revision t.scope.session t.scope.app m.revisions)) ticket_stale
  elim status [
    | allowed_task ↦ raise_if (not (has_live_grant t.scope t3 m.grants)) grant_gone
    | _ ↦ ok tt
  ]

unfoldable pub settle_check :
    ApprovalTicket
    → Status
    → Result ApprovalError (Unit {0})
    → Manager
    → Result ApprovalError Status × Manager
unfolding fail
settle_check t status (err e) m = fail t e m
settle_check t status (ok u) m = (ok status, m)

-- `fail` or `return status` ends the loop of `wait`.
unfoldable pub answer :
    Result ApprovalError Status × Manager → Option (Result ApprovalError Status) × Manager
answer (r, m) = (some r, m)

unfoldable pub wait_status :
    ApprovalTicket → ℕ → Status → Manager → Option (Result ApprovalError Status) × Manager
unfolding check_approved settle_check answer
wait_status t t3 pending m = (none, m)
wait_status t t3 revoked m = (some (err ticket_revoked), m)
wait_status t t3 allowed_once m =
    answer (settle_check t allowed_once (check_approved t allowed_once t3 m) m)
wait_status t t3 allowed_task m =
    answer (settle_check t allowed_task (check_approved t allowed_task t3 m) m)

-- One round of the loop in `wait`; `none` is another sleep. `cancelled` is what the callback says.
unfoldable pub wait_entry :
    ApprovalTicket
    → Bool
    → ℕ
    → ℕ
    → Option Entry
    → Manager
    → Option (Result ApprovalError Status) × Manager
unfolding wait_status
wait_entry t cancelled t2 t3 none m = (some (err ticket_invalid), m)
wait_entry t cancelled t2 t3 (some e) m =
    if not (same_ticket e.ticket t)
    then (some (err ticket_invalid), m)
    else if leb t.expires_at t2
    then (some (err ticket_expired), terminal t.request_id m)
    else if cancelled
    then (some (err ticket_cancelled), terminal t.request_id m)
    else wait_status t t3 e.status m

unfoldable pub wait_round :
    ApprovalTicket → Bool → ℕ → ℕ → Manager → Option (Result ApprovalError Status) × Manager
unfolding wait_entry
wait_round t cancelled t2 t3 m =
    if m.closed
    then (some (err manager_closed), terminal t.request_id m)
    else wait_entry t cancelled t2 t3 (entry_of t.request_id m.tickets) m

unfoldable pub is_allowed : Status → Bool
is_allowed allowed_once = true
is_allowed allowed_task = true
is_allowed _ = false

-- The checks fail the ticket; a consuming call burns it.
unfoldable pub authorize_checked :
    ApprovalTicket
    → Bool
    → Result ApprovalError (Unit {0})
    → Manager
    → Result ApprovalError (Unit {0}) × Manager
unfolding fail
authorize_checked t consume (err x) m = fail t x m
authorize_checked t consume (ok u) m = (ok tt, if consume then terminal t.request_id m else m)

unfoldable pub authorize_entry :
    ApprovalTicket
    → Bool
    → ℕ
    → ℕ
    → Option Entry
    → Manager
    → Result ApprovalError (Unit {0}) × Manager
unfolding check_approved is_allowed authorize_checked
authorize_entry t consume t2 t3 none m = (err ticket_invalid, m)
authorize_entry t consume t2 t3 (some e) m =
    if not (same_ticket e.ticket t)
    then (err ticket_invalid, m)
    else if not (is_allowed e.status)
    then (err ticket_not_approved, m)
    else if m.closed
    then (err manager_closed, m)
    else if leb t.expires_at t2
    then (err ticket_expired, terminal t.request_id m)
    else authorize_checked t consume (check_approved t e.status t3 m) m

unfoldable pub authorize :
    ApprovalTicket → Bool → ℕ → ℕ → ℕ → Manager → Result ApprovalError (Unit {0}) × Manager
unfolding authorize_entry
authorize t consume t1 t2 t3 m =
    let m' = prune t1 m in authorize_entry t consume t2 t3 (entry_of t.request_id m'.tickets) m'
