-- ===== src/Approvals/Operations.antt =====
-- fusion_relay/approvals.py: the methods of `ApprovalManager`. The lock is held through each of
-- them, so a call is one step; each reading of the clock is an argument, and so is the random id.
use devin_fusion_via_codex.Common.{
  ℕ, ◌+◌, min, max, Bool, true, false, not, ◌&&◌, ◌||◌, Option, none, some, List, [], ◌∷◌, length,
  String, leb, ◌==◌, if◌then◌else◌, Result, ok, err, raise_if, ◌>>=◌, ◌>>◌,
}
use devin_fusion_via_codex.Approvals.Ticket.{
  ApprovalScope, ApprovalTicket, ApprovalError, invalid_decisions, invalid_task, invalid_summary,
  manager_closed, capacity_reached, Decision, allow_once, allow_task, deny, check_scope, unbounded,
  max_ttl, min_ttl,
}
use devin_fusion_via_codex.Approvals.Manager.{
  Manager, Entry, Status, pending, allowed_once, allowed_task, revision, default_counter, entry_of,
  terminal, has_id, has_live_grant, put_grant, prune,
}

abbrev pub same_decision : Decision → Decision → Bool
same_decision allow_once allow_once = true
same_decision allow_task allow_task = true
same_decision deny deny = true
same_decision _ _ = false

unfoldable pub allows : Decision → List Decision → Bool
allows d [] = false
allows d (x ∷ xs) = same_decision x d || allows d xs

-- `allowed_decisions`, which must name `deny` if it is given.
unfoldable pub allowed_of : Option (List Decision) → Result ApprovalError (List Decision)
allowed_of none = ok (allow_once ∷ allow_task ∷ deny ∷ [])
allowed_of (some ds) = if allows deny ds then ok ds else err invalid_decisions

-- What the caller passes to `request`.
pub record Asked : Type 0 where
  pub scope : ApprovalScope
  pub task : String
  pub action_summary : String
  pub ttl : ℕ
  pub allowed_decisions : Option (List Decision)

-- The checks of `request` before the lock is taken.
unfoldable pub check_request : Asked → Result ApprovalError (List Decision)
unfolding allowed_of
check_request a = do
  check_scope a.scope
  allowed ← allowed_of a.allowed_decisions
  raise_if (unbounded 4096 a.task) invalid_task
  raise_if (unbounded 512 a.action_summary) invalid_summary
  ok allowed

unfoldable pub new_ticket : Asked → List Decision → String → ℕ → ℕ → ApprovalTicket
new_ticket a allowed id expires_at revision = record {
  request_id = id;
  scope = a.scope;
  task = a.task;
  action_summary = a.action_summary;
  expires_at = expires_at;
  revision = revision;
  allowed_decisions = allowed;
}

-- `self._tickets[id] = …` for an id of the dict, or a new one.
unfoldable pub put_entry : Entry → List Entry → List Entry
put_entry e [] = e ∷ []
put_entry e (f ∷ fs) = if has_id e.ticket.request_id f then e ∷ fs else f ∷ put_entry e fs

-- `request` under the lock, once `_prune_locked` has run.
unfoldable pub enqueue :
    Asked → List Decision → String → ℕ → ℕ → Manager → Result ApprovalError ApprovalTicket × Manager
unfolding new_ticket put_entry
enqueue a allowed id t2 t3 m =
    if leb m.max_pending (length m.tickets)
    then (err capacity_reached, m)
    else let counters = default_counter a.scope.session a.scope.app m.revisions in
      let ticket =
        new_ticket a allowed id (t3 + min max_ttl (max min_ttl a.ttl))
          (revision a.scope.session a.scope.app counters) in
      let status =
        if allows allow_task allowed && has_live_grant a.scope t2 m.grants
        then allowed_task
        else pending in
      (
        ok ticket,
        record m {
          revisions = counters;
          tickets = put_entry (record { ticket = ticket; status = status }) m.tickets;
        },
      )

unfoldable pub request :
    Asked → String → ℕ → ℕ → ℕ → Manager → Result ApprovalError ApprovalTicket × Manager
unfolding check_request enqueue
request a id t1 t2 t3 m = elim (check_request a) [
  | err e ↦ (err e, m)
  | ok allowed ↦
      if m.closed then (err manager_closed, m) else enqueue a allowed id t2 t3 (prune t1 m)
]

unfoldable pub set_status : String → Status → List Entry → List Entry
set_status id status [] = []
set_status id status (e ∷ es) =
    if has_id id e then record e { status = status } ∷ es else e ∷ set_status id status es

-- A decision that the ticket permits, at the current revision and in time.
unfoldable pub apply_decision : ApprovalTicket → Decision → ℕ → Manager → Manager
unfolding set_status
apply_decision t deny t3 m = terminal t.request_id m
apply_decision t allow_once t3 m = record m {
  tickets = set_status t.request_id allowed_once m.tickets;
}
apply_decision t allow_task t3 m = record m {
  tickets = set_status t.request_id allowed_task m.tickets;
  grants = put_grant t.scope t3 m.grants;
}

unfoldable pub is_pending : Status → Bool
is_pending pending = true
is_pending _ = false

unfoldable pub decide_entry : Option Entry → Decision → ℕ → ℕ → ℕ → Manager → Bool × Manager
unfolding is_pending apply_decision
decide_entry none d r t2 t3 m = (false, m)
decide_entry (some e) d r t2 t3 m =
    if not (is_pending e.status) || not (allows d e.ticket.allowed_decisions)
    then (false, m)
    else if not (r == revision e.ticket.scope.session e.ticket.scope.app m.revisions)
    then (false, m)
    else if leb e.ticket.expires_at t2
    then (false, terminal e.ticket.request_id m)
    else (true, apply_decision e.ticket d t3 m)

unfoldable pub decide : String → Decision → ℕ → ℕ → ℕ → ℕ → Manager → Bool × Manager
unfolding decide_entry
decide id d r t1 t2 t3 m = let m' = prune t1 m in decide_entry (entry_of id m'.tickets) d r t2 t3 m'
