-- ===== src/Approvals/Revoke.antt =====
-- fusion_relay/approvals.py: revocation, shutdown and the snapshots of `ApprovalManager`.
use devin_fusion_via_codex.Common.{
  ℕ, ◌+◌, ◌-◌, Bool, true, false, not, ◌&&◌, ◌||◌, Option, none, some, List, [], ◌∷◌, String,
  str_eq, ◌==◌, if◌then◌else◌, Result, ok, err,
}
use devin_fusion_via_codex.Approvals.Ticket.{
  ApprovalTicket, ApprovalError, scope_revoked, same_ticket, task_grant_ttl,
}
use devin_fusion_via_codex.Approvals.Manager.{
  Manager, Entry, pending, Grant, Counter, revision, set_counter, entry_of, terminal, prune,
}

unfoldable pub check_revision : ApprovalTicket → Manager → Result ApprovalError (Unit {0})
check_revision t m =
    if m.closed || not (t.revision == revision t.scope.session t.scope.app m.revisions)
    then err scope_revoked
    else ok tt

unfoldable pub request_cancelled : ApprovalTicket → Manager → Manager
request_cancelled t m = elim (entry_of t.request_id m.tickets) [
  | none ↦ m
  | some e ↦ if same_ticket e.ticket t then terminal t.request_id m else m
]

-- `k[0] == session and (app is None or k[1] == app)`
abbrev pub covers : String → Option String → String → String → Bool
covers session none s a = str_eq s session
covers session (some app) s a = str_eq s session && str_eq a app

abbrev pub Key : Type 0
Key = String × String

unfoldable pub has_key : String → String → List Key → Bool
has_key s a [] = false
has_key s a ((t, b) ∷ ks) = (str_eq t s && str_eq b a) || has_key s a ks

-- `targets.add(key)`
unfoldable pub add_key : String → String → List Key → List Key
unfolding has_key
add_key s a ks = if has_key s a ks then ks else (s, a) ∷ ks

unfoldable pub counter_targets : String → Option String → List Counter → List Key
unfolding add_key
counter_targets session app [] = []
counter_targets session app (c ∷ cs) =
    let rest = counter_targets session app cs in
    if covers session app c.session c.app then add_key c.session c.app rest else rest

unfoldable pub ticket_targets : String → Option String → List Entry → List Key → List Key
unfolding add_key
ticket_targets session app [] ks = ks
ticket_targets session app (e ∷ es) ks =
    let rest = ticket_targets session app es ks in
    let s = e.ticket.scope in
    if covers session app s.session s.app then add_key s.session s.app rest else rest

unfoldable pub grant_targets : String → Option String → List Grant → List Key → List Key
unfolding add_key
grant_targets session app [] ks = ks
grant_targets session app (g ∷ gs) ks =
    let rest = grant_targets session app gs ks in
    if covers session app g.session g.app then add_key g.session g.app rest else rest

unfoldable pub named_target : String → Option String → List Key → List Key
unfolding add_key
named_target session none ks = ks
named_target session (some app) ks = add_key session app ks

-- The set of (session, app) whose revision is raised; each stands once.
unfoldable pub targets : String → Option String → Manager → List Key
unfolding counter_targets ticket_targets grant_targets named_target
targets session app m = named_target session app (
    grant_targets session app m.grants
      (ticket_targets session app m.tickets (counter_targets session app m.revisions)))

-- `self._revisions[k] = self._revisions.get(k, 1) + 1`
unfoldable pub bump : List Key → List Counter → List Counter
bump [] cs = cs
bump ((s, a) ∷ ks) cs = bump ks (set_counter s a (revision s a cs + 1) cs)

unfoldable pub revoke_grants : String → Option String → List Grant → List Grant
revoke_grants session app [] = []
revoke_grants session app (g ∷ gs) =
    let rest = revoke_grants session app gs in
    if covers session app g.session g.app then rest else g ∷ rest

-- The loop over a copy of the tickets.
unfoldable pub revoke_tickets : String → Option String → List Entry → Manager → Manager
revoke_tickets session app [] m = m
revoke_tickets session app (e ∷ es) m =
    let s = e.ticket.scope in
    revoke_tickets session app es
      (if covers session app s.session s.app then terminal e.ticket.request_id m else m)

unfoldable pub revoke : String → Option String → Manager → Manager
unfolding targets bump revoke_grants revoke_tickets
revoke session app m = revoke_tickets session app m.tickets (record m {
  revisions = bump (targets session app m) m.revisions;
  grants = revoke_grants session app m.grants;
})

unfoldable pub close_tickets : List Entry → Manager → Manager
close_tickets [] m = m
close_tickets (e ∷ es) m = close_tickets es (terminal e.ticket.request_id m)

unfoldable pub close : Manager → Manager
unfolding close_tickets
close m = close_tickets m.tickets (record m { closed = true; grants = [] })

-- A line of `pending` with the time left, and one of `grants`.
pending_lines : ℕ → List Entry → List (ApprovalTicket × ℕ)
pending_lines now [] = []
pending_lines now (e ∷ es) =
    let rest = pending_lines now es in
    elim e.status [ pending ↦ (e.ticket, e.ticket.expires_at - now) ∷ rest | _ ↦ rest ]

unfoldable pub pending_snapshot : ℕ → ℕ → Manager → List (ApprovalTicket × ℕ) × Manager
unfolding pending_lines
pending_snapshot t1 t2 m = let m' = prune t1 m in (pending_lines t2 m'.tickets, m')

grant_lines : ℕ → List Grant → List (Grant × ℕ)
grant_lines now [] = []
grant_lines now (g ∷ gs) = (g, task_grant_ttl - (now - g.created_at)) ∷ grant_lines now gs

unfoldable pub grants_snapshot : ℕ → ℕ → Manager → List (Grant × ℕ) × Manager
unfolding grant_lines
grants_snapshot t1 t2 m = let m' = prune t1 m in (grant_lines t2 m'.grants, m')
