-- ===== src/Approvals/Authorized.antt =====
-- fusion_relay/approvals.py: when `authorize` lets an action pass.
use devin_fusion_via_codex.Common.{
  ℕ, ◌<◌, ◌≡◌, ◌↔◌, ◌∙◌, refl, ap, Bool, true, false, Option, none, some, List, [], ◌∷◌, String,
  Result, ok, err, arith, decide_sound, decide_complete,
}
use devin_fusion_via_codex.Approvals.Ticket.{
  ApprovalTicket, ApprovalError, same_ticket, ticket-discrete,
}
use devin_fusion_via_codex.Approvals.Manager.{
  Manager, Entry, Status, allowed_task, revision, entry_of, without, terminal, has_live_grant,
  prune,
}
use devin_fusion_via_codex.Approvals.Passing.{
  authorize, authorize_entry, authorize_checked, check_approved, is_allowed, fail,
}

-- What the checks of a ticket's approval ask, the clock standing at `t2` and then at `t3`.
pub record Approved (t : ApprovalTicket) (t2 t3 : ℕ) (m : Manager) : Type 0 where
  pub status : Status
  pub listed : entry_of t.request_id m.tickets ≡ some (record { ticket = t; status = status })
  pub allowed : is_allowed status ≡ true
  pub running : m.closed ≡ false
  pub in_time : t2 < t.expires_at
  pub current : t.revision ≡ revision t.scope.session t.scope.app m.revisions
  pub granted : status ≡ allowed_task → has_live_grant t.scope t3 m.grants ≡ true

check_approved-current :
    (t : ApprovalTicket) (s : Status) (t3 : ℕ) (m : Manager)
    → check_approved t s t3 m ≡ ok tt
    → t.revision ≡ revision t.scope.session t.scope.app m.revisions
unfolding check_approved
check_approved-current t s t3 m h = ground arith

check_approved-granted :
    (t : ApprovalTicket) (s : Status) (t3 : ℕ) (m : Manager)
    → check_approved t s t3 m ≡ ok tt
    → s ≡ allowed_task
    → has_live_grant t.scope t3 m.grants ≡ true
unfolding check_approved
check_approved-granted t s t3 m h e = ground arith

same_ticket-eq : (t u : ApprovalTicket) → same_ticket t u ≡ true → t ≡ u
same_ticket-eq t u h = decide_sound (ticket-discrete t u) h

same_ticket_refl : (t : ApprovalTicket) → same_ticket t t ≡ true
same_ticket_refl t = decide_complete (ticket-discrete t t) refl

authorize_checked-ok :
    (t : ApprovalTicket) (consume : Bool) (r : Result ApprovalError (Unit {0})) (m : Manager)
    → (authorize_checked t consume r m).0 ≡ ok tt
    → r ≡ ok tt
unfolding authorize_checked fail
authorize_checked-ok t c (ok u) m h = refl
authorize_checked-ok t c (err x) m h = ground arith

-- Whatever passes went through every branch.
authorize_entry-passed :
    (t : ApprovalTicket) (consume : Bool) (t2 t3 : ℕ) (v : Entry) (m : Manager)
    → (authorize_entry t consume t2 t3 (some v) m).0 ≡ ok tt
    → (same_ticket v.ticket t ≡ true)
      × (is_allowed v.status ≡ true)
      × (m.closed ≡ false)
      × (t2 < t.expires_at)
      × (check_approved t v.status t3 m ≡ ok tt)
unfolding authorize_entry
authorize_entry-passed t c t2 t3 v m h =
    ground (arith, authorize_checked-ok t c (check_approved t v.status t3 m) m)

authorize_entry-Approved :
    (t : ApprovalTicket) (consume : Bool) (t2 t3 : ℕ) (o : Option Entry) (m : Manager)
    → entry_of t.request_id m.tickets ≡ o
    → (authorize_entry t consume t2 t3 o m).0 ≡ ok tt
    → Approved t t2 t3 m
unfolding authorize_entry
authorize_entry-Approved t c t2 t3 none m e h = absurd (ground arith)
authorize_entry-Approved t c t2 t3 (some v) m e h =
    let (same, allowed, running, in_time, checked) = authorize_entry-passed t c t2 t3 v m h in
    record {
      status = v.status;
      listed = e ∙ ap (λ u. some (record v { ticket = u })) (same_ticket-eq v.ticket t same);
      allowed = allowed;
      running = running;
      in_time = in_time;
      current = check_approved-current t v.status t3 m checked;
      granted = check_approved-granted t v.status t3 m checked;
    }

Approved-check :
    (t : ApprovalTicket) (t2 t3 : ℕ) (m : Manager) (a : Approved t t2 t3 m)
    → check_approved t a.status t3 m ≡ ok tt
unfolding check_approved
Approved-check t t2 t3 m a = ground (arith, a.current, a.granted)

Approved-authorize :
    (t : ApprovalTicket) (consume : Bool) (t2 t3 : ℕ) (m : Manager)
    → Approved t t2 t3 m
    → (authorize_entry t consume t2 t3 (entry_of t.request_id m.tickets) m).0 ≡ ok tt
unfolding authorize_entry authorize_checked
Approved-authorize t c t2 t3 m a =
    rw (a.listed, authorize_entry)
      (ground
        (arith, same_ticket_refl t, a.allowed, a.running, a.in_time, Approved-check t t2 t3 m a))

entry_of-without_same : (id : String) (es : List Entry) → entry_of id (without id es) ≡ none
unfolding entry_of without
entry_of-without_same id [] = refl
entry_of-without_same id (e ∷ es) = ground (arith, entry_of-without_same id es)

pub terminal-gone : (id : String) (m : Manager) → entry_of id (terminal id m).tickets ≡ none
unfolding terminal
terminal-gone id m = ground (arith, entry_of-without_same id m.tickets)

authorize_entry-consumed :
    (t : ApprovalTicket) (t2 t3 : ℕ) (o : Option Entry) (m : Manager)
    → (authorize_entry t true t2 t3 o m).0 ≡ ok tt
    → entry_of t.request_id (authorize_entry t true t2 t3 o m).1.tickets ≡ none
unfolding authorize_entry authorize_checked
authorize_entry-consumed t t2 t3 none m h = absurd (ground arith)
authorize_entry-consumed t t2 t3 (some v) m h =
    let (same, allowed, running, in_time, checked) = authorize_entry-passed t true t2 t3 v m h in
    ground (arith, terminal-gone t.request_id m)

-- A consuming call that passes takes the ticket from the table.
pub authorize-consumed :
    (t : ApprovalTicket) (t1 t2 t3 : ℕ) (m : Manager)
    → (authorize t true t1 t2 t3 m).0 ≡ ok tt
    → entry_of t.request_id (authorize t true t1 t2 t3 m).1.tickets ≡ none
unfolding authorize
authorize-consumed t t1 t2 t3 m h =
    authorize_entry-consumed t t2 t3 (entry_of t.request_id (prune t1 m).tickets) (prune t1 m) h

-- `authorize` passes exactly if the table, pruned at the call's start, lists that very ticket as
-- allowed, the manager is open, the ticket is in time and of its scope's current revision, and,
-- for a ticket allowed by a task grant, the grant is still live.
pub authorize-iff-Approved :
    (t : ApprovalTicket) (consume : Bool) (t1 t2 t3 : ℕ) (m : Manager)
    → ((authorize t consume t1 t2 t3 m).0 ≡ ok tt) ↔ Approved t t2 t3 (prune t1 m)
unfolding authorize
authorize-iff-Approved t c t1 t2 t3 m = (
  authorize_entry-Approved t c t2 t3 _ (prune t1 m) refl,
  Approved-authorize t c t2 t3 (prune t1 m),
)
