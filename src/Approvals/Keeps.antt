-- ===== src/Approvals/Keeps.antt =====
-- fusion_relay/approvals.py: what every call but `request` and `revoke` leaves as it is.
use devin_fusion_via_codex.Common.{
  ℕ, ◌≤◌, length, ◌≡◌, ◌∙◌, refl, Bool, true, false, Option-cases, inl, inr, Option, none, some,
  List, [], ◌∷◌, String, leb, if◌then◌else◌, Result, ok, err, arith,
}
use devin_fusion_via_codex.Approvals.Ticket.{
  ApprovalError, ticket_invalid, ticket_expired, ticket_cancelled, manager_closed,
  ticket_not_approved, ApprovalTicket, Decision, allow_once, allow_task, deny,
}
use devin_fusion_via_codex.Approvals.Manager.{
  Manager, Entry, Status, pending, allowed_once, allowed_task, revoked, entry_of, without, terminal,
  prune, prune_tickets,
}
use devin_fusion_via_codex.Approvals.Operations.{decide, decide_entry, apply_decision, set_status}
use devin_fusion_via_codex.Approvals.Passing.{
  wait_round, wait_entry, wait_status, answer, authorize_checked, settle_check, fail,
  check_approved, authorize, authorize_entry,
}
use devin_fusion_via_codex.Approvals.Revoke.{request_cancelled, revoke_tickets, close_tickets}

-- The table is no longer than the capacity.
abbrev pub Fits : Manager → Type 0
Fits m = length m.tickets ≤ m.max_pending

-- What leaves the counters alone and puts no new ticket into the table.
pub record Keeps (m n : Manager) : Type 0 where
  pub counters : n.revisions ≡ m.revisions
  pub absent : (x : String) → entry_of x m.tickets ≡ none → entry_of x n.tickets ≡ none
  pub fits : Fits m → Fits n

Keeps-refl : (m : Manager) → Keeps m m
Keeps-refl m = record { counters = refl; absent = λ x h. h; fits = λ h. h }

Keeps-trans : {m n o : Manager} → Keeps m n → Keeps n o → Keeps m o
Keeps-trans {m} {n} {o} k l = record {
  counters = l.counters ∙ k.counters;
  absent = λ x h. l.absent x (k.absent x h);
  fits = λ h. l.fits (k.fits h);
}

-- The same of a call that answers too.
pub record Kept {A : Type 0} (m : Manager) (r : A × Manager) : Type 0 where
  pub kept : Keeps m r.1

same_kept : {A : Type 0} (a : A) (m : Manager) → Kept m (a, m)
same_kept a m = record { kept = Keeps-refl m }

-- A property of both branches is one of the `if`.
either {ℓ ℓ'} :
    {A : Type ℓ} (P : A → Type ℓ') (b : Bool) {x y : A} → P x → P y → P (if b then x else y)
either P true p q = p
either P false p q = q

length-without : (id : String) (es : List Entry) → length (without id es) ≤ length es
unfolding without
length-without id [] = omega arith
length-without id (e ∷ es) = ground (arith, length-without id es)

length-set_status :
    (id : String) (status : Status) (es : List Entry) → length (set_status id status es) ≡ length es
unfolding set_status
length-set_status id status [] = refl
length-set_status id status (e ∷ es) = ground (arith, length-set_status id status es)

entry_of-without :
    (x id : String) (es : List Entry) → entry_of x es ≡ none → entry_of x (without id es) ≡ none
unfolding entry_of without
entry_of-without x id [] h = refl
entry_of-without x id (e ∷ es) h = ground (arith, entry_of-without x id es)

terminal-Keeps : (id : String) (m : Manager) → Keeps m (terminal id m)
unfolding terminal
terminal-Keeps id m = elim (Option-cases (entry_of id m.tickets)) [
  | inl e ↦ rw (e, terminal) (Keeps-refl m)
  | inr (v, e) ↦
      rw (e, terminal)
        (record {
          counters = refl;
          absent = λ x h. entry_of-without x id m.tickets h;
          fits = λ h. omega (arith, h, length-without id m.tickets);
        })
]

prune_tickets-Keeps : (now : ℕ) (es : List Entry) (m : Manager) → Keeps m (prune_tickets now es m)
unfolding prune_tickets
prune_tickets-Keeps now [] m = Keeps-refl m
prune_tickets-Keeps now (e ∷ es) m =
    Keeps-trans
      (either (Keeps m) (leb e.ticket.expires_at now) (terminal-Keeps e.ticket.request_id m)
        (Keeps-refl m))
      (prune_tickets-Keeps now es _)

pub prune-Keeps : (now : ℕ) (m : Manager) → Keeps m (prune now m)
unfolding prune
prune-Keeps now m =
    let k = prune_tickets-Keeps now m.tickets m in
    record { counters = k.counters; absent = k.absent; fits = k.fits }

pub revoke_tickets-Keeps :
    (s : String) (a : Option String) (es : List Entry) (m : Manager)
    → Keeps m (revoke_tickets s a es m)
unfolding revoke_tickets
revoke_tickets-Keeps s a [] m = Keeps-refl m
revoke_tickets-Keeps s a (e ∷ es) m =
    Keeps-trans (either (Keeps m) _ (terminal-Keeps e.ticket.request_id m) (Keeps-refl m))
      (revoke_tickets-Keeps s a es _)

pub close_tickets-Keeps : (es : List Entry) (m : Manager) → Keeps m (close_tickets es m)
unfolding close_tickets
close_tickets-Keeps [] m = Keeps-refl m
close_tickets-Keeps (e ∷ es) m =
    Keeps-trans (terminal-Keeps e.ticket.request_id m)
      (close_tickets-Keeps es (terminal e.ticket.request_id m))

entry_of-set_status :
    (x id : String) (status : Status) (es : List Entry)
    → entry_of x es ≡ none
    → entry_of x (set_status id status es) ≡ none
unfolding entry_of set_status
entry_of-set_status x id status [] h = refl
entry_of-set_status x id status (e ∷ es) h = ground (arith, entry_of-set_status x id status es)

apply_decision-Keeps :
    (t : ApprovalTicket) (d : Decision) (t3 : ℕ) (m : Manager) → Keeps m (apply_decision t d t3 m)
unfolding apply_decision
apply_decision-Keeps t deny t3 m = terminal-Keeps t.request_id m
apply_decision-Keeps t allow_once t3 m = record {
  counters = refl;
  absent = λ x h. entry_of-set_status x t.request_id allowed_once m.tickets h;
  fits = λ h. omega (arith, h, length-set_status t.request_id allowed_once m.tickets);
}
apply_decision-Keeps t allow_task t3 m = record {
  counters = refl;
  absent = λ x h. entry_of-set_status x t.request_id allowed_task m.tickets h;
  fits = λ h. omega (arith, h, length-set_status t.request_id allowed_task m.tickets);
}

decided : {A : Type 0} (a : A) {m n : Manager} → Keeps m n → Kept m (a, n)
decided a k = record { kept = k }

retired : {A : Type 0} (a : A) (id : String) (m : Manager) → Kept m (a, terminal id m)
retired a id m = record { kept = terminal-Keeps id m }

decide_entry-Kept :
    (o : Option Entry) (d : Decision) (r t2 t3 : ℕ) (m : Manager)
    → Kept m (decide_entry o d r t2 t3 m)
unfolding decide_entry
decide_entry-Kept none d r t2 t3 m = same_kept false m
decide_entry-Kept (some e) d r t2 t3 m = ground (
  arith,
  same_kept false m,
  retired false e.ticket.request_id m,
  decided true (apply_decision-Keeps e.ticket d t3 m),
)

pub decide-Keeps :
    (id : String) (d : Decision) (r t1 t2 t3 : ℕ) (m : Manager)
    → Keeps m (decide id d r t1 t2 t3 m).1
unfolding decide
decide-Keeps id d r t1 t2 t3 m =
    Keeps-trans (prune-Keeps t1 m)
      (decide_entry-Kept (entry_of id (prune t1 m).tickets) d r t2 t3 (prune t1 m)).kept

settle_check-Kept :
    (t : ApprovalTicket) (s : Status) (r : Result ApprovalError (Unit {0})) (m : Manager)
    → Kept m (settle_check t s r m)
unfolding settle_check fail
settle_check-Kept t s (ok u) m = same_kept _ m
settle_check-Kept t s (err e) m = retired _ t.request_id m

answer-Kept :
    (m : Manager) (r : Result ApprovalError Status × Manager) → Kept m r → Kept m (answer r)
unfolding answer
answer-Kept m (r, n) k = record { kept = k.kept }

wait_status-Kept :
    (t : ApprovalTicket) (t3 : ℕ) (s : Status) (m : Manager) → Kept m (wait_status t t3 s m)
unfolding wait_status
wait_status-Kept t t3 pending m = same_kept _ m
wait_status-Kept t t3 revoked m = same_kept _ m
wait_status-Kept t t3 allowed_once m =
    answer-Kept m _ (settle_check-Kept t allowed_once (check_approved t allowed_once t3 m) m)
wait_status-Kept t t3 allowed_task m =
    answer-Kept m _ (settle_check-Kept t allowed_task (check_approved t allowed_task t3 m) m)

wait_entry-Kept :
    (t : ApprovalTicket) (cancelled : Bool) (t2 t3 : ℕ) (o : Option Entry) (m : Manager)
    → Kept m (wait_entry t cancelled t2 t3 o m)
unfolding wait_entry
wait_entry-Kept t c t2 t3 none m = same_kept _ m
wait_entry-Kept t c t2 t3 (some e) m = ground (
  arith,
  same_kept {A = Option (Result ApprovalError Status)} (some (err ticket_invalid)) m,
  retired {A = Option (Result ApprovalError Status)} (some (err ticket_expired)) t.request_id m,
  retired {A = Option (Result ApprovalError Status)} (some (err ticket_cancelled)) t.request_id m,
  wait_status-Kept t t3 e.status m,
)

pub wait_round-Keeps :
    (t : ApprovalTicket) (cancelled : Bool) (t2 t3 : ℕ) (m : Manager)
    → Keeps m (wait_round t cancelled t2 t3 m).1
unfolding wait_round
wait_round-Keeps t c t2 t3 m =
    (either (Kept m) m.closed (retired (some (err manager_closed)) t.request_id m)
      (wait_entry-Kept t c t2 t3 (entry_of t.request_id m.tickets) m)).kept

authorize_checked-Kept :
    (t : ApprovalTicket) (consume : Bool) (r : Result ApprovalError (Unit {0})) (m : Manager)
    → Kept m (authorize_checked t consume r m)
unfolding authorize_checked fail
authorize_checked-Kept t true (ok u) m = retired _ t.request_id m
authorize_checked-Kept t false (ok u) m = same_kept _ m
authorize_checked-Kept t c (err x) m = retired _ t.request_id m

authorize_entry-Kept :
    (t : ApprovalTicket) (consume : Bool) (t2 t3 : ℕ) (o : Option Entry) (m : Manager)
    → Kept m (authorize_entry t consume t2 t3 o m)
unfolding authorize_entry
authorize_entry-Kept t c t2 t3 none m = same_kept _ m
authorize_entry-Kept t c t2 t3 (some e) m = ground (
  arith,
  same_kept {A = Result ApprovalError (Unit {0})} (err ticket_invalid) m,
  same_kept {A = Result ApprovalError (Unit {0})} (err ticket_not_approved) m,
  same_kept {A = Result ApprovalError (Unit {0})} (err manager_closed) m,
  retired {A = Result ApprovalError (Unit {0})} (err ticket_expired) t.request_id m,
  authorize_checked-Kept t c (check_approved t e.status t3 m) m,
)

pub authorize-Keeps :
    (t : ApprovalTicket) (consume : Bool) (t1 t2 t3 : ℕ) (m : Manager)
    → Keeps m (authorize t consume t1 t2 t3 m).1
unfolding authorize
authorize-Keeps t c t1 t2 t3 m =
    Keeps-trans (prune-Keeps t1 m)
      (authorize_entry-Kept t c t2 t3 (entry_of t.request_id (prune t1 m).tickets)
        (prune t1 m)).kept

pub request_cancelled-Keeps : (t : ApprovalTicket) (m : Manager) → Keeps m (request_cancelled t m)
unfolding request_cancelled
request_cancelled-Keeps t m = ground (arith, terminal-Keeps t.request_id m, Keeps-refl m)
