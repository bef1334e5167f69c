-- ===== src/Approvals/Steps.antt =====
-- Every call on an `ApprovalManager` of fusion_relay/approvals.py as a step.
use devin_fusion_via_codex.Common.{
  suc, ℕ, ◌≤◌, ◌≡◌, ap, Bool, true, Bool-cases, inl, inr, Option, none, List, [], ◌∷◌, String, ◌≢◌,
  eq_iff, leb, ok, Result-cases, length, leb, arith,
}
use devin_fusion_via_codex.Approvals.Ticket.{ApprovalTicket, Decision}
use devin_fusion_via_codex.Approvals.Manager.{Manager, Entry, entry_of, prune}
use devin_fusion_via_codex.Approvals.Operations.{
  Asked, check_request, new_ticket, enqueue, request, decide, put_entry,
}
use devin_fusion_via_codex.Approvals.Passing.{wait_round, authorize}
use devin_fusion_via_codex.Approvals.Revoke.{request_cancelled, revoke, bump, targets, close}
use devin_fusion_via_codex.Approvals.Revisions.{
  level, level-bump, level-default, level-default_same,
}
use devin_fusion_via_codex.Approvals.Keeps.{
  Keeps, prune-Keeps, revoke_tickets-Keeps, close_tickets-Keeps, decide-Keeps, wait_round-Keeps,
  authorize-Keeps, request_cancelled-Keeps,
}

-- The ids that `request` draws satisfy `P`.
pub data Step (P : String → Type 0) (m n : Manager) : Type 0 where
  request_step :
      (a : Asked) (id : String) (t1 t2 t3 : ℕ) → P id → n ≡ (request a id t1 t2 t3 m).1 → Step P m n
  decide_step :
      (id : String) (d : Decision) (r t1 t2 t3 : ℕ) → n ≡ (decide id d r t1 t2 t3 m).1 → Step P m n
  wait_step :
      (t : ApprovalTicket) (cancelled : Bool) (t2 t3 : ℕ)
      → n ≡ (wait_round t cancelled t2 t3 m).1
      → Step P m n
  authorize_step :
      (t : ApprovalTicket) (consume : Bool) (t1 t2 t3 : ℕ)
      → n ≡ (authorize t consume t1 t2 t3 m).1
      → Step P m n
  cancelled_step : (t : ApprovalTicket) → n ≡ request_cancelled t m → Step P m n
  revoke_step : (session : String) (app : Option String) → n ≡ revoke session app m → Step P m n
  snapshot_step : (t1 : ℕ) → n ≡ prune t1 m → Step P m n
  close_step : n ≡ close m → Step P m n

pub data Reach (P : String → Type 0) (m : Manager) : Manager → Type 0 where
  here : Reach P m m
  next : {n o : Manager} → Reach P m n → Step P n o → Reach P m o

-- A request

pub request-level :
    (a : Asked) (id : String) (t1 t2 t3 : ℕ) (m : Manager) (s b : String)
    → level s b m.revisions ≤ level s b (request a id t1 t2 t3 m).1.revisions
unfolding request enqueue
request-level a id t1 t2 t3 m s b = elim (Result-cases (check_request a)) [
  | inl (allowed, e) ↦ ground (
    arith,
    (prune-Keeps t1 m).counters,
    level-default s b a.scope.session a.scope.app m.revisions,
  )
  | inr (x, e) ↦ ground arith
]

enqueue-level_same :
    (a : Asked) (allowed : List Decision) (id : String) (t2 t3 : ℕ) (m : Manager)
    (t : ApprovalTicket)
    → (enqueue a allowed id t2 t3 m).0 ≡ ok t
    → level t.scope.session t.scope.app (enqueue a allowed id t2 t3 m).1.revisions ≡ suc t.revision
unfolding enqueue new_ticket
enqueue-level_same a allowed id t2 t3 m t h =
    elim (Bool-cases (leb m.max_pending (length m.tickets))) [
      | inl e ↦ ground arith
      | inr e ↦ ground (arith, level-default_same a.scope.session a.scope.app m.revisions)
    ]

pub request-level_same :
    (a : Asked) (id : String) (t1 t2 t3 : ℕ) (m : Manager) (t : ApprovalTicket)
    → (request a id t1 t2 t3 m).0 ≡ ok t
    → level t.scope.session t.scope.app (request a id t1 t2 t3 m).1.revisions ≡ suc t.revision
unfolding request
request-level_same a id t1 t2 t3 m t h = elim (Result-cases (check_request a)) [
  | inl (allowed, e) ↦ ground (arith, enqueue-level_same a allowed id t2 t3 (prune t1 m) t)
  | inr (x, e) ↦ ground arith
]

entry_of-put_entry :
    (x : String) (e : Entry) (es : List Entry)
    → e.ticket.request_id ≢ x
    → entry_of x es ≡ none
    → entry_of x (put_entry e es) ≡ none
unfolding entry_of put_entry
entry_of-put_entry x e [] d h = ground (arith, eq_iff e.ticket.request_id x)
entry_of-put_entry x e (f ∷ es) d h = ground (
  arith,
  entry_of-put_entry x e es d,
  eq_iff e.ticket.request_id x,
  eq_iff f.ticket.request_id x,
  eq_iff f.ticket.request_id e.ticket.request_id,
)

enqueue-absent :
    (a : Asked) (allowed : List Decision) (id : String) (t2 t3 : ℕ) (m : Manager) (x : String)
    → id ≢ x
    → entry_of x m.tickets ≡ none
    → entry_of x (enqueue a allowed id t2 t3 m).1.tickets ≡ none
unfolding enqueue new_ticket
enqueue-absent a allowed id t2 t3 m x d h =
    elim (Bool-cases (leb m.max_pending (length m.tickets))) [
      | inl e ↦ ground arith
      | inr e ↦ rw (e, enqueue) (entry_of-put_entry x _ m.tickets d h)
    ]

request-absent :
    (a : Asked) (id : String) (t1 t2 t3 : ℕ) (m : Manager) (x : String)
    → id ≢ x
    → entry_of x m.tickets ≡ none
    → entry_of x (request a id t1 t2 t3 m).1.tickets ≡ none
unfolding request
request-absent a id t1 t2 t3 m x d h = elim (Result-cases (check_request a)) [
  | inl (allowed, e) ↦
      ground
        (arith, (prune-Keeps t1 m).absent x h, enqueue-absent a allowed id t2 t3 (prune t1 m) x d)
  | inr (y, e) ↦ ground arith
]

-- A revocation

pub revoke-level :
    (session : String) (app : Option String) (m : Manager) (s a : String)
    → level s a (revoke session app m).revisions
      ≡ level s a (bump (targets session app m) m.revisions)
unfolding revoke
revoke-level session app m s a =
    ap (level s a) (revoke_tickets-Keeps session app m.tickets _).counters

pub close-Keeps : (m : Manager) → Keeps m (close m)
unfolding close
close-Keeps m =
    let k = close_tickets-Keeps m.tickets (record m { closed = true; grants = [] }) in
    record { counters = k.counters; absent = k.absent; fits = k.fits }

-- All calls

pub Step-level :
    {P : String → Type 0} {m n : Manager} (s a : String)
    → Step P m n
    → level s a m.revisions ≤ level s a n.revisions
Step-level {m = m} s a (request_step b id t1 t2 t3 p e) = rw (e) (request-level b id t1 t2 t3 m s a)
Step-level {m = m} s a (decide_step id d r t1 t2 t3 e) =
    ground (arith, (decide-Keeps id d r t1 t2 t3 m).counters)
Step-level {m = m} s a (wait_step t c t2 t3 e) =
    ground (arith, (wait_round-Keeps t c t2 t3 m).counters)
Step-level {m = m} s a (authorize_step t c t1 t2 t3 e) =
    ground (arith, (authorize-Keeps t c t1 t2 t3 m).counters)
Step-level {m = m} s a (cancelled_step t e) = ground (arith, (request_cancelled-Keeps t m).counters)
Step-level {m = m} s a (revoke_step b c e) =
    ground (arith, revoke-level b c m s a, level-bump s a (targets b c m) m.revisions)
Step-level {m = m} s a (snapshot_step t1 e) = ground (arith, (prune-Keeps t1 m).counters)
Step-level {m = m} s a (close_step e) = ground (arith, (close-Keeps m).counters)

pub Step-absent :
    {x : String} {m n : Manager}
    → Step (λ id. id ≢ x) m n
    → entry_of x m.tickets ≡ none
    → entry_of x n.tickets ≡ none
unfolding revoke
Step-absent {x} {m} (request_step b id t1 t2 t3 p e) h =
    rw (e) (request-absent b id t1 t2 t3 m x p h)
Step-absent {x} {m} (decide_step id d r t1 t2 t3 e) h =
    rw (e) ((decide-Keeps id d r t1 t2 t3 m).absent x h)
Step-absent {x} {m} (wait_step t c t2 t3 e) h = rw (e) ((wait_round-Keeps t c t2 t3 m).absent x h)
Step-absent {x} {m} (authorize_step t c t1 t2 t3 e) h =
    rw (e) ((authorize-Keeps t c t1 t2 t3 m).absent x h)
Step-absent {x} {m} (cancelled_step t e) h = rw (e) ((request_cancelled-Keeps t m).absent x h)
Step-absent {x} {m} (revoke_step b c e) h =
    rw (e) ((revoke_tickets-Keeps b c m.tickets _).absent x h)
Step-absent {x} {m} (snapshot_step t1 e) h = rw (e) ((prune-Keeps t1 m).absent x h)
Step-absent {x} {m} (close_step e) h = rw (e) ((close-Keeps m).absent x h)

pub Reach-level :
    {P : String → Type 0} {m n : Manager} (s a : String)
    → Reach P m n
    → level s a m.revisions ≤ level s a n.revisions
Reach-level s a here = ground arith
Reach-level {m = m} s a (next {n = n} r st) = ground (arith, Reach-level s a r, Step-level s a st)

pub Reach-absent :
    {x : String} {m n : Manager}
    → Reach (λ id. id ≢ x) m n
    → entry_of x m.tickets ≡ none
    → entry_of x n.tickets ≡ none
Reach-absent here h = h
Reach-absent (next r st) h = Step-absent st (Reach-absent r h)
