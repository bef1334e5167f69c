-- ===== src/Approvals/Capacity.antt =====
-- fusion_relay/approvals.py: the capacity of `ApprovalManager`.
use devin_fusion_via_codex.Common.{
  ℕ, suc, ◌≤◌, ◌<◌, Bool-cases, Result-cases, inl, inr, List, [], ◌∷◌, length, String, leb, arith,
}
use devin_fusion_via_codex.Approvals.Ticket.{Decision}
use devin_fusion_via_codex.Approvals.Manager.{Manager, Entry, prune}
use devin_fusion_via_codex.Approvals.Operations.{
  Asked, request, check_request, enqueue, new_ticket, put_entry,
}
use devin_fusion_via_codex.Approvals.Revoke.{revoke}
use devin_fusion_via_codex.Approvals.Keeps.{
  Fits, prune-Keeps, revoke_tickets-Keeps, decide-Keeps, wait_round-Keeps, authorize-Keeps,
  request_cancelled-Keeps,
}
use devin_fusion_via_codex.Approvals.Steps.{
  Step, request_step, decide_step, wait_step, authorize_step, cancelled_step, revoke_step,
  snapshot_step, close_step, Reach, here, next, close-Keeps,
}

length-put_entry : (e : Entry) (es : List Entry) → length (put_entry e es) ≤ suc (length es)
unfolding put_entry
length-put_entry e [] = omega arith
length-put_entry e (f ∷ es) = ground (arith, length-put_entry e es)

put_entry-room : (e : Entry) (es : List Entry) (n : ℕ) → length es < n → length (put_entry e es) ≤ n
put_entry-room e es n h = omega (arith, h, length-put_entry e es)

enqueue-Fits :
    (a : Asked) (allowed : List Decision) (id : String) (t2 t3 : ℕ) (m : Manager)
    → Fits m
    → Fits (enqueue a allowed id t2 t3 m).1
unfolding enqueue new_ticket
enqueue-Fits a allowed id t2 t3 m h = elim (Bool-cases (leb m.max_pending (length m.tickets))) [
  | inl e ↦ ground arith
  | inr e ↦ rw (e, enqueue) (put_entry-room _ m.tickets m.max_pending (ground arith))
]

request-Fits :
    (a : Asked) (id : String) (t1 t2 t3 : ℕ) (m : Manager)
    → Fits m
    → Fits (request a id t1 t2 t3 m).1
unfolding request
request-Fits a id t1 t2 t3 m h = elim (Result-cases (check_request a)) [
  | inl (allowed, e) ↦
      ground (arith, enqueue-Fits a allowed id t2 t3 (prune t1 m) ((prune-Keeps t1 m).fits h))
  | inr (x, e) ↦ ground arith
]

Step-Fits : {P : String → Type 0} {m n : Manager} → Step P m n → Fits m → Fits n
unfolding revoke
Step-Fits {m = m} (request_step a id t1 t2 t3 p e) h = rw (e) (request-Fits a id t1 t2 t3 m h)
Step-Fits {m = m} (decide_step id d r t1 t2 t3 e) h =
    rw (e) ((decide-Keeps id d r t1 t2 t3 m).fits h)
Step-Fits {m = m} (wait_step t c t2 t3 e) h = rw (e) ((wait_round-Keeps t c t2 t3 m).fits h)
Step-Fits {m = m} (authorize_step t c t1 t2 t3 e) h =
    rw (e) ((authorize-Keeps t c t1 t2 t3 m).fits h)
Step-Fits {m = m} (cancelled_step t e) h = rw (e) ((request_cancelled-Keeps t m).fits h)
Step-Fits {m = m} (revoke_step s a e) h = rw (e) ((revoke_tickets-Keeps s a m.tickets _).fits h)
Step-Fits {m = m} (snapshot_step t1 e) h = rw (e) ((prune-Keeps t1 m).fits h)
Step-Fits {m = m} (close_step e) h = rw (e) ((close-Keeps m).fits h)

-- From a manager whose table of tickets is within its capacity, the table never grows beyond it,
-- whatever calls are made.
pub Reach-Fits :
    {P : String → Type 0} (m n : Manager) → Fits m → Reach P m n → length n.tickets ≤ n.max_pending
Reach-Fits m n h here = h
Reach-Fits m n h (next r s) = Step-Fits s (Reach-Fits m _ h r)
