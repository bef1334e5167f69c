-- ===== src/Host/Replayed.antt =====
-- fusion_relay/continuation_host.py with fusion_relay/continuation.py: a wire that `execute` returned.
use devin_fusion_via_codex.Common.{
  ◌+◌, ◌≡◌, ◌≢◌, refl, sym, ap, ◌∙◌, Bool, true, false, not, List, String, str_eq, if_true,
  if_false, Bool-cases, Result, Result-cases, inl, inr, ok, err, arith,
}
use devin_fusion_via_codex.Common.Json.{Json, Object}
use devin_fusion_via_codex.Ledger.Binding.{
  ContinuationBinding, Codec, LedgerError, Payload, scope_of,
}
use devin_fusion_via_codex.Ledger.State.{Ledger}
use devin_fusion_via_codex.Ledger.Reserve.{Reservation, admitted, reserve}
use devin_fusion_via_codex.Ledger.Commit.{commit, abandon, preflight}
use devin_fusion_via_codex.Ledger.Accept.{offer_result}
use devin_fusion_via_codex.Ledger.Paid.Replayed.{ReadsBack, replay_with, commit_is_replayed}
use devin_fusion_via_codex.Ledger.Steps.{Reach, here, next, offer_step}
use devin_fusion_via_codex.Host.{
  Preflight, fits, exceeds, breaks, Invoked, answers, cancels, fails, interrupted, Executed,
  returned, raised, after_commit, after_excess, finish_commit, send, checked, run_reserved,
  in_scope, execute,
}

abbrev is_returned : Executed → Bool
is_returned (returned wire uncertain) = true
is_returned (raised e) = false

abbrev wire_or : String → Executed → String
wire_or w (returned wire uncertain) = wire
wire_or w (raised e) = w

append-Reach :
    {c : Codec} {P : String → Type 0} {m n o : Ledger}
    → Reach c P m n
    → Reach c P n o
    → Reach c P m o
append-Reach r here = r
append-Reach r (next {n = p} s step) = next (append-Reach r s) step

module _ (c : Codec) (nonce nonce2 id : String) (b : ContinuationBinding) (r : Reservation) where
  -- The commit, and the calls after it.
  record Commits (P : String → Type 0) (wire : String) (m q : Ledger) : Type 0 where
    pub output : List Json
    pub middle : Ledger
    pub unit : Unit {0}
    pub committed : commit c nonce nonce2 r output wire m ≡ ok (unit, middle)
    pub after : Reach c P middle q

  offered-Reach :
      (P : String → Type 0) (wire w : String) (uncertain : Bool) (m q : Ledger)
      → after_commit wire m (offer_result id r b m) ≡ (returned w uncertain, q)
      → (wire ≡ w) × Reach c P m q
  offered-Reach P wire w uncertain m q h = elim (Result-cases (offer_result id r b m)) [
    | inr (e, f) ↦
        let k = sym (ap (after_commit wire m) f) ∙ h in
        (
          ap (λ (x : Executed × Ledger). wire_or wire x.0) k,
          rw (← (ap (λ (x : Executed × Ledger). x.1) k)) here,
        )
    | inl (made, f) ↦
        let k = sym (ap (after_commit wire m) f) ∙ h in
        (
          ap (λ (x : Executed × Ledger). wire_or wire x.0) k,
          rw (← (ap (λ (x : Executed × Ledger). x.1) k)) (next here (offer_step id r b made.0 f)),
        )
  ]

  raised_not :
      {e : Executed} {m q : Ledger} {w : String} {uncertain : Bool}
      → is_returned e ≡ false
      → ◌≡◌ {A = Executed × Ledger} (e, m) (returned w uncertain, q)
      → true ≡ false
  raised_not f h = sym (ap (λ (x : Executed × Ledger). is_returned x.0) h) ∙ f

  finish-Commits :
      (P : String → Type 0) (output : List Json) (wire w : String) (uncertain : Bool) (m q : Ledger)
      (x : Result LedgerError (Unit {0} × Ledger))
      → commit c nonce nonce2 r output wire m ≡ x
      → finish_commit c nonce nonce2 id b r wire m x ≡ (returned w uncertain, q)
      → Commits P w m q
  unfolding finish_commit
  finish-Commits P output wire w uncertain m q (err e) f h =
      absurd (ground (arith, raised_not refl h))
  finish-Commits P output wire w uncertain m q (ok (u, n)) f h =
      let (same_wire, after) = offered-Reach P wire w uncertain n q h in
      record {
        output = output;
        middle = n;
        unit = u;
        committed = rw (← same_wire) f;
        after = after;
      }

  after_excess_raises :
      (m : Ledger) (x : Result LedgerError (Unit {0} × Ledger))
      → is_returned (after_excess m x).0 ≡ false
  after_excess_raises m (ok (u, n)) = refl
  after_excess_raises m (err e) = refl

  checked-Commits :
      (P : String → Type 0) (pre : Preflight) (invoked : Invoked) (w : String) (uncertain : Bool)
      (m q : Ledger)
      → checked c nonce nonce2 id b r pre invoked m ≡ (returned w uncertain, q)
      → Commits P w m q
  unfolding checked send
  checked-Commits P fits (answers output wire) w uncertain m q h =
      finish-Commits P output wire w uncertain m q _ refl h
  checked-Commits P fits cancels w uncertain m q h = absurd (ground (arith, raised_not refl h))
  checked-Commits P fits fails w uncertain m q h = absurd (ground (arith, raised_not refl h))
  checked-Commits P fits interrupted w uncertain m q h = absurd (ground (arith, raised_not refl h))
  checked-Commits P breaks invoked w uncertain m q h = absurd (ground (arith, raised_not refl h))
  checked-Commits P exceeds invoked w uncertain m q h =
      absurd (ground (arith, raised_not (after_excess_raises m (abandon c r preflight m)) h))

  execute-Commits :
      (P : String → Type 0) (pre : Preflight) (invoked : Invoked) (w : String) (uncertain : Bool)
      (m q : Ledger) (found : Result LedgerError String)
      → in_scope c nonce nonce2 id b found (admitted r) pre invoked m ≡ (returned w uncertain, q)
      → Commits P w m q
  unfolding in_scope run_reserved
  execute-Commits P pre invoked w uncertain m q (err e) h =
      absurd (ground (arith, raised_not refl h))
  execute-Commits P pre invoked w uncertain m q (ok scope) h =
      elim (Bool-cases (not (str_eq scope r.scope))) [
        | inl e ↦ absurd (ground (arith, raised_not refl (sym (if_true _ _ e) ∙ h)))
        | inr e ↦ checked-Commits P pre invoked w uncertain m q (sym (if_false _ _ e) ∙ h)
      ]

module _ (c : Codec) (nonce nonce2 id : String) (b : ContinuationBinding) (o : String)
    (body : Object) (r : Reservation) where
  -- Where `reserve` admitted an operation and `execute` of the reservation, later, returned a wire,
  -- then after any calls that do not retire the scope, the same `reserve` changes nothing and replays
  -- that wire, if the result that was sealed is read back.
  pub execute_is_replayed :
      (pre : Preflight) (invoked : Invoked) (wire : String) (uncertain : Bool) (m n p q z : Ledger)
      → ReadsBack c nonce2 r.scope o (Payload.committed wire (r.revision + 1))
      → reserve c b o body m ≡ ok (admitted r, n)
      → execute c nonce nonce2 id b (admitted r) pre invoked p ≡ (returned wire uncertain, q)
      → Reach c (λ s. s ≢ r.scope) q z
      → reserve c b o body z ≡ ok (replay_with r.scope o (r.revision + 1) wire, z)
  unfolding execute
  execute_is_replayed pre invoked wire uncertain m n p q z opens h k reach =
      let d =
        execute-Commits c nonce nonce2 id b r (λ s. s ≢ r.scope) pre invoked wire uncertain p q
          (scope_of c b) k in
      commit_is_replayed c nonce2 b o body m n p d.middle z r nonce wire d.output d.unit opens h
        d.committed (append-Reach d.after reach)
