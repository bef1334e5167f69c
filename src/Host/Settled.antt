-- ===== src/Host/Settled.antt =====
-- fusion_relay/continuation_host.py: how `execute` leaves the operation's row.
use devin_fusion_via_codex.Common.{
  ◌≡◌, refl, ap, ◌∙◌, Bool, true, false, not, Option, none, some, List, String, str_eq, eq_iff,
  if_false, Result, Result-cases, inl, inr, ok, err, arith,
}
use devin_fusion_via_codex.Common.Json.{Json}
use devin_fusion_via_codex.Journal.Rows.{
  Status, executing, succeeded, failed, cancelled, outcome_unknown, admission_rejected,
  preflight_rejected, provider_outcome_unknown, cancel_unconfirmed, Operation, fetch, finish,
  fetch-finish,
}
use devin_fusion_via_codex.Journal.Delivery.{offer}
use devin_fusion_via_codex.Ledger.Binding.{
  ContinuationBinding, Codec, LedgerError, scope_of, consumer_for,
}
use devin_fusion_via_codex.Ledger.State.{Ledger, is_executing}
use devin_fusion_via_codex.Ledger.Reserve.{Reservation, admitted}
use devin_fusion_via_codex.Ledger.Commit.{
  holds, commit, abandon, mark_cancel, mark_outcome_unknown, settle_executing,
}
use devin_fusion_via_codex.Ledger.Accept.{lift, offer_result}
use devin_fusion_via_codex.Ledger.Paid.{commit-Stored}
use devin_fusion_via_codex.Host.{
  Preflight, fits, exceeds, breaks, Invoked, answers, cancels, fails, interrupted, tried,
  after_commit, finish_commit, send, checked, run_reserved, in_scope, execute,
}

abbrev pub row_status : Option Operation → Option Status
row_status none = none
row_status (some row) = some row.status

abbrev is_ok : {A : Type 0} → Result LedgerError A → Bool
is_ok (ok a) = true
is_ok (err e) = false

-- What the row is to become; `committed` tells whether `commit` succeeds.
abbrev pub status_after : Preflight → Invoked → Bool → Status
status_after exceeds invoked committed = preflight_rejected
status_after breaks invoked committed = executing
status_after fits (answers output wire) true = succeeded
status_after fits (answers output wire) false = provider_outcome_unknown
status_after fits cancels committed = cancel_unconfirmed
status_after fits fails committed = provider_outcome_unknown
status_after fits interrupted committed = executing

executing_only : (status : Status) → is_executing status ≡ true → status ≡ executing
executing_only executing h = refl
executing_only succeeded h = absurd (ground arith)
executing_only failed h = absurd (ground arith)
executing_only cancelled h = absurd (ground arith)
executing_only outcome_unknown h = absurd (ground arith)
executing_only preflight_rejected h = absurd (ground arith)
executing_only admission_rejected h = absurd (ground arith)
executing_only provider_outcome_unknown h = absurd (ground arith)
executing_only cancel_unconfirmed h = absurd (ground arith)

module _ (c : Codec) (r : Reservation) (m : Ledger) where
  -- The row is being executed with the reservation's fingerprint.
  unfoldable pub Holds : Type 0
  Holds = holds (c.body_digest r.native_body) (fetch r.scope r.operation_id m.operations) ≡ true

  holds-executing :
      (found : Option Operation)
      → holds (c.body_digest r.native_body) found ≡ true
      → row_status found ≡ some executing
  unfolding holds
  holds-executing none h = absurd (ground arith)
  holds-executing (some row) h = ap some (executing_only row.status (ground arith))

  settle-status :
      (status : Status)
      → Holds
      → settle_executing c r status m
        ≡ ok (tt, record m { operations = finish r.scope r.operation_id status none m.operations })
  unfolding settle_executing Holds
  settle-status status h = rw (h) refl

  finish-status :
      (status : Status) (found : Option Operation)
      → fetch r.scope r.operation_id m.operations ≡ found
      → holds (c.body_digest r.native_body) found ≡ true
      → row_status
          (fetch r.scope r.operation_id (finish r.scope r.operation_id status none m.operations))
        ≡ some status
  unfolding holds
  finish-status status none e h = absurd (ground arith)
  finish-status status (some row) e h = ground (
    arith,
    fetch-finish r.scope r.operation_id r.scope r.operation_id status none m.operations,
    eq_iff r.scope r.scope,
    eq_iff r.operation_id r.operation_id,
  )

  settled-status :
      (status : Status)
      → Holds
      → row_status
          (fetch r.scope r.operation_id (tried m (settle_executing c r status m)).operations)
        ≡ some status
  unfolding Holds
  settled-status status h = rw (settle-status status h) (finish-status status _ refl h)

module _ (c : Codec) (nonce nonce2 id : String) (b : ContinuationBinding) (r : Reservation) where
  offer_result-operations :
      (wire : String) (m : Ledger)
      → (after_commit wire m (offer_result id r b m)).1.operations ≡ m.operations
  unfolding offer_result
  offer_result-operations wire m = elim (Result-cases (consumer_for b)) [
    | inr (e, f) ↦ rw (f) refl
    | inl (consumer, f) ↦
        elim (Result-cases
          (lift (offer r.scope r.operation_id consumer id m.operations m.deliveries))) [
            | inr (e, g) ↦ rw (f, g) refl
            | inl (made, g) ↦ rw (f, g) refl
          ]
  ]

  -- Whether `commit` succeeds.
  abbrev pub commits : Invoked → Ledger → Bool
  commits (answers output wire) m = is_ok (commit c nonce nonce2 r output wire m)
  commits cancels m = false
  commits fails m = false
  commits interrupted m = false

  commit-status :
      (output : List Json) (wire : String) (m n : Ledger) (u : Unit {0})
      → commit c nonce nonce2 r output wire m ≡ ok (u, n)
      → row_status (fetch r.scope r.operation_id n.operations) ≡ some succeeded
  commit-status output wire m n u h =
      let d = commit-Stored c nonce nonce2 r output wire m n u h in
      ap row_status d.succeeded.found ∙ ap some d.succeeded.status

  send-status :
      (invoked : Invoked) (m : Ledger)
      → Holds c r m
      → row_status
          (fetch r.scope r.operation_id (send c nonce nonce2 id b r invoked m).1.operations)
        ≡ some (status_after fits invoked (commits invoked m))
  unfolding send finish_commit mark_cancel mark_outcome_unknown Holds
  send-status cancels m h = settled-status c r m cancel_unconfirmed h
  send-status fails m h = settled-status c r m provider_outcome_unknown h
  send-status interrupted m h = holds-executing c r m (fetch r.scope r.operation_id m.operations) h
  send-status (answers output wire) m h =
      elim (Result-cases (commit c nonce nonce2 r output wire m)) [
        | inr (e, f) ↦ rw (f) (settled-status c r m provider_outcome_unknown h)
        | inl (made, f) ↦ rw (f) (
            ap (λ rows. row_status (fetch r.scope r.operation_id rows))
              (offer_result-operations wire made.1)
            ∙ commit-status output wire m made.1 made.0 f)
      ]

  checked-status :
      (pre : Preflight) (invoked : Invoked) (m : Ledger)
      → Holds c r m
      → row_status
          (fetch r.scope r.operation_id (checked c nonce nonce2 id b r pre invoked m).1.operations)
        ≡ some (status_after pre invoked (commits invoked m))
  unfolding checked abandon Holds
  checked-status fits invoked m h = send-status invoked m h
  checked-status breaks invoked m h =
      holds-executing c r m (fetch r.scope r.operation_id m.operations) h
  checked-status exceeds invoked m h =
      rw (settle-status c r m preflight_rejected h)
        (finish-status c r m preflight_rejected _ refl h)

  -- While the row is being executed with the reservation's fingerprint, `execute` of the reservation
  -- under the binding of its scope leaves the row rejected where the preflight exceeds the budget,
  -- succeeded where the commit of the answer succeeds, unconfirmed where the request was cancelled, and
  -- of unknown outcome otherwise, except that it stays being executed where the preflight raises another
  -- exception or the call is interrupted by one that is not an `Exception`.
  pub execute_settles :
      (pre : Preflight) (invoked : Invoked) (m : Ledger)
      → scope_of c b ≡ ok r.scope
      → Holds c r m
      → row_status (
          fetch r.scope r.operation_id
            (execute c nonce nonce2 id b (admitted r) pre invoked m).1.operations)
        ≡ some (status_after pre invoked (commits invoked m))
  unfolding execute in_scope run_reserved
  execute_settles pre invoked m e h = rw (e) (
      rw (if_false {b = not (str_eq r.scope r.scope)} _ _ (ground (arith, eq_iff r.scope r.scope)))
        (checked-status pre invoked m h))
