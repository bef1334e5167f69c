-- ===== src/Ledger/Steps.antt =====
-- Every call on a `ContinuationLedger` of fusion_relay/continuation.py that succeeds, as a step, and
-- `delivery`, which keeps the row that it offered also where it raises. Any other call that raises is
-- rolled back and changes nothing.
pub mod Changes
pub mod Each
use devin_fusion_via_codex.Common.{ℕ, ◌≡◌, Bool, Option, List, String, Result, ok}
use devin_fusion_via_codex.Common.Json.{Json, Object}
use devin_fusion_via_codex.Ledger.Binding.{ContinuationBinding, Codec, LedgerError}
use devin_fusion_via_codex.Ledger.State.{Ledger}
use devin_fusion_via_codex.Ledger.Reserve.{Reservation, Reserved, reserve}
use devin_fusion_via_codex.Ledger.Commit.{
  Reason, commit, abandon, mark_outcome_unknown, mark_cancel, resolve_unknown,
}
use devin_fusion_via_codex.Ledger.Accept.{offer_result, acknowledge_result, delivery}
use devin_fusion_via_codex.Ledger.Epoch.{transition_epoch, retire_scope}

-- The scopes that are retired satisfy `P`.
pub data Step (c : Codec) (P : String → Type 0) (m n : Ledger) : Type 0 where
  reserve_step :
      (b : ContinuationBinding) (o : String) (body : Object) (x : Reserved)
      → reserve c b o body m ≡ ok (x, n)
      → Step c P m n
  commit_step :
      (nonce nonce2 : String) (r : Reservation) (output : List Json) (wire : String) (u : Unit {0})
      → commit c nonce nonce2 r output wire m ≡ ok (u, n)
      → Step c P m n
  abandon_step :
      (r : Reservation) (reason : Reason) (u : Unit {0})
      → abandon c r reason m ≡ ok (u, n)
      → Step c P m n
  unknown_step :
      (r : Reservation) (u : Unit {0}) → mark_outcome_unknown c r m ≡ ok (u, n) → Step c P m n
  cancel_step : (r : Reservation) (u : Unit {0}) → mark_cancel c r m ≡ ok (u, n) → Step c P m n
  resolve_step :
      (nonce s o ref outcome : String) (u : Unit {0})
      → resolve_unknown c nonce s o ref outcome m ≡ ok (u, n)
      → Step c P m n
  offer_step :
      (id : String) (r : Reservation) (b : ContinuationBinding) (d : String)
      → offer_result id r b m ≡ ok (d, n)
      → Step c P m n
  acknowledge_step :
      (b : ContinuationBinding) (o : String) (revision : ℕ) (digest reference : String)
      (again : Bool)
      → acknowledge_result c b o revision digest reference m ≡ ok (again, n)
      → Step c P m n
  transition_step :
      (nonce : ℕ → String) (b : ContinuationBinding) (epoch reason : String)
      (carry_from : Option ContinuationBinding) (d : ContinuationBinding)
      → transition_epoch c nonce b epoch reason carry_from m ≡ ok (d, n)
      → Step c P m n
  retire_step : (s : String) (u : Unit {0}) → P s → retire_scope s m ≡ ok (u, n) → Step c P m n
  delivery_step :
      (id : String) (b : ContinuationBinding) (o consumer : String)
      (answer : Result LedgerError String)
      → delivery c id b o consumer m ≡ (answer, n)
      → Step c P m n

pub data Reach (c : Codec) (P : String → Type 0) (m : Ledger) : Ledger → Type 0 where
  here : Reach c P m m
  next : {n o : Ledger} → Reach c P m n → Step c P n o → Reach c P m o
