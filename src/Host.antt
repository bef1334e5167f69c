-- ===== src/Host.antt =====
-- fusion_relay/continuation_host.py: `ContinuationCoordinator.execute`. What the preflight check and the
-- provider's call come to for the reservation are arguments.
pub mod Settled
pub mod Replayed
mod Tests
use devin_fusion_via_codex.Common.{
  ◌≡◌, Bool, true, false, not, Option, none, some, List, String, str_eq, if◌then◌else◌, Result, ok,
  err,
}
use devin_fusion_via_codex.Common.Json.{Json}
use devin_fusion_via_codex.Ledger.Binding.{ContinuationBinding, Codec, LedgerError, scope_of}
use devin_fusion_via_codex.Ledger.State.{Ledger}
use devin_fusion_via_codex.Ledger.Reserve.{Reservation, Replay, Reserved, replayed, admitted}
use devin_fusion_via_codex.Ledger.Commit.{
  commit, abandon, preflight, mark_cancel, mark_outcome_unknown,
}
use devin_fusion_via_codex.Ledger.Accept.{offer_result}

-- What `preflight` does: it passes (also where it is None), or raises `BudgetExceeded`, or another
-- exception.
pub data Preflight : Type 0 where
  fits exceeds breaks : Preflight

-- What `invoke` does: it returns the wire with the output, or raises `RequestCancelled`, or another
-- `Exception`, or an exception that is not an `Exception` (`KeyboardInterrupt`, `SystemExit`).
pub data Invoked : Type 0 where
  answers : List Json → String → Invoked
  cancels fails interrupted : Invoked

pub data HostError : Type 0 where
  scope_mismatch over_budget preflight_failed request_cancelled provider_failed interrupted_call :
      HostError
  ledger_error : LedgerError → HostError

-- The wire, and whether its delivery is uncertain.
pub data Executed : Type 0 where
  returned : String → Bool → Executed
  raised : HostError → Executed

-- A call whose `ContinuationError` is passed over.
abbrev pub tried : Ledger → Result LedgerError (Unit {0} × Ledger) → Ledger
tried m (ok (u, n)) = n
tried m (err e) = m

-- `offer_result` in `try`.
abbrev pub after_commit : String → Ledger → Result LedgerError (String × Ledger) → Executed × Ledger
after_commit wire m (ok (id, n)) = (returned wire false, n)
after_commit wire m (err e) = (returned wire true, m)

-- `except BudgetExceeded`
abbrev pub after_excess : Ledger → Result LedgerError (Unit {0} × Ledger) → Executed × Ledger
after_excess m (ok (u, n)) = (raised over_budget, n)
after_excess m (err e) = (raised (ledger_error e), m)

module _ (c : Codec) (nonce nonce2 id : String) (b : ContinuationBinding) (r : Reservation) where
  unfoldable pub finish_commit :
      String → Ledger → Result LedgerError (Unit {0} × Ledger) → Executed × Ledger
  finish_commit wire m (ok (u, n)) = after_commit wire n (offer_result id r b n)
  finish_commit wire m (err e) = (raised (ledger_error e), tried m (mark_outcome_unknown c r m))

  unfoldable pub send : Invoked → Ledger → Executed × Ledger
  unfolding finish_commit
  send (answers output wire) m = finish_commit wire m (commit c nonce nonce2 r output wire m)
  send cancels m = (raised request_cancelled, tried m (mark_cancel c r m))
  send fails m = (raised provider_failed, tried m (mark_outcome_unknown c r m))
  send interrupted m = (raised interrupted_call, m)

  unfoldable pub checked : Preflight → Invoked → Ledger → Executed × Ledger
  unfolding send
  checked fits invoked m = send invoked m
  checked exceeds invoked m = after_excess m (abandon c r preflight m)
  checked breaks invoked m = (raised preflight_failed, m)

abbrev pub scope_in : Reserved → String
scope_in (replayed p) = p.scope
scope_in (admitted r) = r.scope

module _ (c : Codec) (nonce nonce2 id : String) (b : ContinuationBinding) where
  unfoldable pub run_reserved : Reserved → Preflight → Invoked → Ledger → Executed × Ledger
  unfolding checked
  run_reserved (replayed p) pre invoked m = (returned p.wire false, m)
  run_reserved (admitted r) pre invoked m = checked c nonce nonce2 id b r pre invoked m

  unfoldable pub in_scope :
      Result LedgerError String → Reserved → Preflight → Invoked → Ledger → Executed × Ledger
  unfolding run_reserved
  in_scope (err e) x pre invoked m = (raised (ledger_error e), m)
  in_scope (ok scope) x pre invoked m =
      if not (str_eq scope (scope_in x))
      then (raised scope_mismatch, m)
      else run_reserved x pre invoked m

  -- `execute`
  unfoldable pub execute : Reserved → Preflight → Invoked → Ledger → Executed × Ledger
  unfolding in_scope
  execute x pre invoked m = in_scope (scope_of c b) x pre invoked m
