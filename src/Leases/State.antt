-- ===== src/Leases/State.antt =====
-- fusion_relay/leases.py: the state of `LeaseManager` and the helpers of its methods. Times are whole
-- milliseconds, and each reading of a clock is an argument. A Python dict is the list of its entries.
use native.Mathlib.Decide.{ℕ_discrete}
use mathlib.Core.Bool.{decide}
use devin_fusion_via_codex.Common.{
  ℕ, ◌+◌, Bool, not, ◌&&◌, ◌||◌, Option, none, some, List, [], ◌∷◌, String, string_discrete, str_eq,
  leb, if◌then◌else◌, Result, ok, err,
}

pub record DesktopLease : Type 0 where
  pub lease_id : String
  pub scope : String
  pub generation : ℕ
  pub expires_at : ℕ

-- `LeaseError` by its messages, and the `ValueError` of each argument.
pub data LeaseError : Type 0 where
  invalid_scope invalid_wait invalid_window : LeaseError
  cancelled queue_full revoked_while_queued already_held timed_out not_held : LeaseError
  unknown_observation observation_expired window_changed : LeaseError

pub record Waiter : Type 0 where
  pub scope : String
  pub id : String
  pub rev : ℕ

pub record Slot : Type 0 where
  pub lease : DesktopLease
  pub dead : Bool
  pub in_flight : Bool

pub record Observation : Type 0 where
  pub id : String
  pub lease_id : String
  pub generation : ℕ
  pub window : String
  pub created : ℕ

pub record Revocations : Type 0 where
  pub scope : String
  pub count : ℕ

pub record LeaseManager : Type 0 where
  pub max_queue : ℕ
  pub max_duration : ℕ
  pub queue : List Waiter
  pub slot : Option Slot
  pub generation : ℕ
  pub rev : List Revocations
  pub obs : List Observation

pub lease-discrete : Discrete DesktopLease
unfolding string_discrete ℕ_discrete
lease-discrete = hlevel (string_discrete, ℕ_discrete)

-- `a == b` of frozen dataclasses
abbrev pub same_lease : DesktopLease → DesktopLease → Bool
same_lease a b = decide (lease-discrete a b)

-- `self._rev.get(scope, 0)`
unfoldable pub rev_of : String → List Revocations → ℕ
rev_of scope [] = 0
rev_of scope (r ∷ rs) = if str_eq r.scope scope then r.count else rev_of scope rs

-- `self._rev[scope] = self._rev.get(scope, 0) + 1`
unfoldable pub raise_rev : String → List Revocations → List Revocations
raise_rev scope [] = record { scope = scope; count = 1 } ∷ []
raise_rev scope (r ∷ rs) =
    if str_eq r.scope scope then record r { count = r.count + 1 } ∷ rs else r ∷ raise_rev scope rs

-- The observations of the other leases.
unfoldable pub without_lease : String → List Observation → List Observation
without_lease id [] = []
without_lease id (o ∷ os) =
    let rest = without_lease id os in if str_eq o.lease_id id then rest else o ∷ rest

-- The slot is freed, and the observations of its lease go.
unfoldable pub free : DesktopLease → LeaseManager → LeaseManager
free lease m = record m { slot = none; obs = without_lease lease.lease_id m.obs }

unfoldable pub reap_slot : ℕ → Option Slot → LeaseManager → LeaseManager
reap_slot now none m = m
reap_slot now (some s) m =
    if not s.in_flight && (s.dead || leb s.lease.expires_at now) then free s.lease m else m

-- `_reap_locked`
unfoldable pub reap : ℕ → LeaseManager → LeaseManager
reap now m = reap_slot now m.slot m

unfoldable pub require_slot : DesktopLease → ℕ → Option Slot → Result LeaseError Slot
require_slot lease now none = err not_held
require_slot lease now (some s) =
    if s.dead || (not (same_lease s.lease lease) || leb lease.expires_at now)
    then err not_held
    else ok s

-- `_require_locked`
unfoldable pub require : DesktopLease → ℕ → LeaseManager → Result LeaseError Slot
require lease now m = require_slot lease now m.slot
