-- ===== src/Leases/Act.antt =====
-- fusion_relay/leases.py: observations, actions, release and revocation of `LeaseManager`.
use Prim.Native.String.{count}
use devin_fusion_via_codex.Common.{
  ℕ, suc, ◌-◌, Bool, true, false, not, ◌||◌, Option, none, some, List, [], ◌∷◌, ◌++◌, String,
  str_eq, ltb, ◌==◌, if◌then◌else◌, Result, ok, err, raise_if, ◌>>=◌, ◌>>◌,
}
use devin_fusion_via_codex.Leases.State.{
  DesktopLease, LeaseError, invalid_window, cancelled, unknown_observation, observation_expired,
  window_changed, Slot, Observation, LeaseManager, same_lease, raise_rev, without_lease, free, reap,
  require,
}

-- `check`: the lease is live, and then the caller's own check does not cancel.
unfoldable pub check : DesktopLease → Bool → ℕ → LeaseManager → Result LeaseError (Unit {0})
check lease cancels now m = do slot ← require lease now m; raise_if cancels cancelled

-- `_check_window`
unfoldable pub check_window : String → Result LeaseError (Unit {0})
check_window window = raise_if (str_eq window "" || ltb 512 (count window)) invalid_window

unfoldable pub observed : DesktopLease → String → String → ℕ → LeaseManager → LeaseManager
observed lease window id created m = record m {
  obs =
      without_lease lease.lease_id m.obs
      ++ record {
        id = id;
        lease_id = lease.lease_id;
        generation = lease.generation;
        window = window;
        created = created;
      }
        ∷ [];
}

-- `observe`; the id is drawn for it.
unfoldable pub observe :
    DesktopLease → String → String → ℕ → ℕ → LeaseManager → Result LeaseError String × LeaseManager
unfolding observed
observe lease window id now created m = elim (check_window window >> require lease now m) [
  | err e ↦ (err e, m)
  | ok slot ↦ (ok id, observed lease window id created m)
]

-- `self._obs.get(observation_id)`
unfoldable pub observation_of : String → List Observation → Option Observation
observation_of id [] = none
observation_of id (o ∷ os) = if str_eq o.id id then some o else observation_of id os

abbrev pub obs_max_age : ℕ
obs_max_age = 5000

-- `_validate_obs_locked`
unfoldable pub validate_obs :
    DesktopLease → String → String → ℕ → LeaseManager → Result LeaseError (Unit {0})
validate_obs lease id window now m = elim (observation_of id m.obs) [
  | none ↦ err unknown_observation
  | some o ↦
      if not (str_eq o.lease_id lease.lease_id) || not (o.generation == lease.generation)
      then err unknown_observation
      else if ltb obs_max_age (now - o.created)
      then err observation_expired
      else raise_if (not (str_eq o.window window)) window_changed
]

unfoldable pub validate_action :
    DesktopLease → String → String → Bool → ℕ → ℕ → LeaseManager → Result LeaseError (Unit {0})
validate_action lease id window cancels now now2 m = do
  check_window window
  slot ← require lease now m
  validate_obs lease id window now2 m
  raise_if cancels cancelled

-- The observation that an action names, with the window at hand.
abbrev pub validate_named :
    DesktopLease → Option (String × String) → ℕ → LeaseManager → Result LeaseError (Unit {0})
validate_named lease none now m = ok tt
validate_named lease (some (id, window)) now m = validate_obs lease id window now m

unfoldable pub mark : Slot → LeaseManager → LeaseManager
mark s m = record m { slot = some (record s { in_flight = true }) }

unfoldable pub marked :
    Slot
    → Result LeaseError (Unit {0})
    → LeaseManager
    → Option (Result LeaseError (Unit {0})) × LeaseManager
unfolding mark
marked s (err e) m = (some (err e), m)
marked s (ok u) m = (some (ok tt), mark s m)

unfoldable pub action_slot :
    DesktopLease
    → Option (String × String)
    → ℕ
    → Result LeaseError Slot
    → LeaseManager
    → Option (Result LeaseError (Unit {0})) × LeaseManager
unfolding marked
action_slot lease named now (err e) m = (some (err e), m)
action_slot lease named now (ok s) m =
    if s.in_flight then (none, m) else marked s (validate_named lease named now m) m

-- A round of the loop that `action` enters by; `none` is another sleep, `ok` runs the body.
unfoldable pub action_round :
    DesktopLease
    → Option (String × String)
    → Bool
    → ℕ
    → ℕ
    → LeaseManager
    → Option (Result LeaseError (Unit {0})) × LeaseManager
unfolding action_slot
action_round lease named cancels now now2 m =
    if cancels
    then (some (err cancelled), m)
    else action_slot lease named now2 (require lease now m) m

-- `action` before its loop.
unfoldable pub check_action : Option (String × String) → Result LeaseError (Unit {0})
check_action none = ok tt
check_action (some (id, window)) = check_window window

unfoldable pub exit_slot : DesktopLease → ℕ → Option Slot → LeaseManager → LeaseManager
exit_slot lease now none m = m
exit_slot lease now (some s) m =
    if same_lease s.lease lease
    then reap now (record m { slot = some (record s { in_flight = false }) })
    else m

-- The `finally` clause of `action`.
unfoldable pub action_exit : DesktopLease → ℕ → LeaseManager → LeaseManager
unfolding exit_slot
action_exit lease now m = exit_slot lease now m.slot m

unfoldable pub release_slot : DesktopLease → Option Slot → LeaseManager → LeaseManager
release_slot lease none m = m
release_slot lease (some s) m =
    if same_lease s.lease lease
    then (if s.in_flight then record m { slot = some (record s { dead = true }) } else free lease m)
    else m

unfoldable pub release : DesktopLease → LeaseManager → LeaseManager
unfolding release_slot
release lease m = release_slot lease m.slot m

unfoldable pub revoke_slot : String → Option Slot → LeaseManager → LeaseManager
revoke_slot scope none m = m
revoke_slot scope (some s) m =
    if str_eq s.lease.scope scope
    then record m {
      slot = some (record s { dead = true });
      obs = without_lease s.lease.lease_id m.obs;
    }
    else m

unfoldable pub revoke : String → LeaseManager → LeaseManager
unfolding revoke_slot
revoke scope m =
    revoke_slot scope m.slot
      (record m { generation = suc m.generation; rev = raise_rev scope m.rev })
