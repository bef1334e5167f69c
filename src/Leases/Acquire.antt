-- ===== src/Leases/Acquire.antt =====
-- fusion_relay/leases.py: `acquire`, as its entry into the queue and the rounds of its loop. The lock is
-- held through the entry and through each round; between rounds the caller sleeps.
use Prim.Native.String.{count}
use devin_fusion_via_codex.Common.{
  ℕ, suc, ◌+◌, min, max, Bool, true, false, not, ◌&&◌, ◌||◌, Option, none, some, List, [], ◌∷◌,
  ◌++◌, length, String, str_eq, ltb, leb, ◌==◌, if◌then◌else◌, Result, ok, err,
}
use devin_fusion_via_codex.Leases.State.{
  DesktopLease, LeaseError, invalid_scope, invalid_wait, cancelled, queue_full,
  revoked_while_queued, already_held, timed_out, Waiter, Slot, LeaseManager, rev_of, reap,
}

abbrev pub max_text : ℕ
max_text = 512

abbrev pub max_wait : ℕ
max_wait = 30000

abbrev pub new_waiter : String → String → LeaseManager → Waiter
new_waiter scope id m = record { scope = scope; id = id; rev = rev_of scope m.rev }

-- The checks of the arguments and the entry into the queue; the id is drawn for it.
unfoldable pub enter : String → ℕ → String → LeaseManager → Result LeaseError Waiter × LeaseManager
enter scope wait_timeout id m =
    if str_eq scope "" || ltb max_text (count scope)
    then (err invalid_scope, m)
    else if ltb max_wait wait_timeout
    then (err invalid_wait, m)
    else if leb m.max_queue (length m.queue)
    then (err queue_full, m)
    else (ok (new_waiter scope id m), record m { queue = m.queue ++ new_waiter scope id m ∷ [] })

-- A live lease of the scope is in the slot.
unfoldable pub held_by : String → Option Slot → Bool
held_by scope none = false
held_by scope (some s) = str_eq s.lease.scope scope && not s.dead

-- `self._queue[0] is me`; the ids that are drawn tell the waiters apart.
unfoldable pub is_first : Waiter → List Waiter → Bool
is_first me [] = false
is_first me (w ∷ ws) = str_eq w.id me.id

unfoldable pub is_free : Option Slot → Bool
is_free none = true
is_free (some s) = false

-- `self._queue.remove(me)`
unfoldable pub remove : Waiter → List Waiter → List Waiter
remove me [] = []
remove me (w ∷ ws) = if str_eq w.id me.id then ws else w ∷ remove me ws

-- What a round reads: whether the caller's check cancels, the clocks, the caller's deadline and
-- duration, and the id drawn for a lease.
pub record Turn : Type 0 where
  pub cancels : Bool
  pub reaped_at : ℕ
  pub monotonic : ℕ
  pub deadline : ℕ
  pub lease_id : String
  pub granted_at : ℕ
  pub duration : ℕ

abbrev pub new_lease : Waiter → Turn → LeaseManager → DesktopLease
new_lease me t m = record {
  lease_id = t.lease_id;
  scope = me.scope;
  generation = suc m.generation;
  expires_at = t.granted_at + min m.max_duration (max 1000 t.duration);
}

unfoldable pub grant :
    Waiter → Turn → LeaseManager → Option (Result LeaseError DesktopLease) × LeaseManager
grant me t m = (
  some (ok (new_lease me t m)),
  record m {
    generation = suc m.generation;
    slot = some (record { lease = new_lease me t m; dead = false; in_flight = false });
  },
)

-- The part of a round after `_reap_locked`.
unfoldable pub try_slot :
    Waiter → Turn → LeaseManager → Option (Result LeaseError DesktopLease) × LeaseManager
unfolding grant
try_slot me t m =
    if held_by me.scope m.slot
    then (some (err already_held), m)
    else if is_first me m.queue && is_free m.slot
    then grant me t m
    else if leb t.deadline t.monotonic
    then (some (err timed_out), m)
    else (none, m)

unfoldable pub try_round :
    Waiter → Turn → LeaseManager → Option (Result LeaseError DesktopLease) × LeaseManager
unfolding try_slot
try_round me t m =
    if t.cancels
    then (some (err cancelled), m)
    else if not (rev_of me.scope m.rev == me.rev)
    then (some (err revoked_while_queued), m)
    else try_slot me t (reap t.reaped_at m)

-- The `finally` clause, once the loop ends.
unfoldable pub leave :
    Waiter
    → Option (Result LeaseError DesktopLease) × LeaseManager
    → Option (Result LeaseError DesktopLease) × LeaseManager
leave me (none, m) = (none, m)
leave me (some r, m) = (some r, record m { queue = remove me m.queue })

-- A round; `none` is another sleep.
unfoldable pub acquire_round :
    Waiter → Turn → LeaseManager → Option (Result LeaseError DesktopLease) × LeaseManager
unfolding try_round leave
acquire_round me t m = leave me (try_round me t m)
