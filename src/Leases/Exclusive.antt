-- ===== src/Leases/Exclusive.antt =====
-- fusion_relay/leases.py: one action at a time, and the slot stays with it.
use devin_fusion_via_codex.Common.{
  ℕ, ◌≡◌, ◌≢◌, ◌∙◌, refl, sym, ap, true, false, Bool-cases, if_true, if_false, Result-cases,
  decide_sound, decide_complete, Option-cases, inl, inr, Option, none, some, List, [], ◌∷◌, ◌++◌,
  String, if◌then◌else◌, Result, ok, err, ◌>>◌, arith,
}
use devin_fusion_via_codex.Leases.State.{
  DesktopLease, LeaseError, Waiter, Slot, LeaseManager, reap, reap_slot, require, require_slot,
  free, same_lease, lease-discrete,
}
use devin_fusion_via_codex.Leases.Acquire.{
  Turn, enter, acquire_round, try_round, try_slot, grant, leave, is_free,
}
use devin_fusion_via_codex.Leases.Act.{
  observe, observed, check_window, action_round, action_slot, marked, mark, action_exit, exit_slot,
  release, release_slot, revoke, revoke_slot, validate_named,
}
use devin_fusion_via_codex.Leases.Steps.{
  World, Step, enter_step, round_step, observe_step, begin_step, exit_step, release_step,
  revoke_step, Reach, here, next,
}

-- The lease whose action the slot is marked for.
abbrev pub in_flight_of : Option Slot → List DesktopLease
in_flight_of none = []
in_flight_of (some s) = if s.in_flight then s.lease ∷ [] else []

reap_slot-in_flight :
    (now : ℕ) (o : Option Slot) (m : LeaseManager)
    → m.slot ≡ o
    → in_flight_of (reap_slot now o m).slot ≡ in_flight_of m.slot
unfolding reap_slot free
reap_slot-in_flight now none m e = refl
reap_slot-in_flight now (some s) m e = ground arith

reap-in_flight : (now : ℕ) (m : LeaseManager) → in_flight_of (reap now m).slot ≡ in_flight_of m.slot
unfolding reap
reap-in_flight now m = reap_slot-in_flight now m.slot m refl

try_slot-in_flight :
    (me : Waiter) (t : Turn) (m : LeaseManager)
    → in_flight_of (try_slot me t m).1.slot ≡ in_flight_of m.slot
unfolding try_slot grant is_free
try_slot-in_flight me t m = elim (Option-cases m.slot) [
  | inl e ↦ ground arith
  | inr (s, e) ↦ ground arith
]

leave-slot :
    (me : Waiter) (r : Option (Result LeaseError DesktopLease) × LeaseManager)
    → (leave me r).1.slot ≡ r.1.slot
unfolding leave
leave-slot me (none, m) = refl
leave-slot me (some r, m) = refl

acquire_round-in_flight :
    (me : Waiter) (t : Turn) (m : LeaseManager)
    → in_flight_of (acquire_round me t m).1.slot ≡ in_flight_of m.slot
unfolding acquire_round try_round
acquire_round-in_flight me t m = ground (
  arith,
  leave-slot me (try_round me t m),
  try_slot-in_flight me t (reap t.reaped_at m),
  reap-in_flight t.reaped_at m,
)

enter-slot :
    (scope : String) (wait_timeout : ℕ) (id : String) (m : LeaseManager)
    → (enter scope wait_timeout id m).1.slot ≡ m.slot
unfolding enter
enter-slot scope wait_timeout id m = ground arith

observe-slot :
    (lease : DesktopLease) (window id : String) (now created : ℕ) (m : LeaseManager)
    → (observe lease window id now created m).1.slot ≡ m.slot
unfolding observe observed
observe-slot lease window id now created m =
    elim (Result-cases (check_window window >> require lease now m)) [
      | inl (s, e) ↦ rw (e, observe) refl
      | inr (x, e) ↦ rw (e, observe) refl
    ]

release_slot-in_flight :
    (lease : DesktopLease) (o : Option Slot) (m : LeaseManager)
    → m.slot ≡ o
    → in_flight_of (release_slot lease o m).slot ≡ in_flight_of m.slot
unfolding release_slot free
release_slot-in_flight lease none m e = refl
release_slot-in_flight lease (some s) m e = ground arith

revoke_slot-in_flight :
    (scope : String) (o : Option Slot) (m : LeaseManager)
    → m.slot ≡ o
    → in_flight_of (revoke_slot scope o m).slot ≡ in_flight_of m.slot
unfolding revoke_slot
revoke_slot-in_flight scope none m e = refl
revoke_slot-in_flight scope (some s) m e = ground arith

pub require_slot-ok :
    (lease : DesktopLease) (now : ℕ) (o : Option Slot) (s : Slot)
    → require_slot lease now o ≡ ok s
    → (o ≡ some s) × (same_lease s.lease lease ≡ true) × (s.dead ≡ false)
unfolding require_slot
require_slot-ok lease now none s h = absurd (ground arith)
require_slot-ok lease now (some t) s h = ground arith

pub same_lease-eq : (a b : DesktopLease) → same_lease a b ≡ true → a ≡ b
same_lease-eq a b h = decide_sound (lease-discrete a b) h

-- An action that begins finds the slot unmarked and marks it.
action_slot-begins :
    (lease : DesktopLease) (named : Option (String × String)) (now now2 : ℕ)
    (r : Result LeaseError Slot) (m : LeaseManager)
    → require_slot lease now m.slot ≡ r
    → (action_slot lease named now2 r m).0 ≡ some (ok tt)
    → (in_flight_of m.slot ≡ [])
      × (in_flight_of (action_slot lease named now2 r m).1.slot ≡ lease ∷ [])
unfolding action_slot marked mark
action_slot-begins lease named now now2 (err x) m e h = absurd (ground arith)
action_slot-begins lease named now now2 (ok s) m e h = elim (Bool-cases s.in_flight) [
  | inl b ↦ absurd (ground arith)
  | inr b ↦ elim (Result-cases (validate_named lease named now2 m)) [
    | inl (u, v) ↦
        let (o, l, alive) = require_slot-ok lease now m.slot s e in
        let same = same_lease-eq s.lease lease l in ground arith
    | inr (x, v) ↦ absurd (ground arith)
  ]
]

pub same_lease_refl : (a : DesktopLease) → same_lease a a ≡ true
same_lease_refl a = decide_complete (lease-discrete a a) refl

only-one :
    (before after : List DesktopLease) (x y : DesktopLease)
    → before ++ x ∷ after ≡ y ∷ []
    → (before ++ after ≡ []) × (x ≡ y)
only-one [] after x y h = ground arith
only-one (b ∷ []) after x y h = absurd (ground arith)
only-one (b ∷ c ∷ before) after x y h = absurd (ground arith)

not-none : (before after : List DesktopLease) (x : DesktopLease) → before ++ x ∷ after ≢ []
not-none [] after x h = ground arith
not-none (b ∷ before) after x h = ground arith

-- The end of the action that the slot is marked for.
exit_slot-ends :
    (lease : DesktopLease) (before after : List DesktopLease) (now : ℕ) (o : Option Slot)
    (m : LeaseManager)
    → m.slot ≡ o
    → before ++ lease ∷ after ≡ in_flight_of o
    → in_flight_of (exit_slot lease now o m).slot ≡ before ++ after
unfolding exit_slot
exit_slot-ends lease before after now none m e h = absurd (not-none before after lease h)
exit_slot-ends lease before after now (some s) m e h = elim (Bool-cases s.in_flight) [
  | inl b ↦
      let (gone, same) = only-one before after lease s.lease (h ∙ if_true _ _ b) in
      ground (
        arith,
        same_lease_refl lease,
        reap-in_flight now (record m { slot = some (record s { in_flight = false }) }),
      )
  | inr b ↦ absurd (not-none before after lease (h ∙ if_false _ _ b))
]

-- The running action is the one that the slot is marked for.
pub IsMarked : World → Type 0
IsMarked w = w.active ≡ in_flight_of w.manager.slot

Step-IsMarked : {w v : World} → Step w v → IsMarked w → IsMarked v
unfolding IsMarked action_round action_exit release revoke require require_slot
Step-IsMarked {w} (enter_step scope wait id) h =
    h ∙ ap in_flight_of (sym (enter-slot scope wait id w.manager))
Step-IsMarked {w} (round_step me t) h = h ∙ sym (acquire_round-in_flight me t w.manager)
Step-IsMarked {w} (observe_step lease window id now created) h =
    h ∙ ap in_flight_of (sym (observe-slot lease window id now created w.manager))
Step-IsMarked {w} (begin_step lease named true now now2 e) h = absurd (ground arith)
Step-IsMarked {w} (begin_step lease named false now now2 e) h =
    let (before, after) =
      action_slot-begins lease named now now2 (require lease now w.manager) w.manager refl e in
    ap (λ l. lease ∷ l) (h ∙ before) ∙ sym after
Step-IsMarked {w} (exit_step lease before after now e) h =
    sym (exit_slot-ends lease before after now w.manager.slot w.manager refl (sym e ∙ h))
Step-IsMarked {w} (release_step lease) h =
    h ∙ sym (release_slot-in_flight lease w.manager.slot w.manager refl)
Step-IsMarked {w} (revoke_step scope) h =
    h ∙ sym (revoke_slot-in_flight scope w.manager.slot _ refl)

-- In every interleaving from a state in which this holds, the actions that run are none, or the one of the lease in the slot, which is marked: so no two run at once, and the slot stays
-- with an action's lease until the action ends, whatever is released or revoked meanwhile.
pub one_action :
    (w v : World)
    → w.active ≡ in_flight_of w.manager.slot
    → Reach w v
    → v.active ≡ in_flight_of v.manager.slot
unfolding IsMarked
one_action w v h here = h
one_action w v h (next r s) = Step-IsMarked s (one_action w _ h r)
