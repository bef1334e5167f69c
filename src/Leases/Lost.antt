-- ===== src/Leases/Lost.antt =====
-- fusion_relay/leases.py: a lease that the slot holds no more stays lost.
use devin_fusion_via_codex.Common.{
  suc, ℕ, ◌≤◌, ◌≡◌, refl, Bool, true, false, not, ◌&&◌, Bool-cases, Result-cases, inl, inr, Option,
  none, some, String, Result, ok, err, ◌>>◌, arith,
}
use devin_fusion_via_codex.Leases.State.{
  DesktopLease, LeaseError, Waiter, Slot, LeaseManager, reap, reap_slot, require, require_slot,
  free, same_lease,
}
use devin_fusion_via_codex.Leases.Acquire.{
  Turn, enter, acquire_round, try_round, try_slot, grant, new_lease, leave,
}
use devin_fusion_via_codex.Leases.Act.{
  observe, observed, check_window, action_round, action_slot, marked, mark, action_exit, exit_slot,
  release, release_slot, revoke, revoke_slot, validate_named,
}
use devin_fusion_via_codex.Leases.Steps.{
  World, Step, enter_step, round_step, observe_step, begin_step, exit_step, release_step,
  revoke_step, Reach, here, next,
}
use devin_fusion_via_codex.Leases.Exclusive.{same_lease-eq, require_slot-ok}

-- The slot holds the lease, and not a dead one.
abbrev pub live : DesktopLease → Option Slot → Bool
live l none = false
live l (some s) = same_lease s.lease l && not s.dead

-- The lease was given out, and the slot does not hold it any more.
abbrev pub Lost : DesktopLease → LeaseManager → Type 0
Lost l m = (l.generation ≤ m.generation) × (live l m.slot ≡ false)

reap_slot-Lost :
    (l : DesktopLease) (now : ℕ) (o : Option Slot) (m : LeaseManager)
    → m.slot ≡ o
    → Lost l m
    → Lost l (reap_slot now o m)
unfolding reap_slot free
reap_slot-Lost l now none m e h = h
reap_slot-Lost l now (some s) m e h = ground arith

reap-Lost : (l : DesktopLease) (now : ℕ) (m : LeaseManager) → Lost l m → Lost l (reap now m)
unfolding reap
reap-Lost l now m h = reap_slot-Lost l now m.slot m refl h

newer-Lost :
    (l g : DesktopLease) (n : ℕ) → l.generation ≤ n → g.generation ≡ suc n → same_lease g l ≡ false
newer-Lost l g n h e = elim (Bool-cases (same_lease g l)) [
  | inl s ↦ let same = same_lease-eq g l s in absurd (ground arith)
  | inr s ↦ s
]

try_slot-Lost :
    (l : DesktopLease) (me : Waiter) (t : Turn) (m : LeaseManager)
    → Lost l m
    → Lost l (try_slot me t m).1
unfolding try_slot grant
try_slot-Lost l me t m (g, h) = ground (arith, newer-Lost l (new_lease me t m) m.generation g refl)

leave-Lost :
    (l : DesktopLease) (me : Waiter) (r : Option (Result LeaseError DesktopLease) × LeaseManager)
    → Lost l r.1
    → Lost l (leave me r).1
unfolding leave
leave-Lost l me (none, m) h = h
leave-Lost l me (some r, m) h = h

acquire_round-Lost :
    (l : DesktopLease) (me : Waiter) (t : Turn) (m : LeaseManager)
    → Lost l m
    → Lost l (acquire_round me t m).1
unfolding acquire_round try_round
acquire_round-Lost l me t m h =
    leave-Lost l me (try_round me t m)
      (ground (arith, try_slot-Lost l me t (reap t.reaped_at m) (reap-Lost l t.reaped_at m h)))

enter-Lost :
    (l : DesktopLease) (scope : String) (wait_timeout : ℕ) (id : String) (m : LeaseManager)
    → Lost l m
    → Lost l (enter scope wait_timeout id m).1
unfolding enter
enter-Lost l scope wait_timeout id m h = ground arith

observe-Lost :
    (l lease : DesktopLease) (window id : String) (now created : ℕ) (m : LeaseManager)
    → Lost l m
    → Lost l (observe lease window id now created m).1
unfolding observe observed
observe-Lost l lease window id now created m h =
    elim (Result-cases (check_window window >> require lease now m)) [
      | inl (s, e) ↦ rw (e, observe) h
      | inr (x, e) ↦ rw (e, observe) h
    ]

action_slot-Lost :
    (l lease : DesktopLease) (named : Option (String × String)) (now now2 : ℕ)
    (r : Result LeaseError Slot) (m : LeaseManager)
    → require_slot lease now m.slot ≡ r
    → Lost l m
    → Lost l (action_slot lease named now2 r m).1
unfolding action_slot marked mark
action_slot-Lost l lease named now now2 (err x) m e h = h
action_slot-Lost l lease named now now2 (ok s) m e h =
    let (o, held, alive) = require_slot-ok lease now m.slot s e in
    elim (Result-cases (validate_named lease named now2 m)) [
      | inl (u, v) ↦ ground arith
      | inr (x, v) ↦ ground arith
    ]

exit_slot-Lost :
    (l lease : DesktopLease) (now : ℕ) (o : Option Slot) (m : LeaseManager)
    → m.slot ≡ o
    → Lost l m
    → Lost l (exit_slot lease now o m)
unfolding exit_slot
exit_slot-Lost l lease now none m e h = h
exit_slot-Lost l lease now (some s) m e h =
    ground (arith, reap-Lost l now (record m { slot = some (record s { in_flight = false }) }))

release_slot-Lost :
    (l lease : DesktopLease) (o : Option Slot) (m : LeaseManager)
    → m.slot ≡ o
    → Lost l m
    → Lost l (release_slot lease o m)
unfolding release_slot free
release_slot-Lost l lease none m e h = h
release_slot-Lost l lease (some s) m e h = ground arith

revoke_slot-Lost :
    (l : DesktopLease) (scope : String) (o : Option Slot) (m : LeaseManager)
    → m.slot ≡ o
    → Lost l m
    → Lost l (revoke_slot scope o m)
unfolding revoke_slot
revoke_slot-Lost l scope none m e h = h
revoke_slot-Lost l scope (some s) m e h = ground arith

Step-Lost : {w v : World} (l : DesktopLease) → Step w v → Lost l w.manager → Lost l v.manager
unfolding action_round action_exit release revoke require require_slot
Step-Lost {w} l (enter_step scope wait id) h = enter-Lost l scope wait id w.manager h
Step-Lost {w} l (round_step me t) h = acquire_round-Lost l me t w.manager h
Step-Lost {w} l (observe_step lease window id now created) h =
    observe-Lost l lease window id now created w.manager h
Step-Lost {w} l (begin_step lease named true now now2 e) h = h
Step-Lost {w} l (begin_step lease named false now now2 e) h =
    action_slot-Lost l lease named now now2 (require lease now w.manager) w.manager refl h
Step-Lost {w} l (exit_step lease before after now e) h =
    exit_slot-Lost l lease now w.manager.slot w.manager refl h
Step-Lost {w} l (release_step lease) h = release_slot-Lost l lease w.manager.slot w.manager refl h
Step-Lost {w} l (revoke_step scope) h =
    revoke_slot-Lost l scope w.manager.slot _ refl (ground arith)

pub Reach-Lost : {w v : World} (l : DesktopLease) → Reach w v → Lost l w.manager → Lost l v.manager
Reach-Lost l here h = h
Reach-Lost l (next r s) h = Step-Lost l s (Reach-Lost l r h)
