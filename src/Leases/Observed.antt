-- ===== src/Leases/Observed.antt =====
-- fusion_relay/leases.py: the table of observations holds at most one, and it is the lease holder's.
use devin_fusion_via_codex.Common.{
  suc, ℕ, ◌≡◌, ◌∙◌, refl, sym, ap, Bool, true, false, Bool-cases, Result-cases, Option-cases, inl,
  inr, Option, none, some, List, [], ◌∷◌, String, str_eq, eq_refl, Result, ok, err, arith,
}
use devin_fusion_via_codex.Leases.State.{
  DesktopLease, LeaseError, Waiter, Slot, Observation, LeaseManager, reap, reap_slot, require,
  require_slot, free, same_lease, without_lease, raise_rev,
}
use devin_fusion_via_codex.Leases.Acquire.{
  Turn, enter, acquire_round, try_round, try_slot, grant, leave, is_free,
}
use devin_fusion_via_codex.Leases.Act.{
  observe, observed, check_window, action_round, action_slot, marked, mark, action_exit, exit_slot,
  release, release_slot, revoke, revoke_slot, validate_named,
}
use devin_fusion_via_codex.Leases.Steps.{
  World, Step, enter_step, round_step, observe_step, begin_step, exit_step, release_step,
  revoke_step, Reach, here, next,
}
use devin_fusion_via_codex.Leases.Exclusive.{same_lease-eq, require_slot-ok}

-- No observation is there, or one of the lease in the slot.
abbrev pub holders_only : Option Slot → List Observation → Bool
holders_only o [] = true
holders_only none (x ∷ xs) = false
holders_only (some s) (x ∷ []) = str_eq x.lease_id s.lease.lease_id
holders_only (some s) (x ∷ y ∷ xs) = false

holders_only-free :
    (s : Slot) (os : List Observation)
    → holders_only (some s) os ≡ true
    → without_lease s.lease.lease_id os ≡ []
unfolding without_lease
holders_only-free s [] h = refl
holders_only-free s (x ∷ []) h = ground arith
holders_only-free s (x ∷ y ∷ xs) h = absurd (ground arith)

abbrev Owned : LeaseManager → Type 0
Owned m = holders_only m.slot m.obs ≡ true

reap_slot-Owned :
    (now : ℕ) (o : Option Slot) (m : LeaseManager)
    → m.slot ≡ o
    → Owned m
    → Owned (reap_slot now o m)
unfolding reap_slot free
reap_slot-Owned now none m e h = h
reap_slot-Owned now (some s) m e h = ground (arith, holders_only-free s m.obs)

holders_only-lease :
    (s t : Slot) (os : List Observation)
    → t.lease ≡ s.lease
    → holders_only (some s) os ≡ true
    → holders_only (some t) os ≡ true
holders_only-lease s t [] e h = refl
holders_only-lease s t (x ∷ []) e h = ground arith
holders_only-lease s t (x ∷ y ∷ xs) e h = h

held-Owned :
    (s : Slot) (m : LeaseManager) → m.slot ≡ some s → Owned m → holders_only (some s) m.obs ≡ true
held-Owned s m e h = ap (λ o. holders_only o m.obs) (sym e) ∙ h

release_slot-Owned :
    (lease : DesktopLease) (o : Option Slot) (m : LeaseManager)
    → m.slot ≡ o
    → Owned m
    → Owned (release_slot lease o m)
unfolding release_slot free
release_slot-Owned lease none m e h = h
release_slot-Owned lease (some s) m e h =
    let held = held-Owned s m e h in
    elim (Bool-cases (same_lease s.lease lease)) [
      | inl b ↦
          let same = same_lease-eq s.lease lease b in
          ground (
            arith,
            holders_only-free s m.obs held,
            holders_only-lease s (record s { dead = true }) m.obs refl held,
          )
      | inr b ↦ ground arith
    ]

revoke_slot-Owned :
    (scope : String) (o : Option Slot) (m : LeaseManager)
    → m.slot ≡ o
    → Owned m
    → Owned (revoke_slot scope o m)
unfolding revoke_slot
revoke_slot-Owned scope none m e h = h
revoke_slot-Owned scope (some s) m e h =
    ground (arith, holders_only-free s m.obs (held-Owned s m e h))

holders_only-none : (os : List Observation) → holders_only none os ≡ true → os ≡ []
holders_only-none [] h = refl
holders_only-none (x ∷ xs) h = absurd (ground arith)

try_slot-Owned : (me : Waiter) (t : Turn) (m : LeaseManager) → Owned m → Owned (try_slot me t m).1
unfolding try_slot grant is_free
try_slot-Owned me t m h = elim (Option-cases m.slot) [
  | inl e ↦
      let bare = holders_only-none m.obs (ap (λ o. holders_only o m.obs) (sym e) ∙ h) in
      ground arith
  | inr (s, e) ↦ ground arith
]

observed-Owned :
    (lease : DesktopLease) (window id : String) (created : ℕ) (s : Slot) (m : LeaseManager)
    → m.slot ≡ some s
    → s.lease ≡ lease
    → Owned m
    → Owned (observed lease window id created m)
unfolding observed
observed-Owned lease window id created s m e l h =
    ground (arith, holders_only-free s m.obs (held-Owned s m e h), eq_refl lease.lease_id)

leave-Owned :
    (me : Waiter) (r : Option (Result LeaseError DesktopLease) × LeaseManager)
    → Owned r.1
    → Owned (leave me r).1
unfolding leave
leave-Owned me (none, m) h = h
leave-Owned me (some r, m) h = h

acquire_round-Owned :
    (me : Waiter) (t : Turn) (m : LeaseManager) → Owned m → Owned (acquire_round me t m).1
unfolding acquire_round try_round reap
acquire_round-Owned me t m h = leave-Owned me (try_round me t m) (
    ground (
      arith,
      try_slot-Owned me t (reap t.reaped_at m) (reap_slot-Owned t.reaped_at m.slot m refl h),
    ))

enter-Owned :
    (scope : String) (wait_timeout : ℕ) (id : String) (m : LeaseManager)
    → Owned m
    → Owned (enter scope wait_timeout id m).1
unfolding enter
enter-Owned scope wait_timeout id m h = ground arith

observe-Owned :
    (lease : DesktopLease) (window id : String) (now created : ℕ) (m : LeaseManager)
    → Owned m
    → Owned (observe lease window id now created m).1
unfolding observe require
observe-Owned lease window id now created m h = elim (Result-cases (check_window window)) [
  | inl (u, w) ↦ elim (Result-cases (require lease now m)) [
    | inl (s, e) ↦
        let (o, l, alive) = require_slot-ok lease now m.slot s e in
        rw (w, e, observe)
          (observed-Owned lease window id created s m o (same_lease-eq s.lease lease l) h)
    | inr (x, e) ↦ rw (w, e, observe) h
  ]
  | inr (x, w) ↦ rw (w, observe) h
]

action_slot-Owned :
    (lease : DesktopLease) (named : Option (String × String)) (now now2 : ℕ)
    (r : Result LeaseError Slot) (m : LeaseManager)
    → require_slot lease now m.slot ≡ r
    → Owned m
    → Owned (action_slot lease named now2 r m).1
unfolding action_slot marked mark
action_slot-Owned lease named now now2 (err x) m e h = h
action_slot-Owned lease named now now2 (ok s) m e h =
    let (o, held, alive) = require_slot-ok lease now m.slot s e in
    let marks =
      holders_only-lease s (record s { in_flight = true }) m.obs refl (held-Owned s m o h) in
    elim (Result-cases (validate_named lease named now2 m)) [
      | inl (u, v) ↦ ground arith
      | inr (x, v) ↦ ground arith
    ]

exit_slot-Owned :
    (lease : DesktopLease) (now : ℕ) (o : Option Slot) (m : LeaseManager)
    → m.slot ≡ o
    → Owned m
    → Owned (exit_slot lease now o m)
unfolding exit_slot reap
exit_slot-Owned lease now none m e h = h
exit_slot-Owned lease now (some s) m e h =
    let t = record s { in_flight = false } in
    let unmarked = holders_only-lease s t m.obs refl (held-Owned s m e h) in
    ground (arith, reap_slot-Owned now (some t) (record m { slot = some t }) refl unmarked)

Step-Owned : {w v : World} → Step w v → Owned w.manager → Owned v.manager
unfolding action_round action_exit release revoke require require_slot
Step-Owned {w} (enter_step scope wait id) h = enter-Owned scope wait id w.manager h
Step-Owned {w} (round_step me t) h = acquire_round-Owned me t w.manager h
Step-Owned {w} (observe_step lease window id now created) h =
    observe-Owned lease window id now created w.manager h
Step-Owned {w} (begin_step lease named true now now2 e) h = h
Step-Owned {w} (begin_step lease named false now now2 e) h =
    action_slot-Owned lease named now now2 (require lease now w.manager) w.manager refl h
Step-Owned {w} (exit_step lease before after now e) h =
    exit_slot-Owned lease now w.manager.slot w.manager refl h
Step-Owned {w} (release_step lease) h = release_slot-Owned lease w.manager.slot w.manager refl h
Step-Owned {w} (revoke_step scope) h =
    revoke_slot-Owned scope w.manager.slot
      (record w.manager {
        generation = suc w.manager.generation;
        rev = raise_rev scope w.manager.rev;
      })
      refl h

-- In every interleaving from a state in which this holds, the table holds no observation while the
-- slot is free, and otherwise at most one, which was made under the lease in the slot.
pub holders_observation :
    (w v : World)
    → holders_only w.manager.slot w.manager.obs ≡ true
    → Reach w v
    → holders_only v.manager.slot v.manager.obs ≡ true
holders_observation w v h here = h
holders_observation w v h (next r s) = Step-Owned s (holders_observation w _ h r)
