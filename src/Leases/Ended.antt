-- ===== src/Leases/Ended.antt =====
-- fusion_relay/leases.py: a lease that was released or revoked is never held again.
use devin_fusion_via_codex.Common.{
  suc, ℕ, ◌≤◌, ◌≡◌, ◌∙◌, refl, sym, ap, Bool, false, Bool-cases, inl, inr, Option, none, some, List,
  String, eq_refl, Result, ok, err, arith,
}
use devin_fusion_via_codex.Leases.State.{
  DesktopLease, LeaseError, not_held, Waiter, Slot, LeaseManager, require, require_slot, free,
  same_lease,
}
use devin_fusion_via_codex.Leases.Acquire.{Turn, acquire_round, try_round, try_slot, grant, leave}
use devin_fusion_via_codex.Leases.Act.{
  check, action_round, action_slot, release, release_slot, revoke, revoke_slot,
}
use devin_fusion_via_codex.Leases.Steps.{World, Reach, moved}
use devin_fusion_via_codex.Leases.Exclusive.{same_lease-eq}
use devin_fusion_via_codex.Leases.Lost.{live, Lost, Reach-Lost}

-- A lease of the generation `g` that the slot does not hold.
phantom : Option Slot → ℕ → DesktopLease
phantom none g = record { lease_id = ""; scope = ""; generation = g; expires_at = 0 }
phantom (some s) g = record s.lease { generation = g; expires_at = suc s.lease.expires_at }

phantom-Lost : (o : Option Slot) (m : LeaseManager) → m.slot ≡ o → Lost (phantom o m.generation) m
unfolding phantom
phantom-Lost none m e = ground arith
phantom-Lost (some s) m e = elim (Bool-cases (same_lease s.lease (phantom (some s) m.generation))) [
  | inl b ↦
      let same = ap (λ a. a.expires_at) (same_lease-eq s.lease (phantom (some s) m.generation) b) in
      absurd (ground arith)
  | inr b ↦ ground arith
]

Reach-generation : {w v : World} → Reach w v → w.manager.generation ≤ v.manager.generation
unfolding phantom
Reach-generation {w} {v} r = generation_of w.manager.slot refl
  where
    generation_of :
        (o : Option Slot) → w.manager.slot ≡ o → w.manager.generation ≤ v.manager.generation
    generation_of none e = (Reach-Lost _ r (phantom-Lost none w.manager e)).0
    generation_of (some s) e = (Reach-Lost _ r (phantom-Lost (some s) w.manager e)).0

try_round-generation :
    (me : Waiter) (t : Turn) (m : LeaseManager) (l : DesktopLease)
    → (try_round me t m).0 ≡ some (ok l)
    → l.generation ≡ (try_round me t m).1.generation
unfolding try_round try_slot grant
try_round-generation me t m l h = ground arith

leave-result :
    (me : Waiter) (r : Option (Result LeaseError DesktopLease) × LeaseManager)
    → ((leave me r).0 ≡ r.0) × ((leave me r).1.generation ≡ r.1.generation)
unfolding leave
leave-result me (none, m) = (refl, refl)
leave-result me (some r, m) = (refl, refl)

acquire_round-generation :
    (me : Waiter) (t : Turn) (m : LeaseManager) (l : DesktopLease)
    → (acquire_round me t m).0 ≡ some (ok l)
    → l.generation ≡ (acquire_round me t m).1.generation
unfolding acquire_round
acquire_round-generation me t m l h =
    let (same, kept) = leave-result me (try_round me t m) in
    try_round-generation me t m l (sym same ∙ h) ∙ sym kept

-- What takes a lease from its holder before its time.
pub data Ends (l : DesktopLease) (m : LeaseManager) : LeaseManager → Type 0 where
  released : Ends l m (release l m)
  revoked : Ends l m (revoke l.scope m)

release_slot-ends :
    (l : DesktopLease) (o : Option Slot) (m : LeaseManager)
    → m.slot ≡ o
    → l.generation ≤ m.generation
    → Lost l (release_slot l o m)
unfolding release_slot free
release_slot-ends l none m e g = ground arith
release_slot-ends l (some s) m e g = ground arith

revoke_slot-ends :
    (l : DesktopLease) (o : Option Slot) (m : LeaseManager)
    → m.slot ≡ o
    → l.generation ≤ m.generation
    → Lost l (revoke_slot l.scope o m)
unfolding revoke_slot
revoke_slot-ends l none m e g = ground arith
revoke_slot-ends l (some s) m e g = elim (Bool-cases (same_lease s.lease l)) [
  | inl b ↦ let same = same_lease-eq s.lease l b in ground (arith, eq_refl l.scope)
  | inr b ↦ ground arith
]

Ends-Lost :
    (l : DesktopLease) (m n : LeaseManager) → l.generation ≤ m.generation → Ends l m n → Lost l n
unfolding release revoke
Ends-Lost l m n g released = release_slot-ends l m.slot m refl g
Ends-Lost l m n g revoked = revoke_slot-ends l m.slot _ refl (ground arith)

Lost-require :
    (l : DesktopLease) (now : ℕ) (o : Option Slot)
    → live l o ≡ false
    → require_slot l now o ≡ err not_held
unfolding require_slot
Lost-require l now none h = refl
Lost-require l now (some s) h = ground arith

-- A lease that a round of `acquire` gave out is lost with its release or the revocation of its scope:
-- after any calls before that and any calls since, `check` raises that it is not held, and an action
-- under it is refused.
pub lease_end_is_final :
    (me : Waiter) (t : Turn) (m : LeaseManager) (l : DesktopLease) (active : List DesktopLease)
    (w v : World) (n : LeaseManager) (named : Option (String × String)) (cancels : Bool)
    (now now2 : ℕ)
    → (acquire_round me t m).0 ≡ some (ok l)
    → Reach (record { manager = (acquire_round me t m).1; active = active }) w
    → Ends l w.manager n
    → Reach (moved w n) v
    → (check l cancels now v.manager ≡ err not_held)
      × ((action_round l named false now now2 v.manager).0 ≡ some (err not_held))
unfolding check action_round action_slot require
lease_end_is_final me t m l active w v n named cancels now now2 h r e q =
    let given = acquire_round-generation me t m l h in
    let grown = Reach-generation r in
    let lost = Reach-Lost l q (Ends-Lost l w.manager n (ground arith) e) in
    let refused = Lost-require l now v.manager.slot lost.1 in (rw (refused) refl, rw (refused) refl)
