-- ===== src/Leases/Tests.antt =====
-- Runs of fusion_relay/leases.py on small inputs.
use devin_fusion_via_codex.Common.{true, ◌≡◌, refl, arith, false, none, some, [], ◌∷◌, ok, err}
use devin_fusion_via_codex.Leases.State.{
  DesktopLease, not_held, Waiter, LeaseManager, require, require_slot, rev_of, reap, reap_slot,
}
use devin_fusion_via_codex.Leases.Acquire.{
  Turn, acquire_round, try_round, try_slot, grant, leave, held_by, is_first, is_free,
}
use devin_fusion_via_codex.Leases.Act.{
  observe, check, action_round, action_slot, marked, mark, revoke,
}
use devin_fusion_via_codex.Leases.Steps.{observe_step, World, begin_step, here, next}
use devin_fusion_via_codex.Leases.Exclusive.{in_flight_of, one_action, same_lease_refl}
use devin_fusion_via_codex.Leases.Observed.{holders_only, holders_observation}
use devin_fusion_via_codex.Leases.Ended.{revoked, lease_end_is_final}

abbrev me : Waiter
me = record { scope = "task"; id = "w1"; rev = 0 }

abbrev turn : Turn
turn = record {
  cancels = false;
  reaped_at = 5;
  monotonic = 5;
  deadline = 5000;
  lease_id = "l1";
  granted_at = 6;
  duration = 15000;
}

abbrev lease : DesktopLease
lease = record { lease_id = "l1"; scope = "task"; generation = 4; expires_at = 15006 }

abbrev start : LeaseManager
start = record {
  max_queue = 8;
  max_duration = 30000;
  queue = me ∷ [];
  slot = none;
  generation = 3;
  rev = [];
  obs = [];
}

acquires : (acquire_round me turn start).0 ≡ some (ok lease)
unfolding acquire_round try_round try_slot grant leave held_by is_first is_free rev_of reap
    reap_slot
acquires = refl

abbrev held : World
held = record {
  manager = record start {
    queue = [];
    generation = 4;
    slot = some (record { lease = lease; dead = false; in_flight = false });
  };
  active = [];
}

begins : (action_round lease none false 10 10 held.manager).0 ≡ some (ok tt)
unfolding action_round action_slot marked mark require require_slot
begins = ground (arith, same_lease_refl lease)

abbrev acting : World
acting = record {
  manager = (action_round lease none false 10 10 held.manager).1;
  active = lease ∷ [];
}

one_action_example : acting.active ≡ in_flight_of acting.manager.slot
one_action_example =
    one_action held acting refl (next here (begin_step lease none false 10 10 begins))

abbrev revoked_world : World
revoked_world = record { manager = revoke "task" (acquire_round me turn start).1; active = [] }

lease_end_is_final_example :
    (check lease false 20 revoked_world.manager ≡ err not_held)
    × ((action_round lease none false 20 20 revoked_world.manager).0 ≡ some (err not_held))
lease_end_is_final_example =
    lease_end_is_final me turn start lease []
      (record { manager = (acquire_round me turn start).1; active = [] }) revoked_world
      (revoke "task" (acquire_round me turn start).1) none false 20 20 acquires here revoked here

abbrev observing : World
observing = record { manager = (observe lease "window" "o1" 10 10 held.manager).1; active = [] }

holders_observation_example : holders_only observing.manager.slot observing.manager.obs ≡ true
holders_observation_example =
    holders_observation held observing refl (next here (observe_step lease "window" "o1" 10 10))
