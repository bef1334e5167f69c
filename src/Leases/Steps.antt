-- ===== src/Leases/Steps.antt =====
-- The calls on a `LeaseManager` of fusion_relay/leases.py as steps, with the actions that are under way.
-- The calls and rounds that are missing here change nothing.
use devin_fusion_via_codex.Common.{ℕ, ◌≡◌, Bool, Option, some, List, ◌∷◌, ◌++◌, String, ok}
use devin_fusion_via_codex.Leases.State.{DesktopLease, Waiter, LeaseManager}
use devin_fusion_via_codex.Leases.Acquire.{Turn, enter, acquire_round}
use devin_fusion_via_codex.Leases.Act.{observe, action_round, action_exit, release, revoke}

-- `active` holds the lease of each `action` whose body runs.
pub record World : Type 0 where
  pub manager : LeaseManager
  pub active : List DesktopLease

abbrev pub moved : World → LeaseManager → World
moved w m = record w { manager = m }

pub data Step (w : World) : World → Type 0 where
  enter_step :
      (scope : String) (wait_timeout : ℕ) (id : String)
      → Step w (moved w (enter scope wait_timeout id w.manager).1)
  round_step : (me : Waiter) (t : Turn) → Step w (moved w (acquire_round me t w.manager).1)
  observe_step :
      (lease : DesktopLease) (window id : String) (now created : ℕ)
      → Step w (moved w (observe lease window id now created w.manager).1)
  begin_step :
      (lease : DesktopLease) (named : Option (String × String)) (cancels : Bool) (now now2 : ℕ)
      → (action_round lease named cancels now now2 w.manager).0 ≡ some (ok tt)
      → Step w (record {
        manager = (action_round lease named cancels now now2 w.manager).1;
        active = lease ∷ w.active;
      })
  exit_step :
      (lease : DesktopLease) (before after : List DesktopLease) (now : ℕ)
      → w.active ≡ before ++ lease ∷ after
      → Step w (record { manager = action_exit lease now w.manager; active = before ++ after })
  release_step : (lease : DesktopLease) → Step w (moved w (release lease w.manager))
  revoke_step : (scope : String) → Step w (moved w (revoke scope w.manager))

pub data Reach (w : World) : World → Type 0 where
  here : Reach w w
  next : {v u : World} → Reach w v → Step v u → Reach w u
