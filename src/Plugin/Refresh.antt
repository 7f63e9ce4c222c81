-- ===== src/Plugin/Refresh.antt =====
-- refreshDevicesLoop of cmd/kube-ovn-dra-kubeletplugin/refresh.go as a step relation, between the
-- changes that the informers report, and publish of publisher.go, which runs it.
pub mod Fresh
pub mod Rest
use kube_ovn_dra_driver.Prelude.{
  ℕ, String, Bool, true, false, Option, none, some, List, [], ◌∷◌, ◌++◌, ◌≡◌, ◌⊎◌, Map, Error,
  Result, ok, err, not, if◌then◌else◌,
}
use kube_ovn_dra_driver.Publisher.Device.{Pool}
use kube_ovn_dra_driver.Plugin.Events.{Event}
use kube_ovn_dra_driver.Plugin.Snapshot.{Stores, SnapshotTools, Snapshot, resources}

-- The two functions that the loop is given: refresh returns the resources, whether they changed, or
-- an error; publish returns nil or an error.
pub record Refresher (W R : Type 0) : Type 0 where
  pub refresh : W → Result (R × Bool) × W
  pub publish : R → W → Option Error × W

-- Where the loop stands: before the first select, before the second, behind the third, returned.
pub data Phase : Type 0 where
  waiting delaying refreshing returned : Phase

-- `pending` is whether the channel of triggers, of one place, is full.
pub record Loop (W : Type 0) : Type 0 where
  pub phase : Phase
  pub pending : Bool
  pub world : W

module _ {W R : Type 0} (f : Refresher W R) where
  publish_changed : Result (R × Bool) × W → W
  publish_changed (err e, w) = w
  publish_changed (ok (r, changed), w) = if changed then (f.publish r w).1 else w

  -- From the call of refresh to the end of the round.
  unfoldable pub round : W → W
  unfolding publish_changed
  round w = publish_changed (f.refresh w)

  -- A step of the loop: its select statements, and the round. `delay` and the end of the context are
  -- events that may come at any time. The round is one step: a change while it runs leaves a trigger,
  -- like one that comes directly after it.
  pub data Turns : Loop W → Loop W → Type 0 where
    wakes :
        (s : Loop W)
        → s.phase ≡ waiting
        → s.pending ≡ true
        → Turns s (record s { phase = delaying; pending = false })
    fires :
        (s : Loop W)
        → s.phase ≡ delaying
        → Turns s (record s { phase = refreshing; pending = false })
    rounds :
        (s : Loop W)
        → s.phase ≡ refreshing
        → Turns s (record s { phase = waiting; world = round s.world })

  -- What the loop and its environment do. A change that is reported puts a trigger into the channel,
  -- unless it is full; a drift is reported by nobody.
  pub data Moves (Changes Drifts : W → W → Type 0) : Loop W → Loop W → Type 0 where
    turns : (s s' : Loop W) → Turns s s' → Moves Changes Drifts s s'
    changes :
        (s : Loop W) (w : W)
        → Changes s.world w
        → Moves Changes Drifts s (record s { pending = true; world = w })
    drifts :
        (s : Loop W) (w : W) → Drifts s.world w → Moves Changes Drifts s (record s { world = w })
    stops :
        (s : Loop W)
        → (s.phase ≡ waiting) ⊎ (s.phase ≡ delaying)
        → Moves Changes Drifts s (record s { phase = returned })

  pub data Reaches (Changes Drifts : W → W → Type 0) (s : Loop W) : Loop W → Type 0 where
    here : Reaches Changes Drifts s s
    next :
        {t u : Loop W}
        → Reaches Changes Drifts s t
        → Moves Changes Drifts t u
        → Reaches Changes Drifts s u

-- The state of publish: the stores of the informers, and what was published last.
pub record Central : Type 0 where
  pub stores : Stores
  pub full_names : List String
  pub events : List Event
  pub last : Map Pool
  -- What the controller of the ResourceSlices was told to publish.
  pub published : Map Pool

module _ (t : SnapshotTools) (driver_name : String) (capacity : Bool)
    (deep_equal : Map Pool → Map Pool → Bool) where
  refresh_central : Central → Result (Map Pool × Bool) × Central
  refresh_central c =
      let r = resources t driver_name capacity c.stores c.full_names in
      (
        ok (r.pools, not (deep_equal r.pools c.last)),
        record c { full_names = r.full_names; events = c.events ++ r.events },
      )

  publish_central : Map Pool → Central → Option Error × Central
  publish_central pools c = (none, record c { last = pools; published = pools })

  -- The functions that publish gives to the loop.
  unfoldable pub central : Refresher Central (Map Pool)
  unfolding refresh_central publish_central
  central = record { refresh = refresh_central; publish = publish_central }

  -- publish up to the loop: the first snapshot is published.
  unfoldable pub start_central : Stores → Central
  start_central stores =
      let r = resources t driver_name capacity stores [] in
      record {
        stores = stores;
        full_names = r.full_names;
        events = r.events;
        last = r.pools;
        published = r.pools;
      }
