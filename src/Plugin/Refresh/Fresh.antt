-- ===== src/Plugin/Refresh/Fresh.antt =====
-- No change is lost between the informers and the loop of refresh.go.
use kube_ovn_dra_driver.Prelude.{String, Bool, true, false, List, [], ◌≡◌, ◌++◌, if◌then◌else◌, Map}
use kube_ovn_dra_driver.Publisher.Device.{Pool}
use kube_ovn_dra_driver.Plugin.Snapshot.{Stores, SnapshotTools, Snapshot, resources}
use kube_ovn_dra_driver.Plugin.Refresh.{
  Refresher, waiting, Loop, round, Turns, wakes, fires, rounds, Moves, turns, changes, drifts,
  stops, Reaches, here, next, Central,
}

-- The loop waits, and no trigger is in the channel.
abbrev pub IsResting : {W : Type 0} → Loop W → Type 0
IsResting s = (s.phase ≡ waiting) × (s.pending ≡ false)

-- What a round needs of the world, what it brings about, that changes keep the former, and that a
-- drift keeps both.
pub record IsRefreshed {W R : Type 0} (f : Refresher W R) (Sound UpToDate : W → Type 0)
    (Changes Drifts : W → W → Type 0) : Type 0 where
  pub round_sound : (w : W) → Sound w → Sound (round f w)
  pub round_fresh : (w : W) → Sound w → UpToDate (round f w)
  pub change_sound : (w v : W) → Changes w v → Sound w → Sound v
  pub drift_sound : (w v : W) → Drifts w v → Sound w → Sound v
  pub drift_fresh : (w v : W) → Drifts w v → UpToDate w → UpToDate v

module _ {W R : Type 0} {f : Refresher W R} {Sound UpToDate : W → Type 0}
    {Changes Drifts : W → W → Type 0} (laws : IsRefreshed f Sound UpToDate Changes Drifts) where
  pub record IsFresh (s : Loop W) : Type 0 where
    pub sound : Sound s.world
    pub fresh : s.phase ≡ waiting → s.pending ≡ false → UpToDate s.world

  Turns-IsFresh : {s u : Loop W} → Turns f s u → IsFresh s → IsFresh u
  Turns-IsFresh (wakes s p q) i = record { sound = i.sound; fresh = λ a b. cc }
  Turns-IsFresh (fires s p) i = record { sound = i.sound; fresh = λ a b. cc }
  Turns-IsFresh (rounds s p) i = record {
    sound = laws.round_sound s.world i.sound;
    fresh = λ a b. laws.round_fresh s.world i.sound;
  }

  Moves-IsFresh : {s u : Loop W} → Moves f Changes Drifts s u → IsFresh s → IsFresh u
  Moves-IsFresh (turns s u m) i = Turns-IsFresh m i
  Moves-IsFresh (changes s w c) i = record {
    sound = laws.change_sound s.world w c i.sound;
    fresh = λ a b. cc;
  }
  Moves-IsFresh (drifts s w d) i = record {
    sound = laws.drift_sound s.world w d i.sound;
    fresh = λ a b. laws.drift_fresh s.world w d (i.fresh a b);
  }
  Moves-IsFresh (stops s p) i = record { sound = i.sound; fresh = λ a b. cc }

  pub Reaches-IsFresh : {s u : Loop W} → IsFresh s → Reaches f Changes Drifts s u → IsFresh u
  Reaches-IsFresh h here = h
  Reaches-IsFresh h (next r m) = Moves-IsFresh m (Reaches-IsFresh h r)

abbrev pub Owners : Type 0
Owners = String → String → List String

-- The informers change the stores, and nothing else. `Given` holds of all answers about owners.
abbrev pub ChangesStores : (Owners → Type 0) → Central → Central → Type 0
ChangesStores Given c d = (d ≡ record c { stores = d.stores }) × Given d.stores.owners

-- The answers about the owners of addresses change: the API server is read for them, and entries of
-- the cache expire, but no informer reports it.
abbrev pub DriftsOwners : (Owners → Type 0) → Central → Central → Type 0
DriftsOwners Given c d =
    (o : Owners) × (d ≡ record c { stores = record c.stores { owners = o } }) × Given o

module _ (t : SnapshotTools) (driver_name : String) (capacity : Bool)
    (deep_equal : Map Pool → Map Pool → Bool) (Given : Owners → Type 0) where
  -- The pools of the stores, by their own computation.
  pub pools_of : Stores → Map Pool
  pools_of stores = (resources t driver_name capacity stores []).pools

  abbrev with_owners : Stores → Owners → Stores
  with_owners stores o = record stores { owners = o }

  abbrev IsPublished : Central → Type 0
  IsPublished c = (c.published ≡ c.last) × Given c.stores.owners

  -- Published is what the stores give, with answers about owners that were given at some time.
  abbrev pub UpToDate : Central → Type 0
  UpToDate c =
      (o : Owners) × Given o × (deep_equal (pools_of (with_owners c.stores o)) c.published ≡ true)

  -- The world after a round that found the snapshot `r`, changed or not.
  abbrev after : Bool → Central → Snapshot → Central
  after changed c r =
      let read = record c { full_names = r.full_names; events = c.events ++ r.events } in
      if changed then record read { last = r.pools; published = r.pools } else read
