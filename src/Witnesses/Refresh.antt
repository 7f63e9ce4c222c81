-- ===== src/Witnesses/Refresh.antt =====
-- The properties of the publisher's snapshot and of its loop at one Subnet that is added while the
-- loop waits.
use kube_ovn_dra_driver.Prelude.{
  ◌+◌, ◌<◌, ◌≢◌, update, ◌^◌, ◌≤◌, String, ◌==◌, Bool, true, false, none, some, List, [], ◌∷◌, ◌≡◌,
  ◌↔◌, ◌⊎◌, refl, arith, Map, empty_map, ok, leb, if◌then◌else◌,
}
use kube_ovn_dra_driver.Publisher.Device.{Pool}
use kube_ovn_dra_driver.Publisher.Parse.{text, Unstructured, Floats, status_count}
use kube_ovn_dra_driver.Publisher.Parse.Counters.{FloatLaws, status_count_bounded}
use kube_ovn_dra_driver.Plugin.Snapshot.{Stores, SnapshotTools, resources}
use kube_ovn_dra_driver.Plugin.Snapshot.Published.{is_some, Some, Publishes, resources_iff}
use kube_ovn_dra_driver.Plugin.Refresh.{
  Loop, waiting, delaying, refreshing, returned, round, Turns, wakes, fires, rounds, Reaches,
  Central, central, start_central,
}
use kube_ovn_dra_driver.Plugin.Refresh.Fresh.{IsResting, Owners, ChangesStores, DriftsOwners}
use kube_ovn_dra_driver.Plugin.Refresh.Rest.{Runs, stays, goes, loop_comes_to_rest}
use kube_ovn_dra_driver.NicPrepare.{has_char}
use kube_ovn_dra_driver.Plugin.Owners.{
  Entry, PodAnswer, found, failed, owner_names, owners, cache_key, Read, IsAmong, IsSound,
  update-IsSound, owners_cached,
}
use kube_ovn_dra_driver.Witnesses.Published.{labels}

-- Floats that are whole numbers.
abbrev pub whole : Floats
whole = record {
  is_nan = λ x. false;
  is_negative = λ x. false;
  is_large = λ x. leb (2 ^ 53) x;
  to_int64 = λ x. x;
  min_large = λ x. if leb (2 ^ 53) x then 2 ^ 53 else x;
  scan = λ s. if s == "12" then some 12 else none;
}

whole_laws : FloatLaws whole
whole_laws = record {
  to_int64_small = λ x n m l. ground arith;
  min_large_small = λ x n m. ground arith;
}

abbrev pub subnet_object : Unstructured
subnet_object = record {
  name = "sub";
  uid = "s1";
  spec = some (λ key.
      if key == "provider"
      then some (text "sub.default.ovn")
      else if key == "cidrBlock"
      then some (text "10.1.0.0/24")
      else none);
  status = some (λ key. if key == "v4availableIPs" then some (text "12") else none);
}

status_count_bounded_example : status_count whole subnet_object "v4availableIPs" ≤ 2 ^ 53
status_count_bounded_example =
    status_count_bounded whole whole_laws subnet_object "v4availableIPs" (λ x h. refl)

abbrev tools : SnapshotTools
tools = record {
  floats = whole;
  trim_space = λ s. s;
  prefix_is_4 = λ s. if s == "10.1.0.0/24" then some true else none;
  names = labels;
  sort_by_name = λ ss. ss;
}

abbrev no_subnet : Stores
no_subnet = record {
  subnets = [];
  vlans = λ name. ok none;
  ips = [];
  claims = [];
  owners = λ namespace pod. pod ∷ [];
}

abbrev one_subnet : Stores
one_subnet = record no_subnet { subnets = some subnet_object ∷ none ∷ [] }

resources_iff_example :
    (is_some ((resources tools "nic.kubeovn.io" true one_subnet []).pools "sub") ≡ true)
    ↔ Some (Publishes tools "nic.kubeovn.io" true one_subnet "sub") (some subnet_object ∷ none ∷ [])
resources_iff_example = resources_iff tools "nic.kubeovn.io" true one_subnet "sub" [] (λ p ss. refl)

-- Equality at the one pool that there is.
abbrev both : Bool → Bool → Bool
both true b = b
both false true = false
both false false = true

abbrev equal_at_sub : Map Pool → Map Pool → Bool
equal_at_sub p q = both (is_some (p "sub")) (is_some (q "sub"))

abbrev began : Central
began = start_central tools "nic.kubeovn.io" true equal_at_sub no_subnet

abbrev grown : Central
grown = record began { stores = one_subnet }

-- An answer about owners that has the pod itself.
abbrev Named : Owners → Type 0
Named o = (namespace pod : String) → (rest : List String) × (o namespace pod ≡ pod ∷ rest)

abbrev Published : Loop Central → Loop Central → Type 0
Published =
    Reaches (central tools "nic.kubeovn.io" true equal_at_sub) (ChangesStores Named)
      (DriftsOwners Named)

abbrev began_loop : Loop Central
began_loop = record { phase = waiting; pending = false; world = began }

abbrev rounded : Central
rounded = round (central tools "nic.kubeovn.io" true equal_at_sub) grown

abbrev rested : Loop Central
rested = record { phase = waiting; pending = false; world = rounded }

three_turns :
    Runs
      (central tools "nic.kubeovn.io" true equal_at_sub)
      3
      (record { phase = waiting; pending = true; world = grown })
      rested
three_turns =
    goes
      (goes
        (goes (stays _)
          (wakes (record { phase = waiting; pending = true; world = grown }) refl refl))
        (fires (record { phase = delaying; pending = false; world = grown }) refl))
      (rounds (record { phase = refreshing; pending = false; world = grown }) refl)

loop_comes_to_rest_example :
    (◌≤◌ 3 4)
    × (IsResting rested
        ⊎ (rested.phase ≡ returned)
        ⊎ ((v : Loop Central) × Turns (central tools "nic.kubeovn.io" true equal_at_sub) rested v))
loop_comes_to_rest_example =
    loop_comes_to_rest (central tools "nic.kubeovn.io" true equal_at_sub) 3
      (record { phase = waiting; pending = true; world = grown }) rested three_turns

-- The label of the pod's VM is gone since the pod was read, at 6 seconds.
abbrev unlabelled : String → String → PodAnswer
unlabelled namespace pod = found ""

abbrev first_read : Read
first_read = record { namespace = "default"; pod = "web"; time = 6; answer = found "vm1" }

abbrev read_cache : Map Entry
read_cache =
    update empty_map (cache_key "default" "web")
      (some (record { names = "web" ∷ "vm1" ∷ []; expires = 66 }))

no_slash : has_char b'/' "default" ≡ false
unfolding has_char
no_slash = refl

read_cache-IsSound : IsSound (first_read ∷ []) read_cache
unfolding owner_names
read_cache-IsSound =
    update-IsSound "default" "web" no_slash (found "vm1") 6 [] empty_map (λ e. cc e)
      (record { at_key = λ n p e h there. cc there })

owners_cached_example :
    let (names, cache) = owners unlabelled 50 51 "default" "web" read_cache in
    ((r : Read) × IsAmong r (first_read ∷ [])
      × (r.namespace ≡ "default")
      × (r.pod ≡ "web")
      × (r.answer ≢ failed)
      × (50 < r.time + 60)
      × (names ≡ owner_names "web" r.answer)
      × (cache ≡ read_cache))
    ⊎ ((names ≡ owner_names "web" (found ""))
        × IsSound
            (record { namespace = "default"; pod = "web"; time = 51; answer = found "" }
              ∷ first_read
              ∷ [])
            cache)
owners_cached_example =
    owners_cached "default" "web" no_slash unlabelled 50 51 (first_read ∷ []) read_cache
      read_cache-IsSound
