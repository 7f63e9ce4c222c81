-- ===== src/Command/Leader.antt =====
-- The command of the publisher in cmd/kube-ovn-dra-kubeletplugin/publisher.go: newPublisherApp,
-- runPublisher as a step relation between the leader election and the goroutine that publishes, and
-- publish up to its loop.
pub mod Exits
use kube_ovn_dra_driver.Prelude.{
  ℕ, Bool, true, false, String, Option, none, some, List, [], ◌∷◌, Map, ◌≡◌, ◌⊎◌, Error, message,
  Result, ok, err,
}
use kube_ovn_dra_driver.Exec.{Exec, pure, fail, wrapping, ◌>>=◌, ◌>>◌}
use kube_ovn_dra_driver.Publisher.Device.{Pool}
use kube_ovn_dra_driver.DeviceState.Start.{act, observe}
use kube_ovn_dra_driver.Plugin.Snapshot.{Stores, SnapshotTools}
use kube_ovn_dra_driver.Plugin.Refresh.{Central, start_central}
use kube_ovn_dra_driver.Command.{Values, optional, required_flag}

pub record PublisherFlags : Type 0 where
  pub driver_name : String
  pub namespace : String
  pub lease_name : String
  pub identity : String
  pub owner_cluster_role : String
  pub capacity : Bool

-- The flags of newPublisherApp, each with its destination.
unfoldable pub publisher_flags : Values → PublisherFlags
publisher_flags v = record {
  driver_name = v.text (optional "driver-name" (some "nic.kubeovn.io") "DRIVER_NAME");
  namespace = v.text (required_flag "namespace" "NAMESPACE");
  lease_name = v.text (optional "lease-name" (some "kube-ovn-dra-publisher") "LEASE_NAME");
  identity = v.text (required_flag "identity" "POD_NAME");
  owner_cluster_role = v.text (required_flag "owner-cluster-role" "OWNER_CLUSTER_ROLE");
  capacity = v.bool (optional "capacity" (some true) "PUBLISH_CAPACITY");
}

-- Before and Action. `new_client_sets` makes the clients, and `run` is runPublisher.
module _ {W : Type 0} (apply_logging new_client_sets : W → Option Error × W)
    (run : PublisherFlags → W → Option Error × W) where
  unfoldable pub publisher_before : List String → Exec W (Unit {0})
  publisher_before [] = act apply_logging
  publisher_before (arg ∷ args) = fail (message "arguments not supported: %v" (arg ∷ args))

  unfoldable pub publisher_action : PublisherFlags → Exec W (Unit {0})
  publisher_action f = wrapping "create client" [] (act new_client_sets) >> act (run f)

-- The owner of the ResourceSlices.
pub record Owner : Type 0 where
  pub api_version : String
  pub kind : String
  pub name : String
  pub uid : String

-- The API server, the informers and the controller of the ResourceSlices.
pub record Controllers (W : Type 0) : Type 0 where
  -- the name and the UID of a ClusterRole
  pub get_cluster_role : String → W → Result (String × String)
  pub add_handler : String → W → Option Error × W
  pub start : W → W
  -- WaitForCacheSync, with the cause of the context where it is false
  pub wait_for_sync : W → Option Error × W
  pub stores : W → Stores
  pub start_controller : Owner → Map Pool → W → Option Error × W

module _ {W : Type 0} (c : Controllers W) where
  unfoldable pub owner_of : String → Exec W Owner
  owner_of name = do
    role ← wrapping "get owner ClusterRole %s" (name ∷ []) (observe (c.get_cluster_role name))
    pure (record {
      api_version = "rbac.authorization.k8s.io/v1";
      kind = "ClusterRole";
      name = role.0;
      uid = role.1;
    })

  unfoldable pub add_handlers : List String → Exec W (Unit {0})
  add_handlers [] = pure tt
  add_handlers (r ∷ rs) = wrapping "watch" [] (act (c.add_handler r)) >> add_handlers rs

  start_factories : Exec W (Unit {0})
  start_factories w = (ok tt, c.start w)

  first_snapshot :
      SnapshotTools → (deep_equal : Map Pool → Map Pool → Bool) → PublisherFlags → Exec W Central
  first_snapshot t deep_equal f w =
      (ok (start_central t f.driver_name f.capacity deep_equal (c.stores w)), w)

  -- publish up to refreshDevicesLoop, with the state in which that begins.
  unfoldable pub start_publish :
      SnapshotTools → (deep_equal : Map Pool → Map Pool → Bool) → PublisherFlags → Exec W Central
  unfolding owner_of add_handlers start_factories first_snapshot
  start_publish t deep_equal f = do
    owner ← owner_of f.owner_cluster_role
    add_handlers ("subnets" ∷ "vlans" ∷ "ips" ∷ "resourceclaims" ∷ [])
    start_factories
    wrapping "sync informers" [] (act c.wait_for_sync)
    first ← first_snapshot t deep_equal f
    wrapping "start resource slice controller" [] (act (c.start_controller owner first.published))
    pure first

-- Where elector.Run stands: it waits for the lease, holds it, has returned, or runPublisher has too,
-- with its result.
pub data Phase : Type 0 where
  campaigning leading stopped : Phase
  exited : Option Error → Phase

-- `done` is whether the context of runPublisher is, `publishing` whether the goroutine of
-- OnStartedLeading runs publish, `cancelling` whether it is about to call cancel, and `failed` is what
-- the channel holds. `interrupted` and `lost` remember whether the outer context was done, and whether
-- the lease was lost.
pub record Election : Type 0 where
  pub phase : Phase
  pub done : Bool
  pub publishing : Bool
  pub cancelling : Bool
  pub failed : Option Error
  pub interrupted : Bool
  pub lost : Bool

abbrev pub campaign : Election
campaign = record {
  phase = campaigning;
  done = false;
  publishing = false;
  cancelling = false;
  failed = none;
  interrupted = false;
  lost = false;
}

pub data Step : Election → Election → Type 0 where
  elected :
      (s : Election)
      → s.phase ≡ campaigning
      → Step s (record s { phase = leading; publishing = true })
  interrupts : (s : Election) → Step s (record s { done = true; interrupted = true })
  -- The lease is not renewed in time.
  loses : (s : Election) → s.phase ≡ leading → Step s (record s { phase = stopped; lost = true })
  -- publish returns an error while its context is not done: failed <- err, and then cancel().
  fails :
      (s : Election) (e : Error)
      → s.publishing ≡ true
      → s.done ≡ false
      → Step s (record s { publishing = false; cancelling = true; failed = some e })
  cancels :
      (s : Election) → s.cancelling ≡ true → Step s (record s { done = true; cancelling = false })
  -- publish returns nil, or an error that is not reported; it returns nil only when its loop ends, with
  -- the context.
  ends :
      (s : Election)
      → s.publishing ≡ true
      → (s.done ≡ true) ⊎ (s.lost ≡ true)
      → Step s (record s { publishing = false })
  -- elector.Run returns since its context is done.
  runs_out :
      (s : Election)
      → (s.phase ≡ campaigning) ⊎ (s.phase ≡ leading)
      → s.done ≡ true
      → Step s (record s { phase = stopped })
  -- The select behind elector.Run.
  exits : (s : Election) → s.phase ≡ stopped → Step s (record s { phase = exited s.failed })

pub data Runs : Election → Type 0 where
  starts : Runs campaign
  steps : {s t : Election} → Runs s → Step s t → Runs t
