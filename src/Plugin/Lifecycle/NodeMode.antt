-- ===== src/Plugin/Lifecycle/NodeMode.antt =====
-- What the plugin of a node publishes in node mode: NewDriver of
-- cmd/kube-ovn-dra-kubeletplugin/driver.go with the loop of refresh.go.
use kube_ovn_dra_driver.Prelude.{true, none, ◌≡◌, ok}
use kube_ovn_dra_driver.DeviceState.Host.{Resources, Settings, Host, State, allocatable_devices}
use kube_ovn_dra_driver.Plugin.Lifecycle.{Services}
use kube_ovn_dra_driver.Plugin.Lifecycle.Started.{IsServices}

-- What the plugin relies on: PublishResources returns no error, tells the API server what it was
-- given (`published`), and leaves the Subnets and Vlans alone.
pub record IsPublisher {W : Type 0} (host : Host W) (services : Services W)
    (published : W → Resources) : Type 0 where
  pub plain : IsServices services published
  pub publishes : (r : Resources) (w : W) → (services.publish_resources r w).0 ≡ none
  pub enumerate-publish :
      (r : Resources) (w : W) → host.enumerate (services.publish_resources r w).1 ≡ host.enumerate w

module _ {W : Type 0} (services : Services W) (s : Settings) (host : Host W)
    (published : W → Resources) where
  -- What was published last is what the plugin took for its devices last.
  abbrev pub IsPublished : State W → Type 0
  IsPublished st = published st.world ≡ st.driver_resources

  -- What was published last is what the node has, up to the equality that the code compares with.
  abbrev pub UpToDate : State W → Type 0
  UpToDate st =
      (r : Resources) → host.enumerate st.world ≡ ok r → s.deep_equal r (published st.world) ≡ true

  abbrev pub Readable : State W → Type 0
  Readable st = (r : Resources) × (host.enumerate st.world ≡ ok r)

  -- Kubernetes changes its objects, and the devices can be read before and after.
  abbrev pub Changes : State W → State W → Type 0
  Changes st st' =
      (st'.driver_resources ≡ st.driver_resources)
      × (published st'.world ≡ published st.world)
      × Readable st'

  -- Claims are prepared and unprepared, and the like: the devices stay as they are.
  abbrev pub Drifts : State W → State W → Type 0
  Drifts st st' =
      (st'.driver_resources ≡ st.driver_resources)
      × (published st'.world ≡ published st.world)
      × (host.enumerate st'.world ≡ host.enumerate st.world)

  abbrev IsSound : State W → Type 0
  IsSound st = IsPublished st × Readable st

  abbrev with_resources : Resources → State W → State W
  with_resources r st = record st {
    driver_resources = r;
    allocatable = allocatable_devices r s.node_name;
    world = (services.publish_resources r st.world).1;
  }
