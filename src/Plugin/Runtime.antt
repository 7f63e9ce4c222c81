-- ===== src/Plugin/Runtime.antt =====
-- The NRI plugin of cmd/kube-ovn-dra-kubeletplugin/nri.go. `failed` is a Go map: its entries in some
-- order, each key once.
pub mod Retries
pub mod Drained
use kube_ovn_dra_driver.Prelude.{
  String, ◌==◌, Bool, true, false, Option, none, some, List, [], ◌∷◌, Map, map, Error, is_empty,
  if◌then◌else◌,
}
use kube_ovn_dra_driver.Store.{NicStore}
use kube_ovn_dra_driver.Sandbox.{
  Attacher, Handled, on_run_pod_sandbox, on_synchronize_sandbox, on_stop_pod_sandbox, returned,
}

pub record Namespace : Type 0 where
  pub type : String
  pub path : String

pub record PodSandbox : Type 0 where
  pub uid : String
  pub id : String
  pub name : String
  pub namespace : String
  pub labels : Map String
  -- nil for a sandbox that is not one of Linux.
  pub namespaces : Option (List Namespace)

unfoldable pub first_network : List Namespace → String
first_network [] = ""
first_network (n ∷ ns) = if n.type == "network" then n.path else first_network ns

unfoldable pub network_namespace_path : PodSandbox → String
unfolding first_network
network_namespace_path sb = elim sb.namespaces [ none ↦ "" | some ns ↦ first_network ns ]

abbrev pub Failed : Type 0
Failed = List (String × PodSandbox)

-- p.failed[uid] = sb
unfoldable pub insert : String → PodSandbox → Failed → Failed
insert uid sb [] = (uid, sb) ∷ []
insert uid sb ((k, old) ∷ f) =
    let rest = insert uid sb f in if k == uid then (k, sb) ∷ f else (k, old) ∷ rest

-- delete(p.failed, uid)
unfoldable pub remove : String → Failed → Failed
remove uid [] = []
remove uid ((k, old) ∷ f) = let rest = remove uid f in if k == uid then rest else (k, old) ∷ rest

pub record NriPlugin {ℓ} (W : Type ℓ) : Type ℓ where
  pub ready : Bool
  pub failed : Failed
  pub store : NicStore
  pub host : W

module _ {ℓ} {W : Type ℓ} (attacher : Attacher W) where
  abbrev pub settle : PodSandbox → Option Error → Failed → Failed
  settle sb none f = remove sb.uid f
  settle sb (some e) f = insert sb.uid sb f

  unfoldable pub sync_sandbox : PodSandbox → NriPlugin W → NriPlugin W
  unfolding insert remove
  sync_sandbox sb p =
      let netns = network_namespace_path sb in
      let h = on_synchronize_sandbox attacher sb.uid sb.id netns sb.labels p.store p.host in
      if netns == ""
      then p
      else record p { failed = settle sb (returned h) p.failed; store = h.store; host = h.host }

  unfoldable pub sync_sandboxes : List PodSandbox → NriPlugin W → NriPlugin W
  sync_sandboxes [] p = p
  sync_sandboxes (sb ∷ sbs) p = sync_sandboxes sbs (sync_sandbox sb p)

  unfoldable pub synchronize : List PodSandbox → NriPlugin W → NriPlugin W
  unfolding sync_sandboxes
  synchronize pods p = record (sync_sandboxes pods p) { ready = true }

  -- One tick of retryFailed.
  unfoldable pub retry_failed : NriPlugin W → NriPlugin W
  unfolding sync_sandboxes
  retry_failed p = sync_sandboxes (map (λ (e : String × PodSandbox). e.1) p.failed) p

  unfoldable pub run_pod_sandbox : PodSandbox → NriPlugin W → Option Error × NriPlugin W
  run_pod_sandbox sb p =
      let netns = network_namespace_path sb in
      let h = on_run_pod_sandbox attacher sb.uid sb.id netns sb.labels p.store p.host in
      if netns == "" then (none, p) else (returned h, record p { store = h.store; host = h.host })

  unfoldable pub stop_pod_sandbox : PodSandbox → NriPlugin W → Option Error × NriPlugin W
  unfolding remove
  stop_pod_sandbox sb p =
      let h = on_stop_pod_sandbox attacher sb.uid sb.name sb.namespace p.store p.host in
      (returned h, record p { failed = remove sb.uid p.failed; store = h.store; host = h.host })
