-- ===== src/Witnesses/Around.antt =====
-- The properties of the NRI plugin and the profile at concrete inputs.
use kube_ovn_dra_driver.Prelude.{
  ◌≡◌, refl, arith, true, false, none, some, List, [], ◌∷◌, empty_map, ok, keep, map, All, eq_iff,
}
use kube_ovn_dra_driver.Store.{Spec}
use kube_ovn_dra_driver.Sandbox.{Attacher}
use kube_ovn_dra_driver.Publisher.{Subnet}
use kube_ovn_dra_driver.Publisher.Device.{device, publishable, is_ovn_provider}
use kube_ovn_dra_driver.NicPrepare.{split}
use kube_ovn_dra_driver.Plugin.Runtime.{PodSandbox, NriPlugin, retry_failed, network_namespace_path}
use kube_ovn_dra_driver.Plugin.Runtime.Retries.{IsWaiting}
use kube_ovn_dra_driver.Plugin.Runtime.Drained.{retry_failed-drains}
use kube_ovn_dra_driver.Profile.{enumerate_items}
use kube_ovn_dra_driver.Profile.Agreement.{parsed, is_published, enumerate_items_agrees}
use kube_ovn_dra_driver.Witnesses.Data.{two_nics}
use kube_ovn_dra_driver.Witnesses.Published.{office, labels}

abbrev web_sandbox : PodSandbox
web_sandbox = record {
  uid = "p1";
  id = "c1";
  name = "web";
  namespace = "default";
  labels = empty_map;
  namespaces = some (record { type = "network"; path = "/run/netns/a" } ∷ []);
}

abbrev pub willing : Attacher (List Spec)
willing = record {
  attach = λ s w. (none, s ∷ w);
  detach = λ s w. (none, w);
  detach_pod_ports = λ n ns w. (none, w);
}

abbrev one_failed : NriPlugin (List Spec)
one_failed = record { ready = true; failed = ("p1", web_sandbox) ∷ []; store = two_nics; host = [] }

one_failed-IsWaiting : All IsWaiting one_failed.failed
unfolding network_namespace_path
one_failed-IsWaiting = ((refl, λ e. ground (arith, e, eq_iff "/run/netns/a" "")), tt)

retry_failed-drains_example : (retry_failed willing one_failed).failed ≡ []
retry_failed-drains_example =
    retry_failed-drains willing one_failed (λ s w. refl) one_failed-IsWaiting

one_enumerated :
    (enumerate_items labels empty_map (none ∷ some (ok office) ∷ []) empty_map).devices
    ≡ ok (device labels office false ∷ [])
unfolding enumerate_items publishable is_ovn_provider split
one_enumerated = refl

enumerate_items_agrees_example :
    device labels office false ∷ []
    ≡ map
        (λ (s : Subnet). device labels s false)
        (keep (is_published labels empty_map) (parsed (none ∷ some (ok office) ∷ [])))
enumerate_items_agrees_example =
    enumerate_items_agrees labels empty_map (none ∷ some (ok office) ∷ []) empty_map
      (device labels office false ∷ []) one_enumerated
