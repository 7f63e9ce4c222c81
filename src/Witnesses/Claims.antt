-- ===== src/Witnesses/Claims.antt =====
-- The properties of claims, configs, annotations and of pkg/nicprepare at concrete inputs.
use kube_ovn_dra_driver.Prelude.{
  String, ◌==◌, ◌≡◌, ◌↔◌, refl, none, some, List, [], ◌∷◌, Result, ok, keep,
}
use kube_ovn_dra_driver.Claim.{nic_config}
use kube_ovn_dra_driver.Config.{OpaqueDeviceConfig, get_opaque_device_configs, last_match, number}
use kube_ovn_dra_driver.Config.Precedence.{winner, Picked, get_opaque_device_configs_precedence}
use kube_ovn_dra_driver.Annotation.{Pod, poll}
use kube_ovn_dra_driver.Annotation.Waiting.{Outcome, poll-Outcome}
use kube_ovn_dra_driver.NicPrepare.{PodRead, found, lookup_pod_for_claim}
use kube_ovn_dra_driver.NicPrepare.Sharing.{live, OneVm, lookup_pod_for_claim_iff}
use kube_ovn_dra_driver.Witnesses.Data.{net_config, decode, web, web_claim}

abbrev same : String → String
same s = s

abbrev two_configs : List OpaqueDeviceConfig
two_configs =
    record { requests = "nic" ∷ []; config = some (nic_config (record { interface_name = "a" })) }
    ∷ record { requests = "nic" ∷ []; config = some (nic_config (record { interface_name = "b" })) }
    ∷ []

two_decoded :
    get_opaque_device_configs decode "nic.kubeovn.io" (net_config "a" ∷ net_config "b" ∷ [])
    ≡ ok two_configs
unfolding get_opaque_device_configs
two_decoded = refl

get_opaque_device_configs_precedence_example :
    Picked decode "nic.kubeovn.io" same
      (winner decode "nic.kubeovn.io" same "nic" (net_config "a" ∷ net_config "b" ∷ []))
      (last_match same "nic" (number 0 (record { requests = []; config = none } ∷ two_configs)))
get_opaque_device_configs_precedence_example =
    get_opaque_device_configs_precedence decode "nic.kubeovn.io" same "nic"
      (net_config "a" ∷ net_config "b" ∷ []) two_configs two_decoded

abbrev waiting_then_done : List (Result Pod)
waiting_then_done = ok web ∷ []

poll-Outcome_example :
    Outcome ("other" ∷ "sub" ∷ []) waiting_then_done (poll ("other" ∷ "sub" ∷ []) waiting_then_done)
poll-Outcome_example = poll-Outcome ("other" ∷ "sub" ∷ []) waiting_then_done

abbrev get_web : String → PodRead
get_web name = found web

lookup_pod_for_claim_iff_example : (lookup_pod_for_claim get_web web_claim "node1" ≡ ok web) ↔ (
    (keep (λ (p : Pod). p.node_name == "node1") (live get_web web_claim.reserved_for) ≡ web ∷ [])
    × OneVm (live get_web web_claim.reserved_for))
lookup_pod_for_claim_iff_example =
    lookup_pod_for_claim_iff get_web web_claim "node1" web ((λ _. tt), tt)
