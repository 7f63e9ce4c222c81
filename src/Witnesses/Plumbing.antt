-- ===== src/Witnesses/Plumbing.antt =====
-- The properties of pkg/plumbing at concrete NICs.
use kube_ovn_dra_driver.Prelude.{
  String, ◌==◌, ◌&&◌, ◌++◌, ◌≡◌, ◌≢◌, ◌⊎◌, refl, arith, Option, none, some, List, [], ◌∷◌, map,
  empty_map, update, get_list, Error, message, ok, if◌then◌else◌,
}
use kube_ovn_dra_driver.Store.{add, remove_claim, new_nic_store}
use kube_ovn_dra_driver.Store.Lookup.{find_nic, find_nic-add-remove_claim}
use kube_ovn_dra_driver.Store.Distinct.{
  IsWellFormed, new_nic_store-IsWellFormed, add-remove_claim-IsWellFormed,
}
use kube_ovn_dra_driver.Sandbox.{
  sandbox_specs, on_run_pod_sandbox, on_synchronize_sandbox, on_stop_pod_sandbox,
}
use kube_ovn_dra_driver.Sandbox.Rollback.{
  Call, detaches, detaches_ports, recording, RunOutcome, on_run_pod_sandbox_all_or_nothing,
}
use kube_ovn_dra_driver.Sandbox.Sync.{
  SyncOutcome, on_synchronize_sandbox_tries_all, on_stop_pod_sandbox_detaches_all,
}
use kube_ovn_dra_driver.Attach.{validate, attach}
use kube_ovn_dra_driver.Attach.Routes.{v4, IpNet, GatewayFits, parse, parse_is_safe}
use kube_ovn_dra_driver.Dhcp.{classless_static_routes, route_bytes}
use kube_ovn_dra_driver.Dhcp.Routes.{
  IsMasked, read_routes, client_routes, classless_static_routes_round_trip,
}
use kube_ovn_dra_driver.Witnesses.Data.{nic, two_nics, attached_nics, small_net, to_office}
use kube_ovn_dra_driver.Attach.Steps

find_nic-add-remove_claim_example :
    (find_nic (add two_nics (nic "u1" "net3")) "p1" "u1" "net1" ≡ (
      if (nic "u1" "net3").pod_uid == "p1"
        && ((nic "u1" "net3").claim_uid == "u1" && (nic "u1" "net3").iface_name == "net1")
      then some (nic "u1" "net3")
      else find_nic two_nics "p1" "u1" "net1"))
    × (find_nic (remove_claim two_nics "u2") "p1" "u1" "net1"
        ≡ (if "u2" == "u1" then none else find_nic two_nics "p1" "u1" "net1"))
find_nic-add-remove_claim_example =
    find_nic-add-remove_claim two_nics (nic "u1" "net3") "u2" "p1" "u1" "net1"

add-remove_claim-IsWellFormed_example :
    IsWellFormed (add new_nic_store (nic "u1" "net1"))
    × IsWellFormed (remove_claim new_nic_store "u1")
add-remove_claim-IsWellFormed_example =
    add-remove_claim-IsWellFormed new_nic_store (nic "u1" "net1") "u1" new_nic_store-IsWellFormed

abbrev second_fails : List Call → Call → Option Error
second_fails [] c = none
second_fails _ c = some (message "link busy" [])

on_run_pod_sandbox_all_or_nothing_example :
    RunOutcome second_fails "p1"
      (sandbox_specs two_nics "p1" "c1" "/run/netns/a" empty_map)
      two_nics
      []
      (on_run_pod_sandbox (recording second_fails) "p1" "c1" "/run/netns/a" empty_map two_nics [])
on_run_pod_sandbox_all_or_nothing_example =
    on_run_pod_sandbox_all_or_nothing second_fails "p1" "c1" "/run/netns/a" empty_map two_nics []

on_synchronize_sandbox_tries_all_example :
    SyncOutcome second_fails "p1"
      (sandbox_specs two_nics "p1" "c1" "/run/netns/a" empty_map)
      two_nics
      []
      (on_synchronize_sandbox
        (recording second_fails)
        "p1"
        "c1"
        "/run/netns/a"
        empty_map
        two_nics
        [])
on_synchronize_sandbox_tries_all_example =
    on_synchronize_sandbox_tries_all second_fails "p1" "c1" "/run/netns/a" empty_map two_nics []

on_stop_pod_sandbox_detaches_all_example :
    let h = on_stop_pod_sandbox (recording second_fails) "p1" "web" "default" attached_nics [] in
    (h.host
      ≡ []
        ++ (map detaches (get_list (attached_nics.attached "p1"))
            ++ detaches_ports "web" "default" ∷ []))
    × (h.store.attached ≡ update attached_nics.attached "p1" none)
    × (h.store.by_pod ≡ attached_nics.by_pod)
on_stop_pod_sandbox_detaches_all_example =
    on_stop_pod_sandbox_detaches_all second_fails "p1" "web" "default" attached_nics []

abbrev binding_fails : List Steps.Op → Steps.Op → Option Error
binding_fails w (Steps.binds h s) = some (message "ovs-vsctl" [])
binding_fails w _ = none

attach_undoes_or_completes_example :
    ((x : Error) × (validate (nic "u1" "net1") ≡ some x)
      × (attach (λ s. "0011") (Steps.recording binding_fails 1500) (nic "u1" "net1") []
          ≡ (some x, [])))
    ⊎ ((validate (nic "u1" "net1") ≡ none)
        × Steps.StepsOutcome binding_fails
            (Steps.attach_steps "vh0011" "vc0011" (nic "u1" "net1"))
            []
            (attach (λ s. "0011") (Steps.recording binding_fails 1500) (nic "u1" "net1") []))
attach_undoes_or_completes_example =
    Steps.attach_undoes_or_completes binding_fails 1500 (λ s. "0011") (nic "u1" "net1") []

office_parsed :
    parse small_net to_office "" ≡ ok (record { ip = v4 10 2 0 0; ones = 16 }, some (v4 10 1 0 1))
unfolding parse
office_parsed = refl

parse_is_safe_example :
    let dst : IpNet = record { ip = v4 10 2 0 0; ones = 16 } in
    (dst.ones ≢ 0)
    × (small_net.parse_cidr to_office.destination ≡ some dst)
    × GatewayFits dst (some (v4 10 1 0 1))
    × ((to_office.gateway ≡ "") ⊎ (small_net.parse_ip to_office.gateway ≡ some (v4 10 1 0 1)))
parse_is_safe_example =
    parse_is_safe small_net to_office "" (record { ip = v4 10 2 0 0; ones = 16 })
      (some (v4 10 1 0 1)) office_parsed

small_net-IsMasked : (s : String) (n : IpNet) → small_net.parse_cidr s ≡ some n → IsMasked n
small_net-IsMasked s n e = ground arith

office_bytes :
    classless_static_routes small_net (to_office ∷ []) "" ≡ ok (16 ∷ 10 ∷ 2 ∷ 10 ∷ 1 ∷ 0 ∷ 1 ∷ [])
unfolding classless_static_routes parse route_bytes
office_bytes = refl

classless_static_routes_round_trip_example :
    read_routes 2 (16 ∷ 10 ∷ 2 ∷ 10 ∷ 1 ∷ 0 ∷ 1 ∷ [])
    ≡ some (client_routes small_net (to_office ∷ []) "")
classless_static_routes_round_trip_example =
    classless_static_routes_round_trip small_net (to_office ∷ []) ""
      (16 ∷ 10 ∷ 2 ∷ 10 ∷ 1 ∷ 0 ∷ 1 ∷ []) 2 small_net-IsMasked office_bytes (omega arith)
