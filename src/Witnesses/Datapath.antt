-- ===== src/Witnesses/Datapath.antt =====
-- The properties of pkg/plumbing/plumbing_linux.go at a VM's NIC, on kernels that answer each call.
use kube_ovn_dra_driver.Prelude.{
  String, ◌==◌, true, false, none, List, [], ◌∷◌, ◌≡◌, refl, ap, map, message, ◌++◌, sym, ◌∙◌,
  ok-injective, if◌then◌else◌, ok, err,
}
use kube_ovn_dra_driver.Store.{Spec}
use kube_ovn_dra_driver.Attach.{ShortHash, attach, detach, bridge_name_for}
use kube_ovn_dra_driver.Attach.Routes.{v4}
use kube_ovn_dra_driver.Linux.{Texts, Link, add_tap, thread, handle}
use kube_ovn_dra_driver.Linux.Trace.{Call, looks_up, requests, Oracle, recorder, SafeCalls}
use kube_ovn_dra_driver.Linux.Trace.Runs.{Runs, changes}
use kube_ovn_dra_driver.Linux.Servers.{Node, no_servers, set_server, node_kernel}
use kube_ovn_dra_driver.Linux.Bridge.{wire_new, unwire_vmi_bridge}
use kube_ovn_dra_driver.Linux.Bridge.Plan.{wire_plan, FoundAfter, wire_new-Runs}
use kube_ovn_dra_driver.Linux.Bridge.Unwired.{unwire_vmi_bridge_removes_server}
use kube_ovn_dra_driver.Linux.Ovs.{detach_pod_ports}
use kube_ovn_dra_driver.Linux.Ovs.AllPorts.{
  commands, del_port, ports_found, find_call, detach_pod_ports_tries_all,
}
use kube_ovn_dra_driver.Linux.Plumber.{plumber}
use kube_ovn_dra_driver.Linux.Plumber.Routes.{attach_adds_no_default_route}
use kube_ovn_dra_driver.Witnesses.Data.{nic, small_net, to_office}

abbrev pub vm_nic : Spec
vm_nic = record (nic "u1" "net1") { kube_virt_vmi = true; routes = to_office ∷ [] }

abbrev pub plain_texts : Texts
plain_texts = record {
  parse_mac = λ s. ok (10 ∷ 88 ∷ 10 ∷ 1 ∷ 0 ∷ 5 ∷ []);
  format_mac = λ m. "0a:58:0a:01:00:05";
  parse_addr = λ s. ok (record { ip = v4 10 1 0 5; ones = 24; no_dad = false });
  parse_cidr = λ s. ok (v4 10 1 0 5, 255 ∷ 255 ∷ 255 ∷ 0 ∷ []);
  error_text = λ e. "busy";
  to_lower = λ s. s;
  has_text = λ s part. s == part;
  trim_space = λ s. s;
  fields = λ s. s ∷ [];
}

abbrev pub veth : String → Link
veth name = record { name = name; index = 3; kind = "veth"; mac = 2 ∷ 1 ∷ []; mtu = 1400 }

-- Every call succeeds.
abbrev willing : Oracle
willing = record {
  id = λ w c. ok 7;
  link = λ w c. elim c [ looks_up s name ↦ ok (veth name) | _ ↦ err (message "no link" []) ];
  done = λ w c. ok tt;
  output = λ w c. ("vh1", none);
}

abbrev idle : Node (List Call)
idle = record { host = []; servers = no_servers }

abbrev pub short : ShortHash
short s = "1a2b3c4d"

attach_adds_no_default_route_example :
    let d = plumber (node_kernel (recorder willing)) plain_texts small_net short in
    SafeCalls idle (attach short d vm_nic idle).1 × SafeCalls idle (detach short d vm_nic idle).1
attach_adds_no_default_route_example =
    attach_adds_no_default_route willing plain_texts small_net short vm_nic idle

abbrev tap : Link
tap = record (veth "net1") { kind = "tuntap" }

-- The name is the veth's until the tap is asked for.
abbrev renamed : Call → Link → Link
renamed (requests s (add_tap name owner group)) l = tap
renamed _ l = l

abbrev named_now : Link → List Call → Link
named_now l [] = l
named_now l (c ∷ w) = named_now (renamed c l) w

abbrev renaming : Oracle
renaming = record willing {
  link = λ w c. elim c [
    | looks_up s name ↦
        ok (if name == "net1" then named_now (veth "net1") (changes w) else veth name)
    | _ ↦ err (message "no link" [])
  ];
}

abbrev tap_call : Call
tap_call = requests thread (add_tap "net1" 107 107)

named_last : (l : Link) (before : List Call) → named_now l (before ++ tap_call ∷ []) ≡ tap
named_last l [] = refl
named_last l (c ∷ before) = named_last (renamed c l) before

tap_found : FoundAfter renaming plain_texts tap_call (handle 7) "net1" tap
tap_found w before l last e =
    ok-injective (sym e ∙ ap (λ c. ok (named_now (veth "net1") c)) last)
    ∙ named_last (veth "net1") before

wire_new-Runs_example :
    Runs
      (wire_new (recorder renaming) plain_texts vm_nic "kvv1" "kvb1" 7 7 (veth "net1"))
      (wire_plan plain_texts vm_nic "kvv1" "kvb1" 7 (veth "net1") (veth "kvb1") tap)
wire_new-Runs_example =
    wire_new-Runs renaming plain_texts vm_nic "kvv1" "kvb1" 7 7 (veth "net1") (veth "kvb1") tap
      tap_found (λ w before l last e. ok-injective (sym e))

unwire_vmi_bridge_removes_server_example :
    (unwire_vmi_bridge
      (node_kernel (recorder willing))
      plain_texts
      small_net
      short
      vm_nic
      idle).1.servers
    ≡ set_server no_servers "/run/netns/a" (bridge_name_for short "net1") none
unwire_vmi_bridge_removes_server_example =
    unwire_vmi_bridge_removes_server (recorder willing) plain_texts small_net short vm_nic idle

detach_pod_ports_tries_all_example :
    let find = find_call "web" "default" in
    commands (detach_pod_ports (recorder willing) plain_texts "web" "default" []).1
    ≡ find ∷ map del_port (ports_found plain_texts ("vh1", none))
detach_pod_ports_tries_all_example =
    detach_pod_ports_tries_all willing plain_texts "web" "default" []
