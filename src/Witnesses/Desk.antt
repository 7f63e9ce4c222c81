-- ===== src/Witnesses/Desk.antt =====
-- The properties of pkg/plumbing/plumbing_linux.go on the netns of the thread and on the DHCP servers,
-- at a VM's NIC.
use kube_ovn_dra_driver.Prelude.{
  ℕ, ◌+◌, ◌-◌, Option, none, some, [], ◌∷◌, ◌≡◌, ◌⊎◌, refl, message, ltb, nat_eq, if◌then◌else◌,
  Result, ok, err,
}
use kube_ovn_dra_driver.Exec.Sealed.{◌>>=◌, wrapping, lift, deferring}
use kube_ovn_dra_driver.Dhcp.{vmi_dhcp_options, classless_static_routes, route_bytes}
use kube_ovn_dra_driver.Attach.Routes.{v4, parse}
use kube_ovn_dra_driver.Linux.{with_netns, switched_to, Kernel, Listener}
use kube_ovn_dra_driver.Linux.Servers.{
  Node, no_servers, set_server, node_kernel, on_host, new_netns_udp4_filter_listener,
  ensure_vmi_dhcp_server,
}
use kube_ovn_dra_driver.Linux.Servers.Serving.{Serves, ensure_vmi_dhcp_server-Serves}
use kube_ovn_dra_driver.Witnesses.Data.{small_net}
use kube_ovn_dra_driver.Witnesses.Datapath.{vm_nic, plain_texts, veth}

-- A node of which only the thread's netns, the number of open handles and the netns of each open
-- netns handle are kept: the handles below `next` that `table` has.
record Desk : Type 0 where
  thread : ℕ
  held : ℕ
  next : ℕ
  table : ℕ → Option ℕ

unfoldable open_on : Desk → ℕ → Option ℕ
open_on w n = if ltb n w.next then w.table n else none

abbrev put : (ℕ → Option ℕ) → ℕ → Option ℕ → ℕ → Option ℕ
put f n o m = if nat_eq m n then o else f m

-- A new handle on the netns `ns`.
abbrev opened_on : ℕ → Desk → Result ℕ × Desk
opened_on ns w = (
  ok w.next,
  record w { held = w.held + 1; next = w.next + 1; table = put w.table w.next (some ns) },
)

abbrev entering : Option ℕ → Desk → Result (Unit {0}) × Desk
entering none w = (err (message "bad file descriptor" []), w)
entering (some ns) w = (ok tt, record w { thread = ns })

abbrev opening : Desk → Result ℕ × Desk
opening w = (ok 7, record w { held = w.held + 1 })

abbrev quiet : Desk → Result (Unit {0}) × Desk
quiet w = (ok tt, w)

abbrev desk : Kernel Desk
desk = record {
  open_netns = λ path. opened_on 2;
  current_netns = λ w. opened_on w.thread w;
  enter_netns = λ n w. entering (open_on w n) w;
  close_netns = λ n w. record w { held = w.held - 1; table = put w.table n none };
  open_handle = λ ns. opening;
  close_handle = λ h w. record w { held = w.held - 1 };
  link_by_name = λ s name w. (ok (veth name), w);
  request = λ s r. quiet;
  run = λ name argv w. (("vh1", none), w);
  interface_by_name = λ name w. (ok 3, w);
  listen_packet = λ laddr w. (ok 9, w);
  set_control_message = λ conn. quiet;
  close_conn = λ conn w. w;
  close_listener = λ l. quiet;
  serve = λ l h w. w;
}

abbrev at_desk : Node Desk
at_desk = record {
  host = record { thread = 1; held = 4; next = 0; table = λ n. none };
  servers = no_servers;
}

abbrev served_node : Node Desk
served_node = record {
  host = record {
    thread = 1;
    held = 4;
    next = 2;
    table = put (put (put (put (λ n. none) 0 (some 2)) 1 (some 1)) 1 none) 0 none;
  };
  servers = set_server no_servers "/run/netns/a" "kvb1" (some (record { iface = 3; conn = 9 }));
}

first_server :
    ensure_vmi_dhcp_server (node_kernel desk) plain_texts small_net vm_nic "kvb1" at_desk
    ≡ (ok tt, served_node)
unfolding ensure_vmi_dhcp_server ◌>>=◌ wrapping lift vmi_dhcp_options classless_static_routes parse
    route_bytes new_netns_udp4_filter_listener with_netns on_host deferring switched_to open_on
first_server = refl

ensure_vmi_dhcp_server-Serves_example :
    ((l : Listener) × (no_servers "/run/netns/a" "kvb1" ≡ some l) × (served_node ≡ at_desk))
    ⊎ ((no_servers "/run/netns/a" "kvb1" ≡ none)
        × Serves desk plain_texts small_net vm_nic "kvb1"
            (v4 10 1 0 5)
            (255 ∷ 255 ∷ 255 ∷ 0 ∷ [])
            at_desk
            served_node)
ensure_vmi_dhcp_server-Serves_example =
    ensure_vmi_dhcp_server-Serves desk plain_texts small_net vm_nic "kvb1" at_desk served_node 10 1
      0 5 (255 ∷ 255 ∷ 255 ∷ 0 ∷ []) refl refl first_server
