-- ===== src/Linux/Servers.antt =====
-- ensureVMIDHCPServer, stopVMIDHCPServer and newNetnsUDP4FilterListener of
-- pkg/plumbing/plumbing_linux.go, and the table of servers of the attacher (pkg/plumbing/plumbing.go).
pub mod Frames
pub mod Table
pub mod Serving
use kube_ovn_dra_driver.Prelude.{
  ℕ, String, ◌==◌, ◌&&◌, Option, none, some, List, [], ◌∷◌, Error, wrap, Result, ok, err,
  if◌then◌else◌,
}
use kube_ovn_dra_driver.Exec.{Exec}
use kube_ovn_dra_driver.Exec.Sealed.{◌>>=◌, ◌>>◌, pure, fail, lift, wrapping}
use kube_ovn_dra_driver.Store.{Spec}
use kube_ovn_dra_driver.Attach.Routes.{Ip, v4, NetParsers}
use kube_ovn_dra_driver.Dhcp.{Handler, DhcpOptions, to4, vmi_dhcp_options}
use kube_ovn_dra_driver.Linux.{Kernel, Texts, Listener, with_netns, switched_to}

-- a.dhcpServers, by the netns path and the bridge of a NIC.
abbrev pub Servers : Type 0
Servers = String → String → Option Listener

abbrev pub no_servers : Servers
no_servers netns bridge = none

-- m[dhcpKey{netns, bridge}] = l, and delete for `none`.
unfoldable pub set_server : Servers → String → String → Option Listener → Servers
set_server m netns bridge l n b = if netns == n && bridge == b then l else m n b

-- The host, and what the attacher keeps in the process.
pub record Node (W : Type 0) : Type 0 where
  pub host : W
  pub servers : Servers

-- A call that does not touch the table.
unfoldable pub on_host : {W A : Type 0} → Exec W A → Exec (Node W) A
on_host m s = let (r, w) = m s.host in (r, record s { host = w })

-- The kernel's calls, with the table beside the host.
abbrev pub node_kernel : {W : Type 0} → Kernel W → Kernel (Node W)
node_kernel k = record {
  open_netns = λ path. on_host (k.open_netns path);
  current_netns = on_host k.current_netns;
  enter_netns = λ ns. on_host (k.enter_netns ns);
  close_netns = λ ns s. record s { host = k.close_netns ns s.host };
  open_handle = λ ns. on_host (k.open_handle ns);
  close_handle = λ h s. record s { host = k.close_handle h s.host };
  link_by_name = λ scope name. on_host (k.link_by_name scope name);
  request = λ scope r. on_host (k.request scope r);
  run = λ name argv s. let (r, w) = k.run name argv s.host in (r, record s { host = w });
  interface_by_name = λ name. on_host (k.interface_by_name name);
  listen_packet = λ laddr. on_host (k.listen_packet laddr);
  set_control_message = λ conn. on_host (k.set_control_message conn);
  close_conn = λ conn s. record s { host = k.close_conn conn s.host };
  close_listener = λ l. on_host (k.close_listener l);
  serve = λ l handler s. record s { host = k.serve l handler s.host };
}

abbrev fake_dhcp_server_ip : Ip
fake_dhcp_server_ip = v4 169 254 75 1

module _ {W : Type 0} (k : Kernel W) where
  -- What follows ListenPacket: a connection that cannot tell its interface is closed again.
  unfoldable pub filtered : ℕ → ℕ → Exec W Listener
  filtered index conn w =
      let (r, w') = k.set_control_message conn w in
      elim r [
        | ok u ↦ (ok (record { iface = index; conn = conn }), w')
        | err e ↦ (err e, k.close_conn conn w')
      ]

  unfoldable pub open_listener : String → String → Exec W Listener
  open_listener iface laddr =
      wrapping "look up %s" (iface ∷ []) (k.interface_by_name iface) >>= λ index.
      k.listen_packet laddr >>= filtered index

  unfoldable pub new_netns_udp4_filter_listener : String → String → String → Exec W Listener
  unfolding open_listener filtered
  new_netns_udp4_filter_listener path iface laddr =
      with_netns k path (λ e. fail (wrap "open netns %s" (path ∷ []) e))
        λ ns. switched_to k ns (open_listener iface laddr)

module _ {W : Type 0} (k : Kernel (Node W)) (t : Texts) (net : NetParsers) where
  -- a.dhcpServers[key] = listener, and the goroutine that serves on it.
  unfoldable pub start : Spec → String → Handler → Listener → Exec (Node W) (Unit {0})
  start spec bridge handler l s = (
    ok tt,
    k.serve l handler (record s { servers = set_server s.servers spec.netns_path bridge (some l) }),
  )

  abbrev handler_of : Ip → List ℕ → DhcpOptions → Handler
  handler_of ip mac options = record {
    server_ip = fake_dhcp_server_ip;
    client_ip = ip;
    client_mac = mac;
    options = options;
  }

  unfoldable pub serve_ipv4 : Spec → String → Ip → List ℕ → Exec (Node W) (Unit {0})
  unfolding start
  serve_ipv4 spec bridge ip mask =
      wrapping "parse Spec.MAC %q for DHCP server" (spec.mac ∷ []) (lift (t.parse_mac spec.mac))
      >>= λ mac. lift (vmi_dhcp_options net spec mask) >>= λ options.
          wrapping "start DHCP listener on %s" (bridge ∷ [])
            (new_netns_udp4_filter_listener k spec.netns_path bridge ":67")
          >>= start spec bridge (handler_of ip mac options)

  -- Behind net.ParseCIDR: `ip.To4() == nil` has no DHCPv4 server.
  unfoldable pub serve_address : Spec → String → Ip × List ℕ → Exec (Node W) (Unit {0})
  unfolding serve_ipv4
  serve_address spec bridge (ip, mask) = elim (to4 ip) [
    | none ↦ pure tt
    | some four ↦ serve_ipv4 spec bridge four mask
  ]

  unfoldable pub start_missing : Spec → String → Option Listener → Exec (Node W) (Unit {0})
  unfolding serve_address
  start_missing spec bridge (some running) = pure tt
  start_missing spec bridge none =
      wrapping "parse Spec.IP %q for DHCP server" (spec.ip ∷ []) (lift (t.parse_cidr spec.ip))
      >>= serve_address spec bridge

  unfoldable pub ensure_vmi_dhcp_server : Spec → String → Exec (Node W) (Unit {0})
  unfolding start_missing
  ensure_vmi_dhcp_server spec bridge s =
      (if spec.ovn_dhcp
          then pure tt
          else start_missing spec bridge (s.servers spec.netns_path bridge))
        s

  unfoldable pub close_found : Option Listener → Exec (Node W) (Unit {0})
  close_found none = pure tt
  close_found (some l) = k.close_listener l

  unfoldable pub stop_vmi_dhcp_server : String → String → Exec (Node W) (Unit {0})
  unfolding close_found
  stop_vmi_dhcp_server netns bridge s =
      close_found (s.servers netns bridge)
        (record s { servers = set_server s.servers netns bridge none })
