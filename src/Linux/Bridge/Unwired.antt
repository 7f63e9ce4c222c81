-- ===== src/Linux/Bridge/Unwired.antt =====
-- What unwireVMIBridge of pkg/plumbing/plumbing_linux.go does to the table of DHCP servers.
use kube_ovn_dra_driver.Prelude.{String, Option, none, [], ◌∷◌, ◌≡◌}
use kube_ovn_dra_driver.Exec.{Exec}
use kube_ovn_dra_driver.Exec.Frames.{Frames}
use kube_ovn_dra_driver.Exec.Sealed.{◌>>=◌, ◌>>◌, wrapping, Frames-bind, Frames-wrapping}
use kube_ovn_dra_driver.Store.{Spec}
use kube_ovn_dra_driver.Attach.{ShortHash, bridge_name_for}
use kube_ovn_dra_driver.Attach.Routes.{NetParsers}
use kube_ovn_dra_driver.Linux.{Kernel, Texts, Listener}
use kube_ovn_dra_driver.Linux.Servers.{
  Node, set_server, node_kernel, close_found, stop_vmi_dhcp_server,
}
use kube_ovn_dra_driver.Linux.Servers.Frames.{close_found-Frames}
use kube_ovn_dra_driver.Linux.Servers.Table.{SameTable, kernel-SameTable}
use kube_ovn_dra_driver.Linux.Bridge.{unwire_netns, unwire_vmi_bridge}
use kube_ovn_dra_driver.Linux.Bridge.Frames.{unwire_netns-Frames}

module _ {W : Type 0} (k : Kernel W) (t : Texts) (net : NetParsers) where
  -- The rest of the removal, on the table without the server.
  removed : (spec : Spec) (bridge : String) (o : Option Listener) → Exec (Node W) (Unit {0})
  removed spec bridge o =
      wrapping "stop DHCP server of %s in netns %s" (bridge ∷ spec.netns_path ∷ [])
        (close_found (node_kernel k) t net o)
      >> unwire_netns (node_kernel k) t spec bridge

  removed-SameTable :
      (spec : Spec) (bridge : String) (o : Option Listener)
      → Frames SameTable (removed spec bridge o)
  unfolding removed
  removed-SameTable spec bridge o =
      let kept = kernel-SameTable k in
      Frames-bind kept.pre _ _ (Frames-wrapping _ _ _ (close_found-Frames kept t net o))
        (λ u. unwire_netns-Frames kept t spec bridge)

  -- Unwiring a NIC takes its server, and no other, from the table of DHCP servers on every path: also
  -- where the listener fails to close, and where the netns of the pod is gone.
  pub unwire_vmi_bridge_removes_server :
      (hash : ShortHash) (spec : Spec) (s : Node W)
      → let bridge = bridge_name_for hash spec.iface_name in
        (unwire_vmi_bridge (node_kernel k) t net hash spec s).1.servers
        ≡ set_server s.servers spec.netns_path bridge none
  unfolding unwire_vmi_bridge removed stop_vmi_dhcp_server wrapping ◌>>=◌
  unwire_vmi_bridge_removes_server hash spec s =
      let bridge = bridge_name_for hash spec.iface_name in
      (removed-SameTable spec bridge (s.servers spec.netns_path bridge)).at
        (record s { servers = set_server s.servers spec.netns_path bridge none })
