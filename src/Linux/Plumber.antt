-- ===== src/Linux/Plumber.antt =====
-- ovsAttacher of pkg/plumbing: the steps of plumbing.go with the helpers of plumbing_linux.go.
pub mod Frames
pub mod Routes
pub mod Laws
pub mod Netns
use kube_ovn_dra_driver.Prelude.{ℕ, String, Option, none, some, Error, Result, ok, err}
use kube_ovn_dra_driver.Exec.{Exec}
use kube_ovn_dra_driver.Attach.{ShortHash, Datapath}
use kube_ovn_dra_driver.Attach.Routes.{NetParsers}
use kube_ovn_dra_driver.Linux.{Kernel, Texts}
use kube_ovn_dra_driver.Linux.Links.{
  create_veth_pair, move_into_netns, primary_mtu, cleanup_host_veth,
}
use kube_ovn_dra_driver.Linux.Configure.{configure_pod_iface}
use kube_ovn_dra_driver.Linux.Ovs.{attach_to_ovs, detach_from_ovs, detach_pod_ports}
use kube_ovn_dra_driver.Linux.Servers.{Node}
use kube_ovn_dra_driver.Linux.Bridge.{wire_vmi_bridge, unwire_vmi_bridge}

-- The error that a method returns, nil for none.
abbrev error_of : Result (Unit {0}) → Option Error
error_of (ok u) = none
error_of (err e) = some e

abbrev reported : {S : Type 0} → Result (Unit {0}) × S → Option Error × S
reported (r, s) = (error_of r, s)

-- primaryMTU returns 0 where it fails.
abbrev number : Result ℕ → ℕ
number (ok n) = n
number (err e) = 0

abbrev mtu_value : {S : Type 0} → Result ℕ × S → ℕ × S
mtu_value (r, s) = (number r, s)

module _ {W : Type 0} (k : Kernel (Node W)) (t : Texts) (net : NetParsers) (hash : ShortHash) where
  abbrev pub plumber : Datapath (Node W)
  plumber = record {
    primary_mtu = λ path s. mtu_value (primary_mtu k path s);
    create_veth_pair = λ host pod mtu s. reported (create_veth_pair k host pod mtu s);
    move_into_netns = λ pod path iface s. reported (move_into_netns k pod path iface s);
    configure_pod_iface = λ spec s. reported (configure_pod_iface k t net spec s);
    attach_to_ovs = λ host spec s. reported (attach_to_ovs k t host spec s);
    wire_vmi_bridge = λ spec s. reported (wire_vmi_bridge k t net hash spec s);
    unwire_vmi_bridge = λ spec s. reported (unwire_vmi_bridge k t net hash spec s);
    detach_from_ovs = λ host spec s. reported (detach_from_ovs k t host spec s);
    cleanup_host_veth = λ host s. reported (cleanup_host_veth k host s);
    detach_pod_ports = λ name namespace s. reported (detach_pod_ports k t name namespace s);
  }
