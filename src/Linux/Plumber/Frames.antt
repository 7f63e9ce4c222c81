-- ===== src/Linux/Plumber/Frames.antt =====
-- Attach, Detach and DetachPodPorts of the OVS attacher keep what the kernel's calls keep.
use kube_ovn_dra_driver.Attach.{ShortHash}
use kube_ovn_dra_driver.Attach.Kept.{DatapathKept}
use kube_ovn_dra_driver.Attach.Routes.{NetParsers}
use kube_ovn_dra_driver.Linux.{Kernel, Texts}
use kube_ovn_dra_driver.Linux.Kept.{Kept}
use kube_ovn_dra_driver.Linux.Links.Frames.{
  create_veth_pair-Frames, move_into_netns-Frames, primary_mtu-Frames, cleanup_host_veth-Frames,
}
use kube_ovn_dra_driver.Linux.Configure.Frames.{configure_pod_iface-Frames}
use kube_ovn_dra_driver.Linux.Ovs.Frames.{
  attach_to_ovs-Frames, detach_from_ovs-Frames, detach_pod_ports-Frames,
}
use kube_ovn_dra_driver.Linux.Servers.{Node, Servers}
use kube_ovn_dra_driver.Linux.Bridge.Frames.{wire_vmi_bridge-Frames, unwire_vmi_bridge-Frames}
use kube_ovn_dra_driver.Linux.Plumber.{plumber}

module _ {W : Type 0} {R : Node W → Node W → Type 0} {k : Kernel (Node W)} (kept : Kept R k)
    (unseen : (s : Node W) (m : Servers) → R s (record s { servers = m })) (t : Texts)
    (net : NetParsers) (hash : ShortHash) where
  pub plumber-Kept : DatapathKept R (plumber k t net hash)
  plumber-Kept = record {
    pre = kept.pre;
    asks = λ path s. (primary_mtu-Frames kept path).at s;
    creates = λ host pod mtu s. (create_veth_pair-Frames kept host pod mtu).at s;
    moves = λ pod path iface s. (move_into_netns-Frames kept pod path iface).at s;
    configures = λ spec s. (configure_pod_iface-Frames kept t net spec).at s;
    binds = λ host spec s. (attach_to_ovs-Frames kept t host spec).at s;
    wires = λ spec s. (wire_vmi_bridge-Frames kept unseen t net hash spec).at s;
    unwires = λ spec s. (unwire_vmi_bridge-Frames kept unseen t net hash spec).at s;
    unbinds = λ host spec s. (detach_from_ovs-Frames kept t host spec).at s;
    cleans = λ host s. (cleanup_host_veth-Frames kept host).at s;
    clears = λ name namespace s. (detach_pod_ports-Frames kept t name namespace).at s;
  }
