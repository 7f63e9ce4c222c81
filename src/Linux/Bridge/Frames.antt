-- ===== src/Linux/Bridge/Frames.antt =====
-- The bridge of a VM's NIC: wiring and unwiring keep what the kernel's calls keep.
use kube_ovn_dra_driver.Prelude.{ℕ, String, Option, none, some, List}
use kube_ovn_dra_driver.Exec.Frames.{Frames}
use kube_ovn_dra_driver.Exec.Sealed.{frames_rules}
use kube_ovn_dra_driver.Store.{Spec}
use kube_ovn_dra_driver.Attach.{ShortHash}
use kube_ovn_dra_driver.Attach.Routes.{NetParsers}
use kube_ovn_dra_driver.Linux.{Kernel, Texts, Link, Request}
use kube_ovn_dra_driver.Linux.Kept.{Kept, NotDefault}
use kube_ovn_dra_driver.Linux.Ovs.Frames.{command-Frames}
use kube_ovn_dra_driver.Linux.Servers.{Node, Servers}
use kube_ovn_dra_driver.Linux.Servers.Frames.{
  ensure_vmi_dhcp_server-Frames, stop_vmi_dhcp_server-Frames,
}
use kube_ovn_dra_driver.Linux.Bridge.{
  add_tuntap_in_netns, bridge_fdb_replace_static, ask, set_tap_mac, forward_tap_mac, wire_ports,
  wire_tap, wire_new, wire_link, wire_vmi_bridge, delete_tap, delete_bridge, unwire_links,
  unwire_netns, unwire_vmi_bridge,
}

module _ {W : Type 0} {R : W → W → Type 0} {k : Kernel W} (kept : Kept R k) (t : Texts) where
  pub add_tuntap_in_netns-Frames :
      (ns : ℕ) (name : String) → Frames R (add_tuntap_in_netns k t ns name)
  unfolding add_tuntap_in_netns
  add_tuntap_in_netns-Frames ns name = search (frames_rules, kept.switched, kept.plain.request, tt)

  pub bridge_fdb_replace_static-Frames :
      (ns : ℕ) (mac : List ℕ) (iface : String)
      → Frames R (bridge_fdb_replace_static k t ns mac iface)
  unfolding bridge_fdb_replace_static
  bridge_fdb_replace_static-Frames ns mac iface =
      search (frames_rules, kept.pre, kept.switched, command-Frames kept)

  ask-Frames :
      (h : ℕ) (f : String) (args : List String) (r : Request)
      → NotDefault r
      → Frames R (ask k t h f args r)
  unfolding ask
  ask-Frames h f args r allowed = search (frames_rules, kept.plain.request)

  set_tap_mac-Frames : (spec : Spec) (h : ℕ) (tap : Link) → Frames R (set_tap_mac k t spec h tap)
  unfolding set_tap_mac
  set_tap_mac-Frames spec h tap = search (frames_rules, kept.pre, ask-Frames, tt)

  forward_tap_mac-Frames :
      (spec : Spec) (ns : ℕ) (tap : Link) → Frames R (forward_tap_mac k t spec ns tap)
  unfolding forward_tap_mac
  forward_tap_mac-Frames spec ns tap =
      search (frames_rules, kept.pre, bridge_fdb_replace_static-Frames)

  module _ (spec : Spec) (veth bridge : String) (ns h : ℕ) (existing : Link) where
    wire_ports-Frames :
        (bridge_link tap : Link)
        → Frames R (wire_ports k t spec veth bridge ns h existing bridge_link tap)
    unfolding wire_ports
    wire_ports-Frames bridge_link tap =
        search (frames_rules, kept.pre, ask-Frames, set_tap_mac-Frames, forward_tap_mac-Frames)
          depth 16

    wire_tap-Frames :
        (bridge_link : Link) → Frames R (wire_tap k t spec veth bridge ns h existing bridge_link)
    unfolding wire_tap
    wire_tap-Frames bridge_link =
        search
          (
            frames_rules, kept.pre, kept.plain.link, ask-Frames, tt, add_tuntap_in_netns-Frames,
            wire_ports-Frames,
          )
          depth 12

    pub wire_new-Frames : Frames R (wire_new k t spec veth bridge ns h existing)
    unfolding wire_new
    wire_new-Frames =
        search
          (
            frames_rules, kept.pre, kept.plain.link, kept.plain.request, ask-Frames, tt,
            wire_tap-Frames,
          )
          depth 12

  delete_tap-Frames : (spec : Spec) (h : ℕ) (o : Option Link) → Frames R (delete_tap k t spec h o)
  unfolding delete_tap
  delete_tap-Frames spec h none = search (frames_rules, kept.pre)
  delete_tap-Frames spec h (some tap) = search (frames_rules, kept.pre, ask-Frames, tt)

  delete_bridge-Frames :
      (bridge : String) (h : ℕ) (o : Option Link) → Frames R (delete_bridge k t bridge h o)
  unfolding delete_bridge
  delete_bridge-Frames bridge h none = search (frames_rules, kept.pre)
  delete_bridge-Frames bridge h (some link) = search (frames_rules, ask-Frames, tt)

  pub unwire_netns-Frames :
      (spec : Spec) (bridge : String) → Frames R (unwire_netns k t spec bridge)
  unfolding unwire_netns unwire_links
  unwire_netns-Frames spec bridge =
      search
        (
          frames_rules, kept.pre, kept.netns, kept.handled, kept.plain.link, delete_tap-Frames,
          delete_bridge-Frames,
        )
        depth 10

module _ {W : Type 0} {R : Node W → Node W → Type 0} {k : Kernel (Node W)} (kept : Kept R k)
    (unseen : (s : Node W) (m : Servers) → R s (record s { servers = m })) (t : Texts)
    (net : NetParsers) (hash : ShortHash) where
  wire_link-Frames :
      (spec : Spec) (veth bridge : String) (ns h : ℕ)
      → Frames R (wire_link k t net hash spec veth bridge ns h)
  unfolding wire_link
  wire_link-Frames spec veth bridge ns h =
      search
        (
          frames_rules,
          kept.pre,
          kept.plain.link,
          wire_new-Frames kept,
          ensure_vmi_dhcp_server-Frames kept unseen,
        )
        depth 10

  pub wire_vmi_bridge-Frames : (spec : Spec) → Frames R (wire_vmi_bridge k t net hash spec)
  unfolding wire_vmi_bridge
  wire_vmi_bridge-Frames spec =
      search (frames_rules, kept.pre, kept.netns, kept.handled, wire_link-Frames)

  pub unwire_vmi_bridge-Frames : (spec : Spec) → Frames R (unwire_vmi_bridge k t net hash spec)
  unfolding unwire_vmi_bridge
  unwire_vmi_bridge-Frames spec =
      search
        (frames_rules, kept.pre, stop_vmi_dhcp_server-Frames kept unseen, unwire_netns-Frames kept)
