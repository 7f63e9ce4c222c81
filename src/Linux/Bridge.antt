-- ===== src/Linux/Bridge.antt =====
-- wireVMIBridge, unwireVMIBridge, addTuntapInNetns and bridgeFdbReplaceStatic of
-- pkg/plumbing/plumbing_linux.go.
pub mod Frames
pub mod Plan
pub mod Unwired
use kube_ovn_dra_driver.Prelude.{
  ℕ, String, ◌==◌, Option, none, some, List, [], ◌∷◌, Error, wrap, Result, if◌then◌else◌, false,
}
use kube_ovn_dra_driver.Exec.{Exec}
use kube_ovn_dra_driver.Exec.Sealed.{◌>>=◌, ◌>>◌, pure, fail, lift, wrapping, tolerating, attempt}
use kube_ovn_dra_driver.Store.{Spec}
use kube_ovn_dra_driver.Attach.{ShortHash, bridge_name_for, veth_rename_for}
use kube_ovn_dra_driver.Attach.Routes.{NetParsers}
use kube_ovn_dra_driver.Linux.{
  Kernel, Texts, Link, Request, thread, handle, with_netns, with_handle, switched_to, is_exists,
  add_tap, add_bridge, set_up, set_down, set_name, set_mac, set_master, set_learning, delete,
}
use kube_ovn_dra_driver.Linux.Ovs.{command}
use kube_ovn_dra_driver.Linux.Servers.{Node, on_host, ensure_vmi_dhcp_server, stop_vmi_dhcp_server}

-- kubevirtQemuUID: the owner and the group of a tap.
abbrev kubevirt_qemu_uid : ℕ
kubevirt_qemu_uid = 107

module _ {W : Type 0} (k : Kernel W) (t : Texts) where
  unfoldable pub add_tuntap_in_netns : ℕ → String → Exec W (Unit {0})
  add_tuntap_in_netns ns name = switched_to k ns (
      tolerating (is_exists t)
        (k.request thread (add_tap name kubevirt_qemu_uid kubevirt_qemu_uid)))

  unfoldable pub bridge_fdb_replace_static : ℕ → List ℕ → String → Exec W (Unit {0})
  bridge_fdb_replace_static ns mac iface = switched_to k ns (
      command k t "bridge fdb replace: %w: %s" [] "bridge"
        ("fdb" ∷ "replace" ∷ t.format_mac mac ∷ "dev" ∷ iface ∷ "master" ∷ "static" ∷ [])
      >>= λ _. pure tt)

  -- `if err := h.LinkSet…(…); err != nil { return fmt.Errorf(format + ": %w", …, err) }`
  unfoldable pub ask : ℕ → String → List String → Request → Exec W (Unit {0})
  ask h f args r = wrapping f args (k.request (handle h) r)

  -- The tap's MAC is the address that OVN assigned.
  unfoldable pub set_tap_mac : Spec → ℕ → Link → Exec W (Unit {0})
  set_tap_mac spec h tap =
      if spec.mac == ""
      then pure tt
      else (wrapping "parse MAC %q for tap %s" (spec.mac ∷ spec.iface_name ∷ [])
            (lift (t.parse_mac spec.mac))
          >>= λ mac.
              ask h "set MAC %s on tap %s" (spec.mac ∷ spec.iface_name ∷ []) (set_mac tap mac))

  -- The MAC of the tap as a forwarding entry of the bridge.
  unfoldable pub forward_tap_mac : Spec → ℕ → Link → Exec W (Unit {0})
  unfolding bridge_fdb_replace_static
  forward_tap_mac spec ns tap =
      if spec.mac == ""
      then pure tt
      else (wrapping "parse MAC %q for tap %s" (spec.mac ∷ spec.iface_name ∷ [])
            (lift (t.parse_mac spec.mac))
          >>= λ mac.
              wrapping "replace auto-created self FDB entry for %s on tap %s with a forwarding one"
                (spec.mac ∷ spec.iface_name ∷ []) (bridge_fdb_replace_static ns mac tap.name))

  -- The part of wireVMIBridge behind the lookup of the tap, up to the DHCP server.
  unfoldable pub wire_ports :
      Spec → String → String → ℕ → ℕ → Link → Link → Link → Exec W (Unit {0})
  unfolding ask set_tap_mac forward_tap_mac
  wire_ports spec veth bridge ns h existing bridge_link tap =
      set_tap_mac spec h tap
      >> (ask h "copy bridge MAC onto %s" (veth ∷ []) (set_mac existing bridge_link.mac)
          >> (ask h "enslave %s to bridge %s" (veth ∷ bridge ∷ []) (set_master existing bridge_link)
              >> (ask h "enslave tap %s to bridge %s" (spec.iface_name ∷ bridge ∷ [])
                    (set_master tap bridge_link)
                  >> (ask h "set %s up" (veth ∷ []) (set_up existing)
                      >> (ask h "set tap %s up" (spec.iface_name ∷ []) (set_up tap)
                          >> (ask h "set bridge %s up" (bridge ∷ []) (set_up bridge_link)
                              >> (ask h "disable FDB learning on %s" (veth ∷ [])
                                    (set_learning existing false)
                                  >> forward_tap_mac spec ns tap)))))))

  -- The part with the bridge: its MAC is pinned, and the tap is made.
  unfoldable pub wire_tap : Spec → String → String → ℕ → ℕ → Link → Link → Exec W (Unit {0})
  unfolding wire_ports add_tuntap_in_netns ask
  wire_tap spec veth bridge ns h existing bridge_link =
      ask h "pin bridge %s MAC" (bridge ∷ []) (set_mac bridge_link bridge_link.mac)
      >> (wrapping "create tap %s" (spec.iface_name ∷ []) (add_tuntap_in_netns ns spec.iface_name)
          >> (wrapping "look up tap %s" (spec.iface_name ∷ [])
                (k.link_by_name (handle h) spec.iface_name)
              >>= wire_ports spec veth bridge ns h existing bridge_link))

  -- The part behind the test for a tap that is there already.
  unfoldable pub wire_new : Spec → String → String → ℕ → ℕ → Link → Exec W (Unit {0})
  unfolding wire_tap ask
  wire_new spec veth bridge ns h existing =
      ask h "set %s down before rename" (spec.iface_name ∷ []) (set_down existing)
      >> (ask h "rename %s -> %s" (spec.iface_name ∷ veth ∷ []) (set_name existing veth)
          >> (wrapping "create bridge %s" (bridge ∷ [])
                (tolerating (is_exists t) (k.request (handle h) (add_bridge bridge)))
              >> (wrapping "look up bridge %s" (bridge ∷ []) (k.link_by_name (handle h) bridge)
                  >>= wire_tap spec veth bridge ns h existing)))

  -- `if tapLink, err := …; err == nil && tapLink.Type() == "tuntap"`
  delete_tap : Spec → ℕ → Option Link → Exec W (Unit {0})
  unfolding ask
  delete_tap spec h none = pure tt
  delete_tap spec h (some tap) =
      if tap.kind == "tuntap"
      then ask h "delete tap %s" (spec.iface_name ∷ []) (delete tap)
      else pure tt

  delete_bridge : String → ℕ → Option Link → Exec W (Unit {0})
  unfolding ask
  delete_bridge bridge h none = pure tt
  delete_bridge bridge h (some link) = ask h "delete bridge %s" (bridge ∷ []) (delete link)

  -- The part of unwireVMIBridge behind the handle of the netns.
  unfoldable pub unwire_links : Spec → String → ℕ → Exec W (Unit {0})
  unfolding delete_tap delete_bridge
  unwire_links spec bridge h =
      attempt (k.link_by_name (handle h) spec.iface_name)
      >>= delete_tap spec h
      >> (attempt (k.link_by_name (handle h) bridge) >>= delete_bridge bridge h)

  unfoldable pub unwire_netns : Spec → String → Exec W (Unit {0})
  unfolding unwire_links
  unwire_netns spec bridge =
      with_netns k spec.netns_path (λ e. pure tt)
        λ ns.
          with_handle k ns (λ e. fail (wrap "netlink handle for netns %s" (spec.netns_path ∷ []) e))
            (unwire_links spec bridge)

module _ {W : Type 0} (k : Kernel (Node W)) (t : Texts) (net : NetParsers) (hash : ShortHash) where
  -- The bridge is wired now, or was by an attach before; either way its DHCP server is ensured.
  unfoldable pub wire_link : Spec → String → String → ℕ → ℕ → Exec (Node W) (Unit {0})
  unfolding wire_new
  wire_link spec veth bridge ns h =
      wrapping "look up %s to wrap in a bridge" (spec.iface_name ∷ [])
        (k.link_by_name (handle h) spec.iface_name)
      >>= λ existing.
          (if existing.kind == "tuntap"
            then pure tt
            else wire_new k t spec veth bridge ns h existing)
          >> ensure_vmi_dhcp_server k t net spec bridge

  unfoldable pub wire_vmi_bridge : Spec → Exec (Node W) (Unit {0})
  unfolding wire_link
  wire_vmi_bridge spec =
      with_netns k spec.netns_path (λ e. fail (wrap "open netns %s" (spec.netns_path ∷ []) e))
        λ ns.
          with_handle k ns (λ e. fail (wrap "netlink handle for netns %s" (spec.netns_path ∷ []) e))
            (wire_link spec (veth_rename_for hash spec.iface_name)
              (bridge_name_for hash spec.iface_name) ns)

  unfoldable pub unwire_vmi_bridge : Spec → Exec (Node W) (Unit {0})
  unfolding unwire_netns
  unwire_vmi_bridge spec =
      wrapping "stop DHCP server of %s in netns %s"
        (bridge_name_for hash spec.iface_name ∷ spec.netns_path ∷ [])
        (stop_vmi_dhcp_server k t net spec.netns_path (bridge_name_for hash spec.iface_name))
      >> unwire_netns k t spec (bridge_name_for hash spec.iface_name)
