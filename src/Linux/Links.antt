-- ===== src/Linux/Links.antt =====
-- createVethPair, moveIntoNetns, primaryMTU and cleanupHostVeth of pkg/plumbing/plumbing_linux.go.
pub mod Frames
use kube_ovn_dra_driver.Prelude.{
  ℕ, String, Option, none, some, List, [], ◌∷◌, Error, wrap, ltb, if◌then◌else◌,
}
use kube_ovn_dra_driver.Exec.{Exec}
use kube_ovn_dra_driver.Exec.Sealed.{◌>>=◌, ◌>>◌, pure, fail, wrapping, attempt}
use kube_ovn_dra_driver.Linux.{
  Kernel, Link, thread, handle, with_netns, with_handle, add_veth, set_mtu, set_up, set_down,
  set_name, set_netns, delete,
}

module _ {W : Type 0} (k : Kernel W) where
  -- `if err == nil { _ = netlink.LinkSetMTU(peerLink, mtu) }`
  set_peer_mtu : ℕ → Option Link → Exec W (Unit {0})
  set_peer_mtu mtu none = pure tt
  set_peer_mtu mtu (some peer) = attempt (k.request thread (set_mtu peer mtu)) >>= λ _. pure tt

  limit_peer : String → ℕ → Exec W (Unit {0})
  unfolding set_peer_mtu
  limit_peer pod mtu =
      if ltb 0 mtu then attempt (k.link_by_name thread pod) >>= set_peer_mtu mtu else pure tt

  -- The part of createVethPair behind the lookup of the host end.
  add_pair : String → String → ℕ → Option Link → Exec W (Unit {0})
  unfolding limit_peer
  add_pair host pod mtu (some found) = pure tt
  add_pair host pod mtu none =
      wrapping "create veth %s<->%s" (host ∷ pod ∷ [])
        (k.request thread (add_veth host pod (if ltb 0 mtu then some mtu else none)))
      >> (wrapping "look up host veth %s" (host ∷ []) (k.link_by_name thread host) >>= λ link.
          limit_peer pod mtu
          >> wrapping "set host veth %s up" (host ∷ []) (k.request thread (set_up link)))

  unfoldable pub create_veth_pair : String → String → ℕ → Exec W (Unit {0})
  unfolding add_pair
  create_veth_pair host pod mtu = attempt (k.link_by_name thread host) >>= add_pair host pod mtu

  -- The part of moveIntoNetns that works through a handle in the target netns.
  rename_inside : String → String → ℕ → Exec W (Unit {0})
  rename_inside pod iface h =
      wrapping "look up moved veth %s in netns" (pod ∷ []) (k.link_by_name (handle h) pod)
      >>= λ inner.
          wrapping "set %s down before rename" (pod ∷ []) (k.request (handle h) (set_down inner))
          >> wrapping "rename %s -> %s in netns" (pod ∷ iface ∷ [])
              (k.request (handle h) (set_name inner iface))

  -- The part behind the look for the interface in the target netns.
  move_to : String → String → String → ℕ → Option Link → Exec W (Unit {0})
  unfolding rename_inside
  move_to pod path iface ns (some moved) = pure tt
  move_to pod path iface ns none =
      wrapping "look up pod veth %s" (pod ∷ []) (k.link_by_name thread pod) >>= λ link.
      wrapping "move %s into netns %s" (pod ∷ path ∷ []) (k.request thread (set_netns link ns))
      >> with_handle k ns (λ e. fail (wrap "netlink handle for netns %s" (path ∷ []) e))
          (rename_inside pod iface)

  unfoldable pub move_into_netns : String → String → String → Exec W (Unit {0})
  unfolding move_to
  move_into_netns pod path iface =
      with_netns k path (λ e. fail (wrap "open netns %s" (path ∷ []) e))
        λ ns.
          attempt (with_handle k ns fail (λ h. k.link_by_name (handle h) iface))
          >>= move_to pod path iface ns

  abbrev mtu_of : Option Link → ℕ
  mtu_of none = 0
  mtu_of (some link) = link.mtu

  unfoldable pub primary_mtu : String → Exec W ℕ
  primary_mtu path =
      with_netns k path (λ e. pure 0)
        λ ns.
          with_handle k ns (λ e. pure 0)
            λ h. attempt (k.link_by_name (handle h) "eth0") >>= λ found. pure (mtu_of found)

  unfoldable pub delete_found : String → Option Link → Exec W (Unit {0})
  delete_found host none = pure tt
  delete_found host (some link) =
      wrapping "delete host veth %s" (host ∷ []) (k.request thread (delete link))

  unfoldable pub cleanup_host_veth : String → Exec W (Unit {0})
  unfolding delete_found
  cleanup_host_veth host = attempt (k.link_by_name thread host) >>= delete_found host
