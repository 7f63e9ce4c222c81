-- ===== src/Linux/Links/Frames.antt =====
-- The operations on links keep what the kernel's calls keep.
use kube_ovn_dra_driver.Prelude.{ℕ, String, Option, none, some}
use kube_ovn_dra_driver.Exec.Frames.{Frames}
use kube_ovn_dra_driver.Exec.Sealed.{frames_rules}
use kube_ovn_dra_driver.Linux.{Kernel, Link}
use kube_ovn_dra_driver.Linux.Kept.{Kept}
use kube_ovn_dra_driver.Linux.Links.{
  set_peer_mtu, limit_peer, add_pair, create_veth_pair, rename_inside, move_to, move_into_netns,
  primary_mtu, delete_found, cleanup_host_veth,
}

module _ {W : Type 0} {R : W → W → Type 0} {k : Kernel W} (kept : Kept R k) where
  set_peer_mtu-Frames : (mtu : ℕ) (o : Option Link) → Frames R (set_peer_mtu k mtu o)
  unfolding set_peer_mtu
  set_peer_mtu-Frames mtu none = search (frames_rules, kept.pre)
  set_peer_mtu-Frames mtu (some peer) = search (frames_rules, kept.pre, kept.plain.request, tt)

  limit_peer-Frames : (pod : String) (mtu : ℕ) → Frames R (limit_peer k pod mtu)
  unfolding limit_peer
  limit_peer-Frames pod mtu = search (frames_rules, kept.pre, kept.plain.link, set_peer_mtu-Frames)

  add_pair-Frames :
      (host pod : String) (mtu : ℕ) (o : Option Link) → Frames R (add_pair k host pod mtu o)
  unfolding add_pair
  add_pair-Frames host pod mtu (some found) = search (frames_rules, kept.pre)
  add_pair-Frames host pod mtu none =
      search (frames_rules, kept.pre, kept.plain.link, kept.plain.request, tt, limit_peer-Frames)

  pub create_veth_pair-Frames :
      (host pod : String) (mtu : ℕ) → Frames R (create_veth_pair k host pod mtu)
  unfolding create_veth_pair
  create_veth_pair-Frames host pod mtu =
      search (frames_rules, kept.pre, kept.plain.link, add_pair-Frames)

  rename_inside-Frames : (pod iface : String) (h : ℕ) → Frames R (rename_inside k pod iface h)
  unfolding rename_inside
  rename_inside-Frames pod iface h =
      search (frames_rules, kept.pre, kept.plain.link, kept.plain.request, tt)

  move_to-Frames :
      (pod path iface : String) (ns : ℕ) (o : Option Link)
      → Frames R (move_to k pod path iface ns o)
  unfolding move_to
  move_to-Frames pod path iface ns (some moved) = search (frames_rules, kept.pre)
  move_to-Frames pod path iface ns none = search (
    frames_rules, kept.pre, kept.plain.link, kept.plain.request, tt, kept.handled,
    rename_inside-Frames,
  )

  pub move_into_netns-Frames :
      (pod path iface : String) → Frames R (move_into_netns k pod path iface)
  unfolding move_into_netns
  move_into_netns-Frames pod path iface =
      search (frames_rules, kept.pre, kept.plain.link, kept.netns, kept.handled, move_to-Frames)

  pub primary_mtu-Frames : (path : String) → Frames R (primary_mtu k path)
  unfolding primary_mtu
  primary_mtu-Frames path =
      search (frames_rules, kept.pre, kept.plain.link, kept.netns, kept.handled)

  delete_found-Frames : (host : String) (o : Option Link) → Frames R (delete_found k host o)
  unfolding delete_found
  delete_found-Frames host none = search (frames_rules, kept.pre)
  delete_found-Frames host (some link) = search (frames_rules, kept.plain.request, tt)

  pub cleanup_host_veth-Frames : (host : String) → Frames R (cleanup_host_veth k host)
  unfolding cleanup_host_veth
  cleanup_host_veth-Frames host =
      search (frames_rules, kept.pre, kept.plain.link, delete_found-Frames)
