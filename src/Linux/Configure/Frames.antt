-- ===== src/Linux/Configure/Frames.antt =====
-- configurePodIface keeps what the kernel's calls keep: no route that it adds is a default route.
use kube_ovn_dra_driver.Prelude.{ℕ, String, Option, ◌≡◌, ok}
use kube_ovn_dra_driver.Exec.Frames.{Frames}
use kube_ovn_dra_driver.Exec.Sealed.{frames_rules, Frames-bind-lift}
use kube_ovn_dra_driver.Store.{Spec, Route}
use kube_ovn_dra_driver.Attach.Routes.{NetParsers, parse, parse_is_safe, IpNet, Ip}
use kube_ovn_dra_driver.Linux.{Kernel, Texts, Link}
use kube_ovn_dra_driver.Linux.Kept.{Kept}
use kube_ovn_dra_driver.Linux.Configure.{
  set_pod_mac, set_pod_mtu, add_address, install_route, add_pod_route, configure_link,
  configure_pod_iface,
}

module _ {W : Type 0} {R : W → W → Type 0} {k : Kernel W} (kept : Kept R k) (t : Texts)
    (net : NetParsers) (spec : Spec) where
  set_pod_mac-Frames : (h : ℕ) (link : Link) → Frames R (set_pod_mac k t net spec h link)
  unfolding set_pod_mac
  set_pod_mac-Frames h link = search (frames_rules, kept.pre, kept.plain.request, tt)

  set_pod_mtu-Frames : (h : ℕ) (link : Link) → Frames R (set_pod_mtu k t net spec h link)
  unfolding set_pod_mtu
  set_pod_mtu-Frames h link = search (frames_rules, kept.pre, kept.plain.request, tt)

  add_address-Frames :
      (h : ℕ) (link : Link) (ip : String) → Frames R (add_address k t net spec h link ip)
  unfolding add_address
  add_address-Frames h link ip = search (frames_rules, kept.pre, kept.plain.request, tt)

  install_route-Frames :
      (h : ℕ) (link : Link) (r : Route) (dst : IpNet) (gw : Option Ip)
      → parse net r spec.gateway ≡ ok (dst, gw)
      → Frames R (install_route k t net spec h link r (dst, gw))
  unfolding install_route
  install_route-Frames h link r dst gw parsed =
      let safe = (parse_is_safe net r spec.gateway dst gw parsed).0 in
      search (frames_rules, kept.plain.request, safe)

  add_pod_route-Frames :
      (h : ℕ) (link : Link) (r : Route) → Frames R (add_pod_route k t net spec h link r)
  unfolding add_pod_route
  add_pod_route-Frames h link r =
      Frames-bind-lift kept.pre _ _ (parse net r spec.gateway) _
        λ (dst, gw) parsed. install_route-Frames h link r dst gw parsed

  configure_link-Frames : (h : ℕ) (link : Link) → Frames R (configure_link k t net spec h link)
  unfolding configure_link
  configure_link-Frames h link =
      search
        (
          frames_rules, kept.pre, kept.plain.request, set_pod_mac-Frames, set_pod_mtu-Frames,
          add_address-Frames, add_pod_route-Frames,
        )
        depth 12

  pub configure_pod_iface-Frames : Frames R (configure_pod_iface k t net spec)
  unfolding configure_pod_iface
  configure_pod_iface-Frames =
      search
        (frames_rules, kept.pre, kept.plain.link, kept.netns, kept.handled, configure_link-Frames)
