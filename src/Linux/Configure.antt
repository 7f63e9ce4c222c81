-- ===== src/Linux/Configure.antt =====
-- configurePodIface of pkg/plumbing/plumbing_linux.go.
pub mod Frames
use kube_ovn_dra_driver.Prelude.{
  ℕ, String, ◌==◌, Option, Bool, true, false, List, [], ◌∷◌, ◌++◌, Error, wrap, ltb, if◌then◌else◌,
}
use kube_ovn_dra_driver.Exec.{Exec}
use kube_ovn_dra_driver.Exec.Sealed.{◌>>=◌, ◌>>◌, pure, fail, lift, wrapping, tolerating, for_each}
use kube_ovn_dra_driver.Store.{Spec, Route}
use kube_ovn_dra_driver.Attach.Routes.{Ip, NetParsers, parse, is_v4, IpNet}
use kube_ovn_dra_driver.Linux.{
  Kernel, Texts, Link, Addr, handle, with_netns, with_handle, is_exists, set_up, set_mac, set_mtu,
  add_addr, add_route,
}

-- The flag of an IPv6 address: no duplicate address detection.
abbrev pub with_flags : Addr → Addr
with_flags addr = if is_v4 addr.ip then addr else record addr { no_dad = true }

module _ {W : Type 0} (k : Kernel W) (t : Texts) (net : NetParsers) where
  set_pod_mac : Spec → ℕ → Link → Exec W (Unit {0})
  set_pod_mac spec h link =
      if spec.mac == ""
      then pure tt
      else (wrapping "parse MAC %q" (spec.mac ∷ []) (lift (t.parse_mac spec.mac)) >>= λ mac.
          wrapping "set MAC on %s" (spec.iface_name ∷ []) (k.request (handle h) (set_mac link mac)))

  set_pod_mtu : Spec → ℕ → Link → Exec W (Unit {0})
  set_pod_mtu spec h link =
      if ltb 0 spec.mtu
      then wrapping "set MTU on %s" (spec.iface_name ∷ [])
          (k.request (handle h) (set_mtu link spec.mtu))
      else pure tt

  add_address : Spec → ℕ → Link → String → Exec W (Unit {0})
  add_address spec h link ip = wrapping "parse IP %q" (ip ∷ []) (lift (t.parse_addr ip)) >>= λ addr.
      wrapping "add address %s to %s" (ip ∷ spec.iface_name ∷ [])
        (tolerating (is_exists t) (k.request (handle h) (add_addr link (with_flags addr))))

  install_route : Spec → ℕ → Link → Route → IpNet × Option Ip → Exec W (Unit {0})
  install_route spec h link r (dst, gw) =
      wrapping "add route %s on %s" (r.destination ∷ spec.iface_name ∷ [])
        (tolerating (is_exists t) (k.request (handle h) (add_route link dst gw)))

  add_pod_route : Spec → ℕ → Link → Route → Exec W (Unit {0})
  unfolding install_route
  add_pod_route spec h link r =
      wrapping "NIC %s" (spec.iface_name ∷ []) (lift (parse net r spec.gateway))
      >>= install_route spec h link r

  abbrev pod_addresses : Spec → List String
  pod_addresses spec = spec.ip ∷ (if spec.kube_virt_vmi then [] else spec.extra_ips)

  -- The part behind the test for a tap.
  configure_link : Spec → ℕ → Link → Exec W (Unit {0})
  unfolding set_pod_mac set_pod_mtu add_address add_pod_route
  configure_link spec h link =
      set_pod_mac spec h link
      >> (set_pod_mtu spec h link
          >> (for_each (pod_addresses spec) (add_address spec h link)
              >> (wrapping "set %s up" (spec.iface_name ∷ []) (k.request (handle h) (set_up link))
                  >> for_each spec.routes (add_pod_route spec h link))))

  unfoldable pub configure_pod_iface : Spec → Exec W (Unit {0})
  unfolding configure_link
  configure_pod_iface spec =
      with_netns k spec.netns_path (λ e. fail (wrap "open netns %s" (spec.netns_path ∷ []) e))
        λ ns.
          with_handle k ns (λ e. fail (wrap "netlink handle for netns %s" (spec.netns_path ∷ []) e))
            λ h.
              wrapping "look up %s in netns" (spec.iface_name ∷ [])
                (k.link_by_name (handle h) spec.iface_name)
              >>= λ link. if link.kind == "tuntap" then pure tt else configure_link spec h link
