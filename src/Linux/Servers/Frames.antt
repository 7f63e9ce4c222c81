-- ===== src/Linux/Servers/Frames.antt =====
-- The DHCP servers keep what the kernel's calls keep, where the table of servers is not looked at.
use kube_ovn_dra_driver.Prelude.{ℕ, String, Option, none, some, List, Result-cases, inl, inr}
use kube_ovn_dra_driver.Exec.Frames.{Frames}
use kube_ovn_dra_driver.Exec.Sealed.{frames_rules, Frames-if, Frames-pure}
use kube_ovn_dra_driver.Store.{Spec}
use kube_ovn_dra_driver.Attach.Routes.{Ip, NetParsers, v4, v6}
use kube_ovn_dra_driver.Dhcp.{Handler}
use kube_ovn_dra_driver.Linux.{Kernel, Texts, Listener}
use kube_ovn_dra_driver.Linux.Kept.{Kept}
use kube_ovn_dra_driver.Linux.Servers.{
  Node, Servers, filtered, open_listener, new_netns_udp4_filter_listener, start, serve_ipv4,
  serve_address, start_missing, ensure_vmi_dhcp_server, close_found, stop_vmi_dhcp_server,
}

module _ {W : Type 0} {R : W → W → Type 0} {k : Kernel W} (kept : Kept R k) where
  filtered-Frames : (index conn : ℕ) → Frames R (filtered k index conn)
  unfolding filtered
  filtered-Frames index conn = record {
    at = λ w. elim (Result-cases (k.set_control_message conn w).0) [
      | inl (u, e) ↦ rw (e, filtered) ((kept.plain.controlled conn).at w)
      | inr (x, e) ↦
          rw (e, filtered)
            (kept.pre.trans_at w _ _ ((kept.plain.controlled conn).at w)
              (kept.plain.conn_closed conn _))
    ];
  }

  open_listener-Frames : (iface laddr : String) → Frames R (open_listener k iface laddr)
  unfolding open_listener
  open_listener-Frames iface laddr =
      search (frames_rules, kept.pre, kept.plain.interface, kept.plain.listened, filtered-Frames)

  pub new_netns_udp4_filter_listener-Frames :
      (path iface laddr : String) → Frames R (new_netns_udp4_filter_listener k path iface laddr)
  unfolding new_netns_udp4_filter_listener
  new_netns_udp4_filter_listener-Frames path iface laddr =
      search (frames_rules, kept.pre, kept.netns, kept.switched, open_listener-Frames)

module _ {W : Type 0} {R : Node W → Node W → Type 0} {k : Kernel (Node W)} (kept : Kept R k)
    (t : Texts) (net : NetParsers) where
  pub close_found-Frames : (o : Option Listener) → Frames R (close_found k t net o)
  unfolding close_found
  close_found-Frames none = search (frames_rules, kept.pre)
  close_found-Frames (some l) = kept.plain.listener_closed l

module _ {W : Type 0} {R : Node W → Node W → Type 0} {k : Kernel (Node W)} (kept : Kept R k)
    (unseen : (s : Node W) (m : Servers) → R s (record s { servers = m })) (t : Texts)
    (net : NetParsers) where
  start-Frames :
      (spec : Spec) (bridge : String) (h : Handler) (l : Listener)
      → Frames R (start k t net spec bridge h l)
  unfolding start
  start-Frames spec bridge h l = record {
    at = λ s. kept.pre.trans_at s _ _ (unseen s _) (kept.plain.served l h _);
  }

  serve_ipv4-Frames :
      (spec : Spec) (bridge : String) (ip : Ip) (mask : List ℕ)
      → Frames R (serve_ipv4 k t net spec bridge ip mask)
  unfolding serve_ipv4
  serve_ipv4-Frames spec bridge ip mask =
      search (frames_rules, kept.pre, start-Frames, new_netns_udp4_filter_listener-Frames kept)

  serve_address-Frames :
      (spec : Spec) (bridge : String) (a : Ip × List ℕ)
      → Frames R (serve_address k t net spec bridge a)
  unfolding serve_address
  serve_address-Frames spec bridge (v4 a b c d, mask) = serve_ipv4-Frames spec bridge _ mask
  serve_address-Frames spec bridge (v6 bs, mask) = search (frames_rules, kept.pre)

  start_missing-Frames :
      (spec : Spec) (bridge : String) (o : Option Listener)
      → Frames R (start_missing k t net spec bridge o)
  unfolding start_missing
  start_missing-Frames spec bridge (some l) = search (frames_rules, kept.pre)
  start_missing-Frames spec bridge none = search (frames_rules, kept.pre, serve_address-Frames)

  pub ensure_vmi_dhcp_server-Frames :
      (spec : Spec) (bridge : String) → Frames R (ensure_vmi_dhcp_server k t net spec bridge)
  unfolding ensure_vmi_dhcp_server
  ensure_vmi_dhcp_server-Frames spec bridge = record {
    at = λ s.
        (Frames-if spec.ovn_dhcp _ _ (Frames-pure kept.pre tt)
            (start_missing-Frames spec bridge (s.servers spec.netns_path bridge))).at
          s;
  }

  pub stop_vmi_dhcp_server-Frames :
      (netns bridge : String) → Frames R (stop_vmi_dhcp_server k t net netns bridge)
  unfolding stop_vmi_dhcp_server
  stop_vmi_dhcp_server-Frames netns bridge = record {
    at = λ s.
        kept.pre.trans_at s _ _ (unseen s _)
          ((close_found-Frames kept t net (s.servers netns bridge)).at _);
  }
