-- ===== src/Linux/Servers/Serving.antt =====
-- What ensureVMIDHCPServer of pkg/plumbing/plumbing_linux.go starts where no server is in the table.
use mathlib.Core.Path.{subst}
use kube_ovn_dra_driver.Prelude.{
  ℕ, String, Bool, false, Option, none, some, List, ◌≡◌, refl, sym, ap, ◌∙◌, ◌⊎◌, inl, inr, Result,
  ok, err, ok-injective, if◌then◌else◌,
}
use kube_ovn_dra_driver.Exec.{Exec}
use kube_ovn_dra_driver.Exec.Frames.{Frames}
use kube_ovn_dra_driver.Exec.Sealed.{bind-eq-ok, pure, lift, wrapping, Frames-lift, Frames-wrapping}
use kube_ovn_dra_driver.Store.{Spec}
use kube_ovn_dra_driver.Attach.Routes.{Ip, v4, NetParsers}
use kube_ovn_dra_driver.Dhcp.{DhcpOptions, vmi_dhcp_options}
use kube_ovn_dra_driver.Linux.{Kernel, Texts, Listener}
use kube_ovn_dra_driver.Linux.Servers.{
  Node, Servers, set_server, node_kernel, fake_dhcp_server_ip, start, serve_ipv4, serve_address,
  start_missing, new_netns_udp4_filter_listener, ensure_vmi_dhcp_server,
}
use kube_ovn_dra_driver.Linux.Servers.Frames.{new_netns_udp4_filter_listener-Frames}
use kube_ovn_dra_driver.Linux.Servers.Table.{SameTable, kernel-SameTable}

module _ {W : Type 0} where
  wrapped_ok :
      {A : Type 0} (f : String) (args : List String) (m : Exec (Node W) A) (s v : Node W) (a : A)
      → wrapping f args m s ≡ (ok a, v)
      → m s ≡ (ok a, v)
  unfolding wrapping
  wrapped_ok {A} f args m s v a h = go (m s).0 (m s).1 refl h
    where
      go :
          (r : Result A) (w : Node W)
          → m s ≡ (r, w)
          → wrapping f args (λ x. (r, w)) s ≡ (ok a, v)
          → m s ≡ (ok a, v)
      go (ok b) w e i = e ∙ i
      go (err x) w e i = cc i

  -- A call that leaves the table as it was, where its result is known.
  table_after :
      {A : Type 0} (m : Exec (Node W) A) (s v : Node W) (r : Result A)
      → Frames SameTable m
      → m s ≡ (r, v)
      → v.servers ≡ s.servers
  table_after {A} m s v r k e = sym (ap (λ (o : Result A × Node W). o.1.servers) e) ∙ k.at s

module _ {W : Type 0} (k : Kernel W) (t : Texts) (net : NetParsers) (spec : Spec)
    (bridge : String) where
  -- `dhcp.Serve` was called on a listener just opened for port 67 of the bridge in the netns, with
  -- the client's address, the MAC and the options of the Spec; the table has that listener for the
  -- NIC, and is otherwise as before.
  abbrev pub Serves : Ip → List ℕ → Node W → Node W → Type 0
  Serves ip mask s s' =
      (l : Listener) × (mac : List ℕ) × (options : DhcpOptions) × (before : Node W) × (opened : Node
        W)
      × (t.parse_mac spec.mac ≡ ok mac)
      × (vmi_dhcp_options net spec mask ≡ ok options)
      × (new_netns_udp4_filter_listener (node_kernel k) spec.netns_path bridge ":67" before
          ≡ (ok l, opened))
      × (s' ≡ record {
        host =
            k.serve l
              (record {
                server_ip = fake_dhcp_server_ip;
                client_ip = ip;
                client_mac = mac;
                options = options;
              })
              opened.host;
        servers = set_server s.servers spec.netns_path bridge (some l);
      })

  lifted_ok :
      {A : Type 0} (r : Result A) (s v : Node W) (a : A)
      → lift {S = Node W} r s ≡ (ok a, v)
      → r ≡ ok a
  unfolding lift
  lifted_ok r s v a h = ap (λ o. o.0) h

  lifted_state :
      {A : Type 0} (r a : Result A) (s v : Node W) → lift {S = Node W} r s ≡ (a, v) → v ≡ s
  unfolding lift
  lifted_state r a s v h = sym (ap (λ o. o.1) h)

  serve_ipv4-Serves :
      (ip : Ip) (mask : List ℕ) (s s' : Node W)
      → serve_ipv4 (node_kernel k) t net spec bridge ip mask s ≡ (ok tt, s')
      → Serves ip mask s s'
  unfolding serve_ipv4 start
  serve_ipv4-Serves ip mask s s' h =
      let kept = kernel-SameTable k in
      let (mac, v₁, e₁, h₁) = bind-eq-ok _ _ s s' tt h in
      let (options, v₂, e₂, h₂) = bind-eq-ok _ _ v₁ s' tt h₁ in
      let (l, v₃, e₃, h₃) = bind-eq-ok _ _ v₂ s' tt h₂ in
      let same₁ = table_after _ s v₁ _ (Frames-wrapping _ _ _ (Frames-lift kept.pre _)) e₁ in
      let same₂ = table_after _ v₁ v₂ _ (Frames-lift kept.pre _) e₂ in
      let same₃ =
        table_after _ v₂ v₃ _
          (Frames-wrapping _ _ _
            (new_netns_udp4_filter_listener-Frames kept spec.netns_path bridge ":67"))
          e₃ in
      (
        l,
        mac,
        options,
        v₂,
        v₃,
        lifted_ok _ s v₁ mac (wrapped_ok _ _ _ s v₁ mac e₁),
        lifted_ok _ v₁ v₂ options e₂,
        wrapped_ok _ _ _ v₂ v₃ l e₃,
        sym (ap (λ (o : Result (Unit {0}) × Node W). o.1) h₃)
            ∙ ap
                (λ (m : Servers). record {
                  host =
                      k.serve l
                        (record {
                          server_ip = fake_dhcp_server_ip;
                          client_ip = ip;
                          client_mac = mac;
                          options = options;
                        })
                        v₃.host;
                  servers = set_server m spec.netns_path bridge (some l);
                })
                (same₃ ∙ same₂ ∙ same₁),
      )

  start_missing-Serves :
      (a b c d : ℕ) (mask : List ℕ) (o : Option Listener) (s s' : Node W)
      → t.parse_cidr spec.ip ≡ ok (v4 a b c d, mask)
      → start_missing (node_kernel k) t net spec bridge o s ≡ (ok tt, s')
      → ((l : Listener) × (o ≡ some l) × (s' ≡ s)) ⊎ ((o ≡ none) × Serves (v4 a b c d) mask s s')
  unfolding start_missing pure serve_address
  start_missing-Serves a b c d mask (some l) s s' parsed h =
      inl (l, refl, sym (ap (λ (r : Result (Unit {0}) × Node W). r.1) h))
  start_missing-Serves a b c d mask none s s' parsed h =
      let (x, v, e, i) = bind-eq-ok _ _ s s' tt h in
      let e' = wrapped_ok _ _ _ s v x e in
      let x_is = ok-injective (sym (lifted_ok _ s v x e') ∙ parsed) in
      let v_is = lifted_state _ (ok x) s v e' in
      inr (refl, serve_ipv4-Serves (v4 a b c d) mask s s' (rw (x_is, v_is) at i))

  -- Where OVN has no DHCP for the NIC and its address is an IPv4 address, a nil of
  -- ensureVMIDHCPServer says that either the table had a listener for its netns and bridge, and then
  -- nothing was done, or it had none and `dhcp.Serve` was called on one just opened there, which the
  -- table has now, with the address, the MAC and the DHCP options of the NIC.
  pub ensure_vmi_dhcp_server-Serves :
      (s s' : Node W) (a b c d : ℕ) (mask : List ℕ)
      → spec.ovn_dhcp ≡ false
      → t.parse_cidr spec.ip ≡ ok (v4 a b c d, mask)
      → ensure_vmi_dhcp_server (node_kernel k) t net spec bridge s ≡ (ok tt, s')
      → ((l : Listener) × (s.servers spec.netns_path bridge ≡ some l) × (s' ≡ s))
        ⊎ ((s.servers spec.netns_path bridge ≡ none) × Serves (v4 a b c d) mask s s')
  unfolding ensure_vmi_dhcp_server
  ensure_vmi_dhcp_server-Serves s s' a b c d mask own parsed h =
      start_missing-Serves a b c d mask (s.servers spec.netns_path bridge) s s' parsed (
        subst
          (λ (own_dhcp : Bool).
            (if own_dhcp
                then pure tt
                else start_missing (node_kernel k) t net spec bridge
                    (s.servers spec.netns_path bridge))
              s
            ≡ (ok tt, s'))
          own h)
