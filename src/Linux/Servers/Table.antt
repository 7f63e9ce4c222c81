-- ===== src/Linux/Servers/Table.antt =====
-- The table of DHCP servers across ensureVMIDHCPServer and stopVMIDHCPServer.
use kube_ovn_dra_driver.Prelude.{
  ℕ, String, Bool, true, false, Option, none, some, List, ◌≡◌, refl, ◌∙◌, ◌⊎◌, inl, inr, Result, ok,
  err, if◌then◌else◌,
}
use kube_ovn_dra_driver.Exec.{Exec}
use kube_ovn_dra_driver.Exec.Frames.{IsPreorder, Frames}
use kube_ovn_dra_driver.Exec.Sealed.{
  ◌>>=◌, pure, lift, wrapping, Frames-wrapping, Frames-lift, Frames-pure,
}
use kube_ovn_dra_driver.Store.{Spec}
use kube_ovn_dra_driver.Attach.Routes.{Ip, v4, v6, NetParsers}
use kube_ovn_dra_driver.Dhcp.{Handler}
use kube_ovn_dra_driver.Linux.{Kernel, Texts, Listener}
use kube_ovn_dra_driver.Linux.Kept.{Kept, with_netns-Frames, with_handle-Frames, switched_to-Frames}
use kube_ovn_dra_driver.Linux.Servers.{
  Node, set_server, node_kernel, on_host, start, serve_ipv4, serve_address, start_missing,
  ensure_vmi_dhcp_server,
}
use kube_ovn_dra_driver.Linux.Servers.Frames.{new_netns_udp4_filter_listener-Frames}

abbrev pub SameTable : {W : Type 0} → Node W → Node W → Type 0
SameTable s s' = s'.servers ≡ s.servers

SameTable-IsPreorder : {W : Type 0} → IsPreorder (SameTable {W = W})
SameTable-IsPreorder = record { refl_at = λ s. refl; trans_at = λ s t u a b. b ∙ a }

-- The kernel knows nothing of the table.
pub kernel-SameTable : {W : Type 0} (k : Kernel W) → Kept SameTable (node_kernel k)
unfolding on_host
kernel-SameTable k = record {
  pre = SameTable-IsPreorder;
  plain = record {
    link = λ s name. record { at = λ n. refl };
    request = λ s r h. record { at = λ n. refl };
    runs = λ name argv n. refl;
    interface = λ name. record { at = λ n. refl };
    listened = λ laddr. record { at = λ n. refl };
    controlled = λ conn. record { at = λ n. refl };
    conn_closed = λ conn n. refl;
    listener_closed = λ l. record { at = λ n. refl };
    served = λ l h n. refl;
  };
  netns =
      with_netns-Frames SameTable-IsPreorder (node_kernel k) (λ path. record { at = λ n. refl })
        (λ ns n. refl);
  handled =
      with_handle-Frames SameTable-IsPreorder (node_kernel k) (λ ns. record { at = λ n. refl })
        (λ h n. refl);
  switched =
      switched_to-Frames SameTable-IsPreorder (node_kernel k) (record { at = λ n. refl })
        (λ ns. record { at = λ n. refl }) (λ ns n. refl);
}

-- The table is as before, or has a server more, where there was none and the call succeeds.
abbrev pub Started : {W : Type 0} → String → String → Node W → Result (Unit {0}) → Node W → Type 0
Started netns bridge s r s' =
    (s'.servers ≡ s.servers)
    ⊎ ((l : Listener) × (r ≡ ok tt) × (s'.servers ≡ set_server s.servers netns bridge (some l)))

module _ {W : Type 0} (netns bridge : String) where
  record Starts (m : Exec (Node W) (Unit {0})) : Type 0 where
    at : (s : Node W) → Started netns bridge s (m s).0 (m s).1

  from_same :
      (s v s' : Node W) (r : Result (Unit {0}))
      → v.servers ≡ s.servers
      → Started netns bridge v r s'
      → Started netns bridge s r s'
  from_same s v s' r e (inl a) = inl (a ∙ e)
  from_same s v s' r e (inr (l, okay, a)) = inr (l, okay, rw⁻¹ e a)

  Starts-bind :
      {A : Type 0} (m : Exec (Node W) A) (f : A → Exec (Node W) (Unit {0}))
      → Frames SameTable m
      → ((a : A) → Starts (f a))
      → Starts (m >>= f)
  unfolding ◌>>=◌ lift
  Starts-bind {A} m f km kf = record { at = λ s. go s (m s).0 (m s).1 (km.at s) }
    where
      go :
          (s : Node W) (r : Result A) (v : Node W)
          → v.servers ≡ s.servers
          → let (r', s') = (lift r >>= f) v in Started netns bridge s r' s'
      go s (ok a) v e = from_same s v (f a v).1 (f a v).0 e ((kf a).at v)
      go s (err x) v e = inl e

  Starts-Frames : (m : Exec (Node W) (Unit {0})) → Frames SameTable m → Starts m
  Starts-Frames m k = record { at = λ s. inl (k.at s) }

module _ {W : Type 0} (k : Kernel W) (t : Texts) (net : NetParsers) (spec : Spec)
    (bridge : String) where
  start-Starts :
      (h : Handler) (l : Listener)
      → Starts spec.netns_path bridge (start (node_kernel k) t net spec bridge h l)
  unfolding start
  start-Starts h l = record { at = λ s. inr (l, refl, refl) }

  same :
      {A : Type 0} (f : String) (args : List String) (r : Result A)
      → Frames (SameTable {W = W}) (wrapping f args (lift r))
  same f args r = Frames-wrapping f args _ (Frames-lift SameTable-IsPreorder r)

  serve_address-Starts :
      (a : Ip × List ℕ)
      → Starts spec.netns_path bridge (serve_address (node_kernel k) t net spec bridge a)
  unfolding serve_address serve_ipv4
  serve_address-Starts (v6 bs, mask) = Starts-Frames _ _ _ (Frames-pure SameTable-IsPreorder tt)
  serve_address-Starts (v4 a b c d, mask) = Starts-bind _ _ _ _ (same _ _ _) λ mac.
      Starts-bind _ _ _ _ (Frames-lift SameTable-IsPreorder _) λ options.
        Starts-bind _ _ _ _
          (Frames-wrapping _ _ _ (
            new_netns_udp4_filter_listener-Frames (kernel-SameTable k) spec.netns_path bridge
              ":67"))
          (start-Starts _)

  start_missing-Starts :
      Starts spec.netns_path bridge (start_missing (node_kernel k) t net spec bridge none)
  unfolding start_missing
  start_missing-Starts = Starts-bind _ _ _ _ (same _ _ _) serve_address-Starts

  -- A server that runs already, or a table that changes by at most one server.
  pub Ensured : Node W → Result (Unit {0}) → Node W → Type 0
  Ensured s r s' =
      ((l : Listener) × (s.servers spec.netns_path bridge ≡ some l) × (r ≡ ok tt) × (s' ≡ s))
      ⊎ ((s.servers spec.netns_path bridge ≡ none) × Started spec.netns_path bridge s r s')

  -- Ensuring the DHCP server of a NIC in a netns does nothing at all where one runs for that netns
  -- and that bridge. Otherwise the table of servers is as before, or has exactly one server more, for
  -- that netns and bridge, and then nil is returned: no error leaves a server in the table, and the
  -- servers of other NICs stay.
  pub ensure_vmi_dhcp_server-Ensured :
      (s : Node W)
      → let (r, s') = ensure_vmi_dhcp_server (node_kernel k) t net spec bridge s in Ensured s r s'
  unfolding ensure_vmi_dhcp_server Ensured pure start_missing
  ensure_vmi_dhcp_server-Ensured s = go spec.ovn_dhcp (s.servers spec.netns_path bridge) refl
    where
      go :
          (b : Bool) (o : Option Listener)
          → s.servers spec.netns_path bridge ≡ o
          → let (r, s') =
              (if b then pure tt else start_missing (node_kernel k) t net spec bridge o) s in
            Ensured s r s'
      go true none e = inr (e, inl refl)
      go true (some l) e = inl (l, e, refl, refl)
      go false none e = inr (e, start_missing-Starts.at s)
      go false (some l) e = inl (l, e, refl, refl)
