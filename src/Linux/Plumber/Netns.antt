-- ===== src/Linux/Plumber/Netns.antt =====
-- The netns of the thread and the open handles, across the calls of the OVS attacher.
use kube_ovn_dra_driver.Prelude.{
  ℕ, ◌+◌, ◌-◌, [], ◌≡◌, refl, ap, ◌∙◌, arith, Option, none, some, Error, Result, ok, err,
  ok-injective,
}
use kube_ovn_dra_driver.Exec.{Exec}
use kube_ovn_dra_driver.Exec.Frames.{IsPreorder, Frames}
use kube_ovn_dra_driver.Exec.Sealed.{◌>>=◌, ◌>>◌, wrapping, deferring, Frames-bind, Frames-wrapping}
use kube_ovn_dra_driver.Linux.{Kernel, with_netns, with_handle, switched_to, opened, leave}
use kube_ovn_dra_driver.Linux.Kept.{Kept}
use kube_ovn_dra_driver.Linux.Servers.{Node, node_kernel, on_host}
use kube_ovn_dra_driver.Linux.Plumber.Laws.{Opens, Names, KeepsOpen, HostLaws}

module _ {W : Type 0} {k : Kernel W} {thread held : W → ℕ} {names : W → ℕ → Option ℕ} {home : ℕ}
    (laws : HostLaws k thread held names home) where
  abbrev Opened : W → W → Type 0
  Opened w v = KeepsOpen (names w) (names v)

  -- A thread at home is at home again, as many handles are open as before, and none of those that
  -- were open is closed.
  abbrev Home : Node W → Node W → Type 0
  Home s s' =
      (thread s.host ≡ home → thread s'.host ≡ home)
      × (held s'.host ≡ held s.host)
      × Opened s.host s'.host

  abbrev Still : W → W → Type 0
  Still w v = (thread v ≡ thread w) × (held v ≡ held w) × Opened w v

  Still-Home : (s s' : Node W) → Still s.host s'.host → Home s s'
  Still-Home s s' (a, b, c) = (λ h. a ∙ h, b, c)

  Home-IsPreorder : IsPreorder Home
  Home-IsPreorder = record {
    refl_at = λ s. (λ h. h, refl, λ n ns e. e);
    trans_at = λ s t u a b. (λ h. b.0 (a.0 h), b.1 ∙ a.1, λ n ns e. b.2 n ns (a.2 n ns e));
  }

  HeldSame : Node W → Node W → Type 0
  HeldSame s s' = (held s'.host ≡ held s.host) × Opened s.host s'.host

  HeldSame-IsPreorder : IsPreorder HeldSame
  unfolding HeldSame
  HeldSame-IsPreorder = record {
    refl_at = λ s. (refl, λ n ns e. e);
    trans_at = λ s t u a b. (b.0 ∙ a.0, λ n ns e. b.1 n ns (a.1 n ns e));
  }

  home_again : (n : ℕ) (w : W) → names w n ≡ some home → thread (k.enter_netns n w).1 ≡ home
  home_again n w e = let m = (laws.enter_netns n w).0 in rw (laws.go_home n w e, e) at m

  -- Closing a handle that was not open at first closes none that was.
  others_open : (w v : W) (n : ℕ) → names w n ≡ none → Opened w v → Opened w (k.close_netns n v)
  others_open w v n new o m ns e = (laws.close_netns n v).2 m (λ q. cc (new, e, q)) ∙ o m ns e

  -- Back in the netns that the thread had, with its handle closed.
  leave-Home :
      (s v x : Node W) (orig : ℕ)
      → names s.host orig ≡ none
      → names v.host orig ≡ some (thread s.host)
      → Opened s.host v.host
      → held v.host ≡ held s.host + 1
      → HeldSame v x
      → Home s (leave (node_kernel k) orig x)
  unfolding leave on_host HeldSame
  leave-Home s v x orig new named more one_more (same, kept) =
      let y = (k.enter_netns orig x.host).1 in
      let l = laws.enter_netns orig x.host in
      (
        λ h.
            (laws.close_netns orig y).1
            ∙ home_again orig x.host (kept orig home (named ∙ ap some h)),
        omega (arith, (laws.close_netns orig y).0, l.1, one_more, same),
        others_open s.host y orig new (λ n ns e. l.2 n ns (kept n ns (more n ns e))),
      )

  module _ {A : Type 0} where
    opened-Home :
        (close : ℕ → Node W → Node W)
        (closes : (n : ℕ) (s : Node W)
          → (held (close n s).host ≡ held s.host - 1) × (thread (close n s).host ≡ thread s.host))
        (failed : Error → Exec (Node W) A) (body : ℕ → Exec (Node W) A) (s : Node W)
        (r : Result ℕ × Node W)
        → ((n : ℕ) (v : Node W)
            → r.0 ≡ ok n
            → Opened s.host v.host
            → Opened s.host (close n v).host)
        → Opens r.0 (held s.host) (held r.1.host)
        → thread r.1.host ≡ thread s.host
        → Opened s.host r.1.host
        → ((e : Error) → Frames Home (failed e))
        → ((n : ℕ) → Frames Home (body n))
        → Home s (opened (node_kernel k) close failed body r).1
    unfolding opened deferring
    opened-Home close closes failed body s (err e, v) others o m more kf kb =
        Home-IsPreorder.trans_at s v (failed e v).1 (Still-Home s v (m, o, more)) ((kf e).at v)
    opened-Home close closes failed body s (ok n, v) others o m more kf kb =
        let x = (body n v).1 in
        let b = (kb n).at v in
        (
          λ h. (closes n x).1 ∙ b.0 (m ∙ h),
          omega (arith, (closes n x).0, b.1, o),
          others n x refl (λ j ns e. b.2 j ns (more j ns e)),
        )

    -- Inside the switch as many handles are open before as after.
    inside_held :
        (ns : ℕ) (m : Exec (Node W) A) (s : Node W)
        → Frames Home m
        → HeldSame s ((wrapping "switch to target netns" [] (on_host (k.enter_netns ns)) >> m) s).1
    unfolding HeldSame on_host
    inside_held ns m s km =
        (Frames-bind HeldSame-IsPreorder
            (wrapping "switch to target netns" [] (on_host (k.enter_netns ns))) (λ u. m)
            (Frames-wrapping _ _ _ (record {
              at = λ n. ((laws.enter_netns ns n.host).1, (laws.enter_netns ns n.host).2);
            }))
            (λ u. record { at = λ n. ((km.at n).1, (km.at n).2) })).at
          s

    switched_to-Home_at :
        (ns : ℕ) (m : Exec (Node W) A) (s : Node W) (r : Result ℕ × W)
        → Frames Home m
        → Opens r.0 (held s.host) (held r.1)
        → thread r.1 ≡ thread s.host
        → Opened s.host r.1
        → Names (names s.host) r.0 none
        → Names (names r.1) r.0 (some (thread s.host))
        → k.current_netns s.host ≡ r
        → Home s (switched_to (node_kernel k) ns m s).1
    unfolding switched_to wrapping ◌>>=◌ on_host HeldSame deferring
    switched_to-Home_at ns m s (err e, v) km o same more new named e₁ =
        rw (e₁, switched_to) (Still-Home s (record s { host = v }) (same, o, more))
    switched_to-Home_at ns m s (ok n, v) km o same more new named e₁ =
        let v' : Node W = record s { host = v } in
        rw (e₁, switched_to)
          (leave-Home s v'
            ((wrapping "switch to target netns" [] (on_host (k.enter_netns ns)) >> m) v').1 n new
            named more o (inside_held ns m v' km))

    switched_to-Home :
        (ns : ℕ) (m : Exec (Node W) A)
        → Frames Home m
        → Frames Home (switched_to (node_kernel k) ns m)
    switched_to-Home ns m km = record {
      at = λ s.
          let l = laws.current_netns s.host in
          switched_to-Home_at ns m s (k.current_netns s.host) km l.0 l.1 l.2 l.3 l.4 refl;
    }

  pub netns-Kept : Kept Home (node_kernel k)
  unfolding on_host with_netns with_handle
  netns-Kept = record {
    pre = Home-IsPreorder;
    plain = record {
      link = λ n name. record { at = λ s. still s _ ((laws.plain.link n name).at s.host) };
      request = λ n r h. record { at = λ s. still s _ ((laws.plain.request n r h).at s.host) };
      runs = λ name argv s. still s _ (laws.plain.runs name argv s.host);
      interface = λ name. record { at = λ s. still s _ ((laws.plain.interface name).at s.host) };
      listened = λ laddr. record { at = λ s. still s _ ((laws.plain.listened laddr).at s.host) };
      controlled = λ c. record { at = λ s. still s _ ((laws.plain.controlled c).at s.host) };
      conn_closed = λ c s. still s _ (laws.plain.conn_closed c s.host);
      listener_closed =
          λ l. record { at = λ s. still s _ ((laws.plain.listener_closed l).at s.host) };
      served = λ l h s. still s _ (laws.plain.served l h s.host);
    };
    netns = λ path failed body kf kb. record {
      at = λ s.
          let l = laws.open_netns path s.host in
          opened-Home _ (λ n v. ((laws.close_netns n v.host).0, (laws.close_netns n v.host).1))
            failed body s _ (spares s (k.open_netns path s.host).0 l.3) l.0 l.1 l.2 kf kb;
    };
    handled = λ ns failed body kf kb. record {
      at = λ s.
          let l = laws.open_handle ns s.host in
          opened-Home _ (λ n v. ((laws.close_handle n v.host).0, (laws.close_handle n v.host).1))
            failed body s _ (λ n v e o m j i. (laws.close_handle n v.host).2 m ∙ o m j i) l.0 l.1
            l.2 kf kb;
    };
    switched = λ ns m km. switched_to-Home ns m km;
  }
    where
      still : (s : Node W) (v : W) → Still s.host v → Home s (record s { host = v })
      still s v h = Still-Home s (record s { host = v }) h

      spares :
          (s : Node W) (r : Result ℕ)
          → Names (names s.host) r none
          → (n : ℕ) (v : Node W) → r ≡ ok n
          → Opened s.host v.host
          → Opened s.host (k.close_netns n v.host)
      spares s (ok i) new n v e o = others_open s.host v.host n (rw⁻¹ (ok-injective e) new) o
      spares s (err x) new n v e o = cc e
