-- ===== src/Attach/Kept.antt =====
-- Attach and Detach of pkg/plumbing/plumbing.go leave as it was what each helper leaves as it was.
use kube_ovn_dra_driver.Prelude.{
  ℕ, String, Bool, true, false, Option, none, some, Error, inl, inr, Result-cases, Option-cases,
  Bool-cases, nat_eq, if◌then◌else◌,
}
use kube_ovn_dra_driver.Exec.Frames.{IsPreorder}
use kube_ovn_dra_driver.Store.{Spec}
use kube_ovn_dra_driver.Attach.{
  ShortHash, Datapath, attach, detach, or_else, cleanup, plug, wire, unplug, validate, veth_names,
  with_mtu,
}

-- Whether it returns nil or an error, each helper leaves the state related.
pub record DatapathKept {W : Type 0} (R : W → W → Type 0) (d : Datapath W) : Type 0 where
  pub pre : IsPreorder R
  pub asks : (path : String) (w : W) → R w (d.primary_mtu path w).1
  pub creates : (host pod : String) (mtu : ℕ) (w : W) → R w (d.create_veth_pair host pod mtu w).1
  pub moves : (pod path iface : String) (w : W) → R w (d.move_into_netns pod path iface w).1
  pub configures : (s : Spec) (w : W) → R w (d.configure_pod_iface s w).1
  pub binds : (host : String) (s : Spec) (w : W) → R w (d.attach_to_ovs host s w).1
  pub wires : (s : Spec) (w : W) → R w (d.wire_vmi_bridge s w).1
  pub unwires : (s : Spec) (w : W) → R w (d.unwire_vmi_bridge s w).1
  pub unbinds : (host : String) (s : Spec) (w : W) → R w (d.detach_from_ovs host s w).1
  pub cleans : (host : String) (w : W) → R w (d.cleanup_host_veth host w).1
  pub clears : (name namespace : String) (w : W) → R w (d.detach_pod_ports name namespace w).1

module _ {W : Type 0} {R : W → W → Type 0} (hash : ShortHash) {d : Datapath W}
    (kept : DatapathKept R d) where
  or_else_kept :
      (w : W) (r : Option Error × W) (undo : W → W) (rest : W → Option Error × W)
      → R w r.1
      → ((v : W) → R v (undo v))
      → ((v : W) → R v (rest v).1)
      → R w (or_else hash d r undo rest).1
  or_else_kept w (none, v) undo rest h u g = kept.pre.trans_at w v _ h (g v)
  or_else_kept w (some e, v) undo rest h u g = kept.pre.trans_at w v _ h (u v)

  if_kept :
      (w : W) (b : Bool) (r r' : Option Error × W)
      → R w r.1
      → R w r'.1
      → R w (if b then r else r').1
  if_kept w true r r' h h' = h
  if_kept w false r r' h h' = h'

  unbind_kept :
      (host : String) (s : Spec) (v : W) → R v (cleanup hash d host (d.detach_from_ovs host s v).1)
  unbind_kept host s v = kept.pre.trans_at v _ _ (kept.unbinds host s v) (kept.cleans host _)

  wire_kept : (host : String) (s : Spec) (w : W) → R w (wire hash d host s w).1
  unfolding wire
  wire_kept host s w =
      if_kept w s.kube_virt_vmi _ (none, w)
        (or_else_kept w (d.wire_vmi_bridge s w)
          (λ v. cleanup hash d host (d.detach_from_ovs host s v).1) (λ v. (none, v))
          (kept.wires s w) (unbind_kept host s) kept.pre.refl_at)
        (kept.pre.refl_at w)

  bind_kept :
      (host : String) (s : Spec) (w : W)
      → R w (or_else hash d (d.attach_to_ovs host s w) (cleanup hash d host) (wire hash d host s)).1
  bind_kept host s w =
      or_else_kept w (d.attach_to_ovs host s w) (cleanup hash d host) (wire hash d host s)
        (kept.binds host s w) (kept.cleans host) (wire_kept host s)

  plug_kept : (host pod : String) (s : Spec) (w : W) → R w (plug hash d host pod s w).1
  unfolding plug
  plug_kept host pod s w =
      or_else_kept w (d.create_veth_pair host pod s.mtu w) (λ v. v) _
        (kept.creates host pod s.mtu w) kept.pre.refl_at
        λ v₁.
          or_else_kept v₁ (d.move_into_netns pod s.netns_path s.iface_name v₁) (cleanup hash d host)
            _ (kept.moves pod s.netns_path s.iface_name v₁) (kept.cleans host)
            λ v₂.
              or_else_kept v₂ (d.configure_pod_iface s v₂) (cleanup hash d host) _
                (kept.configures s v₂) (kept.cleans host) (bind_kept host s)

  with_mtu_kept : (s : Spec) (w : W) → R w (with_mtu hash d s w).1
  unfolding with_mtu
  with_mtu_kept s w = elim (Bool-cases (nat_eq s.mtu 0)) [
    | inl e ↦ rw (e, with_mtu) (kept.asks s.netns_path w)
    | inr e ↦ rw (e, with_mtu) (kept.pre.refl_at w)
  ]

  pub attach_kept : (s : Spec) (w : W) → R w (attach hash d s w).1
  unfolding attach
  attach_kept s w = elim (Option-cases (validate s)) [
    | inr (x, e) ↦ rw (e, attach) (kept.pre.refl_at w)
    | inl e ↦ elim (Result-cases (veth_names hash s)) [
      | inl ((host, pod), n) ↦
          rw (e, n, attach)
            (kept.pre.trans_at w _ _ (with_mtu_kept s w)
              (plug_kept host pod (with_mtu hash d s w).0 (with_mtu hash d s w).1))
      | inr (x, n) ↦ rw (e, n, attach) (kept.pre.refl_at w)
    ]
  ]

  unplug_kept : (s : Spec) (w : W) → R w (unplug hash d s w).1
  unfolding unplug
  unplug_kept s w = elim (Result-cases (veth_names hash s)) [
    | inl ((host, pod), n) ↦
        rw (n, unplug)
          (or_else_kept w (d.detach_from_ovs host s w) (λ v. v) (d.cleanup_host_veth host)
            (kept.unbinds host s w) kept.pre.refl_at (kept.cleans host))
    | inr (x, n) ↦ rw (n, unplug) (kept.pre.refl_at w)
  ]

  pub detach_kept : (s : Spec) (w : W) → R w (detach hash d s w).1
  unfolding detach
  detach_kept s w =
      if_kept w s.kube_virt_vmi _ (unplug hash d s w)
        (or_else_kept w (d.unwire_vmi_bridge s w) (λ v. v) (unplug hash d s) (kept.unwires s w)
          kept.pre.refl_at (unplug_kept s))
        (unplug_kept s w)
