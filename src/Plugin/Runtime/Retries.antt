-- ===== src/Plugin/Runtime/Retries.antt =====
-- The retries of cmd/kube-ovn-dra-kubeletplugin/nri.go: what waits for a retry, and when none is left.
use kube_ovn_dra_driver.Prelude.{
  String, ◌==◌, List, [], ◌∷◌, ◌≡◌, ◌≢◌, refl, sym, inl, inr, All, map, eq_iff, Bool-cases,
  Option-cases,
}
use kube_ovn_dra_driver.Sandbox.{Attacher, on_synchronize_sandbox, returned}
use kube_ovn_dra_driver.Plugin.Runtime.{
  PodSandbox, Failed, NriPlugin, network_namespace_path, insert, remove, sync_sandbox,
  sync_sandboxes, synchronize, retry_failed, stop_pod_sandbox,
}

-- An entry of the failed sandboxes stands under its UID and has a network namespace to attach into.
abbrev pub IsWaiting : String × PodSandbox → Type 0
IsWaiting (uid, sb) = (sb.uid ≡ uid) × (network_namespace_path sb ≢ "")

insert-IsWaiting :
    (sb : PodSandbox) (f : Failed)
    → network_namespace_path sb ≢ ""
    → All IsWaiting f
    → All IsWaiting (insert sb.uid sb f)
unfolding insert
insert-IsWaiting sb [] h w = ((refl, h), tt)
insert-IsWaiting sb ((k, old) ∷ f) h (w, ws) = elim (Bool-cases (k == sb.uid)) [
  | inl e ↦ rw e ((sym ((eq_iff k sb.uid).0 e), h), ws)
  | inr e ↦ rw e (w, insert-IsWaiting sb f h ws)
]

remove-IsWaiting : (uid : String) (f : Failed) → All IsWaiting f → All IsWaiting (remove uid f)
unfolding remove
remove-IsWaiting uid [] w = tt
remove-IsWaiting uid ((k, old) ∷ f) (w, ws) = elim (Bool-cases (k == uid)) [
  | inl e ↦ rw e (remove-IsWaiting uid f ws)
  | inr e ↦ rw e (w, remove-IsWaiting uid f ws)
]

module _ {W : Type 0} (attacher : Attacher W) where
  sync_sandbox-IsWaiting :
      (sb : PodSandbox) (p : NriPlugin W)
      → All IsWaiting p.failed
      → All IsWaiting (sync_sandbox attacher sb p).failed
  unfolding sync_sandbox
  sync_sandbox-IsWaiting sb p w = elim (Bool-cases (network_namespace_path sb == "")) [
    | inl e ↦ rw e w
    | inr e ↦
        let h =
          on_synchronize_sandbox attacher sb.uid sb.id (network_namespace_path sb) sb.labels p.store
            p.host in
        elim (Option-cases (returned h)) [
          | inl n ↦ rw (e, n) (remove-IsWaiting sb.uid p.failed w)
          | inr (x, n) ↦
              rw (e, n)
                (insert-IsWaiting sb p.failed
                  (λ z. cc (e, (eq_iff (network_namespace_path sb) "").1 z)) w)
        ]
  ]

  sync_sandboxes-IsWaiting :
      (sbs : List PodSandbox) (p : NriPlugin W)
      → All IsWaiting p.failed
      → All IsWaiting (sync_sandboxes attacher sbs p).failed
  unfolding sync_sandboxes
  sync_sandboxes-IsWaiting [] p w = w
  sync_sandboxes-IsWaiting (sb ∷ sbs) p w =
      sync_sandboxes-IsWaiting sbs (sync_sandbox attacher sb p) (sync_sandbox-IsWaiting sb p w)

  -- Synchronize, a tick of the retries and StopPodSandbox keep the failed sandboxes well-formed: each
  -- stands under its own UID and has a network namespace, so that a retry tries to attach its NICs.
  pub failed-IsWaiting :
      (pods : List PodSandbox) (stopped : PodSandbox) (p : NriPlugin W)
      → All IsWaiting p.failed
      → All IsWaiting (synchronize attacher pods p).failed
        × All IsWaiting (retry_failed attacher p).failed
        × All IsWaiting (stop_pod_sandbox attacher stopped p).1.failed
  unfolding synchronize retry_failed stop_pod_sandbox
  failed-IsWaiting pods stopped p w = (
    sync_sandboxes-IsWaiting pods p w,
    sync_sandboxes-IsWaiting (map (λ (e : String × PodSandbox). e.1) p.failed) p w,
    remove-IsWaiting stopped.uid p.failed w,
  )
