-- ===== src/Plugin/System/SameNics.antt =====
-- What the calls of the runtime in cmd/kube-ovn-dra-kubeletplugin/nri.go leave in the NIC store.
use kube_ovn_dra_driver.Prelude.{
  String, ◌==◌, Bool, Option, List, [], ◌∷◌, map, ◌≡◌, refl, ap, ◌∙◌, inl, inr, Error, Bool-cases,
}
use kube_ovn_dra_driver.Store.{NicStore}
use kube_ovn_dra_driver.Sandbox.Rollback.{
  Call, recording, by_pod-mark_all, on_run_pod_sandbox_all_or_nothing,
}
use kube_ovn_dra_driver.Sandbox.Sync.{
  on_synchronize_sandbox_tries_all, on_stop_pod_sandbox_detaches_all,
}
use kube_ovn_dra_driver.Plugin.Runtime.{
  PodSandbox, NriPlugin, network_namespace_path, sync_sandbox, sync_sandboxes, retry_failed,
  run_pod_sandbox, stop_pod_sandbox,
}
use kube_ovn_dra_driver.Plugin.Connection.{
  Connection, Step, sync_called, sync_attached, sync_done, closed, run_returned, run_ended,
  context_done, ticked, sandbox_run, sandbox_stopped,
}

module _ (answer : List Call → Call → Option Error) where
  -- The hooks change the marks of the store only.
  abbrev pub SameNics : NriPlugin (List Call) → NriPlugin (List Call) → Type 0
  SameNics p q = q.store.by_pod ≡ p.store.by_pod

  run_pod_sandbox-SameNics :
      (sb : PodSandbox) (p : NriPlugin (List Call))
      → SameNics p (run_pod_sandbox (recording answer) sb p).1
  unfolding run_pod_sandbox
  run_pod_sandbox-SameNics sb p = elim (Bool-cases (network_namespace_path sb == "")) [
    | inl e ↦ rw (e, run_pod_sandbox) refl
    | inr e ↦
        rw (e, run_pod_sandbox)
          (elim (on_run_pod_sandbox_all_or_nothing answer sb.uid sb.id (network_namespace_path sb)
            sb.labels p.store p.host) [
              | inl (_, _, m, _) ↦
                  ap (λ (q : NicStore). q.by_pod) m ∙ by_pod-mark_all sb.uid _ p.store
              | inr (_, _, _, _, _, _, _, b, _, _) ↦ b
            ])
  ]

  sync_sandbox-SameNics :
      (sb : PodSandbox) (p : NriPlugin (List Call))
      → SameNics p (sync_sandbox (recording answer) sb p)
  unfolding sync_sandbox
  sync_sandbox-SameNics sb p = elim (Bool-cases (network_namespace_path sb == "")) [
    | inl e ↦ rw (e, sync_sandbox) refl
    | inr e ↦
        rw (e, sync_sandbox)
          (let (_, _, m) =
              on_synchronize_sandbox_tries_all answer sb.uid sb.id (network_namespace_path sb)
                sb.labels p.store p.host in
            ap (λ (q : NicStore). q.by_pod) m ∙ by_pod-mark_all sb.uid _ p.store)
  ]

  sync_sandboxes-SameNics :
      (sbs : List PodSandbox) (p : NriPlugin (List Call))
      → SameNics p (sync_sandboxes (recording answer) sbs p)
  unfolding sync_sandboxes
  sync_sandboxes-SameNics [] p = refl
  sync_sandboxes-SameNics (sb ∷ sbs) p =
      sync_sandboxes-SameNics sbs (sync_sandbox (recording answer) sb p)
      ∙ sync_sandbox-SameNics sb p

  stop_pod_sandbox-SameNics :
      (sb : PodSandbox) (p : NriPlugin (List Call))
      → SameNics p (stop_pod_sandbox (recording answer) sb p).1
  unfolding stop_pod_sandbox
  stop_pod_sandbox-SameNics sb p =
      let (_, _, b) =
        on_stop_pod_sandbox_detaches_all answer sb.uid sb.name sb.namespace p.store p.host in
      b

  retry_failed-SameNics :
      (p : NriPlugin (List Call)) → SameNics p (retry_failed (recording answer) p)
  unfolding retry_failed
  retry_failed-SameNics p =
      sync_sandboxes-SameNics (map (λ (e : String × PodSandbox). e.1) p.failed) p

  pub Step-SameNics :
      {waits : Bool} {c d : Connection (List Call)}
      → Step (recording answer) waits c d
      → SameNics c.plugin d.plugin
  Step-SameNics (sync_called c pods a b) = refl
  Step-SameNics (sync_attached c sb sbs a) = sync_sandbox-SameNics sb c.plugin
  Step-SameNics (sync_done c a) = refl
  Step-SameNics (closed c a) = refl
  Step-SameNics (run_returned c a b) = refl
  Step-SameNics (run_ended c a b) = refl
  Step-SameNics (context_done c a) = refl
  Step-SameNics (ticked c) = retry_failed-SameNics c.plugin
  Step-SameNics (sandbox_run c sb) = run_pod_sandbox-SameNics sb c.plugin
  Step-SameNics (sandbox_stopped c sb) = stop_pod_sandbox-SameNics sb c.plugin
