-- ===== src/Sandbox/Sync.antt =====
-- OnSynchronizeSandbox and OnStopPodSandbox of pkg/plumbing/nri.go, call by call, whatever the
-- attacher answers.
use mathlib.Core.List.{append_assoc, append-nil}
use kube_ovn_dra_driver.Prelude.{
  String, Option, none, some, List, [], ◌∷◌, ◌++◌, ◌≡◌, refl, sym, ap, ◌∙◌, inl, inr, Map, map,
  Error, Option-cases, get_list, update,
}
use kube_ovn_dra_driver.Store.{NicStore, Spec, mark_attached, take_attached}
use kube_ovn_dra_driver.Sandbox.{
  Handled, error_list, sandbox_specs, sync_all, on_synchronize_sandbox, on_stop_pod_sandbox,
}
use kube_ovn_dra_driver.Sandbox.Rollback.{
  Call, attaches, detaches, detaches_ports, recording, mark_all, detach_all-host,
}

-- The Specs whose answer is nil, and the errors of the others.
pub succeeded : List (Spec × Option Error) → List Spec
succeeded [] = []
succeeded ((s, none) ∷ os) = s ∷ succeeded os
succeeded ((s, some e) ∷ os) = succeeded os

pub failures : List (Spec × Option Error) → List Error
failures [] = []
failures ((s, e) ∷ os) = error_list e (failures os)

module _ (answer : List Call → Call → Option Error) where
  -- What the attacher answers when every NIC of the list is attached in turn.
  pub answers : List Spec → List Call → List (Spec × Option Error)
  answers [] w = []
  answers (s ∷ ss) w = (s, answer w (attaches s)) ∷ answers ss (w ++ attaches s ∷ [])

  abbrev pub SyncOutcome : String → List Spec → NicStore → List Call → Handled (List Call) → Type 0
  SyncOutcome pod ss p w h =
      (h.host ≡ w ++ map attaches ss)
      × (h.errors ≡ failures (answers ss w))
      × (h.store ≡ mark_all pod (succeeded (answers ss w)) p)

  sync_all-SyncOutcome :
      (pod : String) (ss : List Spec) (p : NicStore) (w : List Call)
      → SyncOutcome pod ss p w (sync_all (recording answer) pod ss p w)
  unfolding sync_all answers succeeded failures mark_all
  sync_all-SyncOutcome pod [] p w = (sym (append-nil w), refl, refl)
  sync_all-SyncOutcome pod (s ∷ ss) p w = elim (Option-cases (answer w (attaches s))) [
    | inl e ↦
        let ih = sync_all-SyncOutcome pod ss (mark_attached p pod s) (w ++ attaches s ∷ []) in
        rw (e, sync_all, succeeded)
          (ih.0 ∙ append_assoc w (attaches s ∷ []) (map attaches ss), ih.1, ih.2)
    | inr (x, e) ↦
        let ih = sync_all-SyncOutcome pod ss p (w ++ attaches s ∷ []) in
        rw (e, sync_all, succeeded)
          (ih.0 ∙ append_assoc w (attaches s ∷ []) (map attaches ss), ap (λ es. x ∷ es) ih.1, ih.2)
  ]

  -- Synchronize tries every NIC of a running sandbox once, in order, and makes no other call: the
  -- errors are those of the NICs that failed, and exactly the NICs that did not fail are marked
  -- attached, in order.
  pub on_synchronize_sandbox_tries_all :
      (pod container netns : String) (labels : Map String) (p : NicStore) (w : List Call)
      → SyncOutcome pod
          (sandbox_specs p pod container netns labels)
          p
          w
          (on_synchronize_sandbox (recording answer) pod container netns labels p w)
  unfolding on_synchronize_sandbox
  on_synchronize_sandbox_tries_all pod container netns labels p w =
      sync_all-SyncOutcome pod (sandbox_specs p pod container netns labels) p w

  -- StopPodSandbox detaches each NIC marked attached for the pod, in order and also after a detach
  -- that failed, then removes the ports found by the pod's name; it forgets the marks of that pod
  -- only, and keeps the NICs of all pods, so that a new sandbox gets them again.
  pub on_stop_pod_sandbox_detaches_all :
      (pod name namespace : String) (p : NicStore) (w : List Call)
      → let h = on_stop_pod_sandbox (recording answer) pod name namespace p w in
        (h.host
          ≡ w ++ (map detaches (get_list (p.attached pod)) ++ detaches_ports name namespace ∷ []))
        × (h.store.attached ≡ update p.attached pod none)
        × (h.store.by_pod ≡ p.by_pod)
  unfolding on_stop_pod_sandbox take_attached
  on_stop_pod_sandbox_detaches_all pod name namespace p w = (
    ap (λ l. l ++ detaches_ports name namespace ∷ [])
          (detach_all-host answer (get_list (p.attached pod)) w)
        ∙ append_assoc w (map detaches (get_list (p.attached pod))) _,
    refl,
    refl,
  )
