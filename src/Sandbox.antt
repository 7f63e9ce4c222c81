-- ===== src/Sandbox.antt =====
-- pkg/plumbing/nri.go: the hooks of the container runtime attach the NICs of a pod to its sandbox.
-- The attacher is the interface Attacher of pkg/plumbing/plumbing.go, over a host state `W`.
pub mod Rollback
pub mod Sync
use kube_ovn_dra_driver.Prelude.{
  String, Bool, Option, none, some, List, [], ◌∷◌, ◌++◌, ◌==◌, Map, get_text, map, Error,
  join_errors,
}
use kube_ovn_dra_driver.Store.{NicStore, Spec, specs, mark_attached, take_attached}

pub record Attacher {ℓ} (W : Type ℓ) : Type ℓ where
  pub attach : Spec → W → Option Error × W
  pub detach : Spec → W → Option Error × W
  pub detach_pod_ports : String → String → W → Option Error × W

-- What the hooks change: the NIC store, and the host through the attacher.
pub record Handled {ℓ} (W : Type ℓ) : Type ℓ where
  pub errors : List Error
  pub store : NicStore
  pub host : W

abbrev pub error_list : Option Error → List Error → List Error
error_list none errs = errs
error_list (some e) errs = e ∷ errs

abbrev pub fill : String → String → Bool → Spec → Spec
fill container netns is_vmi spec = record spec {
  container_id = container;
  netns_path = netns;
  kube_virt_vmi = is_vmi;
}

unfoldable pub sandbox_specs : NicStore → String → String → String → Map String → List Spec
sandbox_specs store pod_uid container netns labels =
    map (fill container netns (get_text (labels "kubevirt.io") == "virt-launcher"))
      (specs store pod_uid)

module _ {ℓ} {W : Type ℓ} (attacher : Attacher W) where
  -- for _, spec := range taken { detach }, and the errors in order
  unfoldable pub detach_all : List Spec → W → List Error × W
  detach_all [] w = ([], w)
  detach_all (s ∷ ss) w =
      let (e, w') = attacher.detach s w in
      let (errs, w'') = detach_all ss w' in (error_list e errs, w'')

  -- The error branch of OnRunPodSandbox.
  unfoldable pub roll_back : String → Error → NicStore → W → Handled W
  unfolding detach_all
  roll_back pod_uid e store w =
      let (taken, store') = take_attached store pod_uid in
      let (errs, w') = detach_all taken w in record { errors = e ∷ errs; store = store'; host = w' }

  unfoldable pub attach_all : String → List Spec → NicStore → W → Handled W
  attach_all pod_uid [] store w = record { errors = []; store = store; host = w }
  attach_all pod_uid (s ∷ ss) store w =
      let (e, w') = attacher.attach s w in
      elim e [
        | none ↦ attach_all pod_uid ss (mark_attached store pod_uid s) w'
        | some x ↦ roll_back pod_uid x store w'
      ]

  unfoldable pub on_run_pod_sandbox :
      String → String → String → Map String → NicStore → W → Handled W
  unfolding attach_all
  on_run_pod_sandbox pod_uid container netns labels store w =
      attach_all pod_uid (sandbox_specs store pod_uid container netns labels) store w

  -- The loop of OnSynchronizeSandbox: a failed NIC is passed over.
  unfoldable pub sync_all : String → List Spec → NicStore → W → Handled W
  sync_all pod_uid [] store w = record { errors = []; store = store; host = w }
  sync_all pod_uid (s ∷ ss) store w =
      let (e, w') = attacher.attach s w in
      elim e [
        | none ↦ sync_all pod_uid ss (mark_attached store pod_uid s) w'
        | some x ↦
            let r = sync_all pod_uid ss store w' in
            record { errors = x ∷ r.errors; store = r.store; host = r.host }
      ]

  unfoldable pub on_synchronize_sandbox :
      String → String → String → Map String → NicStore → W → Handled W
  unfolding sync_all
  on_synchronize_sandbox pod_uid container netns labels store w =
      sync_all pod_uid (sandbox_specs store pod_uid container netns labels) store w

  unfoldable pub on_stop_pod_sandbox : String → String → String → NicStore → W → Handled W
  unfolding detach_all
  on_stop_pod_sandbox pod_uid pod_name pod_namespace store w =
      let (taken, store') = take_attached store pod_uid in
      let (errs, w') = detach_all taken w in
      let (e, w'') = attacher.detach_pod_ports pod_name pod_namespace w' in
      record { errors = errs ++ error_list e []; store = store'; host = w'' }

-- What the hooks return: errors.Join of the errors.
abbrev pub returned {ℓ} : {W : Type ℓ} → Handled W → Option Error
returned h = join_errors h.errors
