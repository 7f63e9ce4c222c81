-- ===== src/Store.antt =====
-- pkg/plumbing/store.go, and Spec and Route of pkg/plumbing/plumbing.go: the NICs of the pods of a
-- node, between the preparation of their claims and the hooks of the container runtime.
pub mod Lookup
pub mod Distinct
use kube_ovn_dra_driver.Prelude.{
  ℕ, String, Bool, ◌&&◌, not, Option, none, some, List, [], ◌∷◌, ◌==◌, Map, empty_map, update,
  get_list, keep, is_empty, if◌then◌else◌,
}

pub record Route : Type 0 where
  pub destination : String
  pub gateway : String

pub record Spec : Type 0 where
  pub pod_uid : String
  pub pod_name : String
  pub pod_namespace : String
  pub claim_uid : String
  pub netns_path : String
  pub iface_name : String
  pub ip : String
  pub extra_ips : List String
  pub mac : String
  pub gateway : String
  pub routes : List Route
  pub mtu : ℕ
  pub container_id : String
  pub provider : String
  pub iface_id : String
  pub kube_virt_vmi : Bool
  pub ovn_dhcp : Bool

-- A slice that Go's `nil` map entry gives is the empty list.
pub record NicStore : Type 0 where
  pub by_pod : Map (List Spec)
  pub attached : Map (List Spec)

abbrev pub new_nic_store : NicStore
new_nic_store = record { by_pod = empty_map; attached = empty_map }

-- The loop of Add and of MarkAttached: the first match is overwritten, else the Spec is appended.
pub put_spec : (Spec → Bool) → Spec → List Spec → List Spec
put_spec same spec [] = spec ∷ []
put_spec same spec (x ∷ xs) = if same x then spec ∷ xs else x ∷ put_spec same spec xs

abbrev pub same_nic : Spec → Spec → Bool
same_nic spec x = x.claim_uid == spec.claim_uid && x.iface_name == spec.iface_name

abbrev pub same_iface : Spec → Spec → Bool
same_iface spec x = x.iface_name == spec.iface_name

unfoldable pub add : NicStore → Spec → NicStore
unfolding put_spec
add p spec = record p {
  by_pod =
      update p.by_pod spec.pod_uid
        (some (put_spec (same_nic spec) spec (get_list (p.by_pod spec.pod_uid))));
}

unfoldable pub specs : NicStore → String → List Spec
specs p pod_uid = get_list (p.by_pod pod_uid)

-- `kept` of one pod; the pod's entry is deleted when nothing is kept.
without_claim : String → List Spec → Option (List Spec)
without_claim claim_uid xs =
    let kept = keep (λ spec. not (spec.claim_uid == claim_uid)) xs in
    if is_empty kept then none else some kept

unfoldable pub remove_claim : NicStore → String → NicStore
unfolding without_claim
remove_claim p claim_uid = record p {
  by_pod =
      λ pod_uid. elim (p.by_pod pod_uid) [ none ↦ none | some xs ↦ without_claim claim_uid xs ];
}

unfoldable pub mark_attached : NicStore → String → Spec → NicStore
unfolding put_spec
mark_attached p pod_uid spec = record p {
  attached =
      update p.attached pod_uid
        (some (put_spec (same_iface spec) spec (get_list (p.attached pod_uid))));
}

unfoldable pub take_attached : NicStore → String → List Spec × NicStore
take_attached p pod_uid =
    (get_list (p.attached pod_uid), record p { attached = update p.attached pod_uid none })
