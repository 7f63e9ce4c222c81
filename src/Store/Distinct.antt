-- ===== src/Store/Distinct.antt =====
-- What the NIC store of pkg/plumbing/store.go keeps true of the slices of its map.
use kube_ovn_dra_driver.Prelude.{
  String, not, none, some, List, [], ◌∷◌, ◌==◌, ◌≡◌, ◌≢◌, refl, arith, All, keep, eq_iff, get_list,
  Bool, Bool-cases, inl, inr, sym,
}
use mathlib.Core.Path.{subst}
use kube_ovn_dra_driver.Store.{
  Spec, NicStore, new_nic_store, add, specs, remove_claim, put_spec, same_nic, without_claim,
}
use kube_ovn_dra_driver.Store.Lookup.{find, specs-add, specs-remove_claim, find-put_spec, find-keep}

-- No two Specs share a claim and an interface name.
abbrev pub IsDistinct : List Spec → Type 0
IsDistinct [] = Unit {0}
IsDistinct (x ∷ xs) = (find x.claim_uid x.iface_name xs ≡ none) × IsDistinct xs

put_spec-IsDistinct :
    (s : Spec) (xs : List Spec) → IsDistinct xs → IsDistinct (put_spec (same_nic s) s xs)
unfolding put_spec find
put_spec-IsDistinct s [] d = (refl, tt)
put_spec-IsDistinct s (x ∷ xs) d = ground (
  arith,
  put_spec-IsDistinct s xs d.1,
  find-put_spec s x.claim_uid x.iface_name xs,
  eq_iff x.claim_uid s.claim_uid,
  eq_iff x.iface_name s.iface_name,
  eq_iff s.claim_uid x.claim_uid,
  eq_iff s.iface_name x.iface_name,
)

keep-IsDistinct :
    (c : String) (xs : List Spec)
    → IsDistinct xs
    → IsDistinct (keep (λ s. not (s.claim_uid == c)) xs)
keep-IsDistinct c [] d = tt
keep-IsDistinct c (x ∷ xs) d =
    ground (arith, keep-IsDistinct c xs d.1, find-keep c x.claim_uid x.iface_name xs)

abbrev pub OfPod : String → List Spec → Type 0
OfPod pod = All (λ (s : Spec). s.pod_uid ≡ pod)

put_spec-OfPod :
    (pod : String) (s : Spec) (xs : List Spec)
    → s.pod_uid ≡ pod
    → OfPod pod xs
    → OfPod pod (put_spec (same_nic s) s xs)
unfolding put_spec
put_spec-OfPod pod s [] e o = (e, tt)
put_spec-OfPod pod s (x ∷ xs) e o = ground (arith, put_spec-OfPod pod s xs e o.1)

put_spec-ne-nil : (test : Spec → Bool) (s : Spec) (xs : List Spec) → put_spec test s xs ≢ []
unfolding put_spec
put_spec-ne-nil test s [] = ground arith
put_spec-ne-nil test s (x ∷ xs) = ground arith

keep-OfPod :
    (pod : String) (test : Spec → Bool) (xs : List Spec) → OfPod pod xs → OfPod pod (keep test xs)
keep-OfPod pod test [] o = tt
keep-OfPod pod test (x ∷ xs) o = ground (arith, keep-OfPod pod test xs o.1)

pub record IsWellFormed (p : NicStore) : Type 0 where
  pub distinct : (pod : String) → IsDistinct (specs p pod)
  pub of_pod : (pod : String) → OfPod pod (specs p pod)
  pub no_empty : (pod : String) → p.by_pod pod ≢ some []

pub new_nic_store-IsWellFormed : IsWellFormed new_nic_store
unfolding specs
new_nic_store-IsWellFormed = record {
  distinct = λ pod. tt;
  of_pod = λ pod. tt;
  no_empty = λ pod e. cc e;
}

add-IsWellFormed : (p : NicStore) (s : Spec) → IsWellFormed p → IsWellFormed (add p s)
add-IsWellFormed p s w = record {
  distinct = λ pod. rw specs-add (
      ground
        (arith, w.distinct pod, put_spec-IsDistinct s (specs p s.pod_uid) (w.distinct s.pod_uid)));
  of_pod = λ pod. rw specs-add (elim (Bool-cases (s.pod_uid == pod)) [
    | inl e ↦
        let same : s.pod_uid ≡ pod = (eq_iff s.pod_uid pod).0 e in
        rw e (
          put_spec-OfPod pod s (specs p s.pod_uid) same
            (subst (λ q. OfPod pod (specs p q)) (sym same) (w.of_pod pod)))
    | inr e ↦ rw e (w.of_pod pod)
  ]);
  no_empty = λ pod.
      unfold add in
      ground
        (arith, w.no_empty pod, put_spec-ne-nil (same_nic s) s (get_list (p.by_pod s.pod_uid)));
}

remove_claim-IsWellFormed :
    (p : NicStore) (c : String) → IsWellFormed p → IsWellFormed (remove_claim p c)
remove_claim-IsWellFormed p c w = record {
  distinct = λ pod. rw specs-remove_claim (keep-IsDistinct c (specs p pod) (w.distinct pod));
  of_pod = λ pod. rw specs-remove_claim (keep-OfPod pod _ (specs p pod) (w.of_pod pod));
  no_empty = λ pod. unfold remove_claim without_claim in ground (arith, w.no_empty pod);
}

-- Add and RemoveClaim keep the store well-formed: under each pod only NICs of that pod, each claim and
-- interface name once, and no empty slice.
pub add-remove_claim-IsWellFormed :
    (p : NicStore) (s : Spec) (c : String)
    → IsWellFormed p
    → IsWellFormed (add p s) × IsWellFormed (remove_claim p c)
add-remove_claim-IsWellFormed p s c w = (add-IsWellFormed p s w, remove_claim-IsWellFormed p c w)
