-- ===== src/NicPrepare/Sharing.antt =====
-- Which pod lookupPodForClaim of pkg/nicprepare/nicprepare.go returns, against the live consumers of
-- the claim.
use mathlib.Core.List.{append-nil, append_assoc}
use kube_ovn_dra_driver.Prelude.{
  ℕ, ◌+◌, String, ◌==◌, true, none, some, List, [], ◌∷◌, ◌++◌, ◌≡◌, ◌≢◌, ◌↔◌, inl, inr, refl, arith,
  ok, err, keep, All, length, if◌then◌else◌, nat_eq, eq_iff, Bool-cases, Option-cases, message,
}
use kube_ovn_dra_driver.Claim.{ConsumerRef, ResourceClaim}
use kube_ovn_dra_driver.Annotation.{Pod}
use kube_ovn_dra_driver.NicPrepare.{
  PodRead, found, not_found, read_error, Consumers, is_pod_ref, is_live, gather, vm_of,
  first_stranger, check_shared_claim, pick_on_node, lookup_pod_for_claim, add_pod,
}

-- The pods of the references that are there, are the ones reserved, and have not finished.
live_of : ConsumerRef → PodRead → List Pod
live_of ref (found pod) = if is_live ref pod then pod ∷ [] else []
live_of ref not_found = []
live_of ref (read_error e) = []

pub live : (String → PodRead) → List ConsumerRef → List Pod
unfolding live_of
live get [] = []
live get (ref ∷ refs) =
    let rest = live get refs in if is_pod_ref ref then live_of ref (get ref.name) ++ rest else rest

abbrev on_node : String → List Pod → List Pod
on_node node = keep (λ (pod : Pod). pod.node_name == node)

abbrev pub ReadOk : PodRead → Type 0
ReadOk (read_error e) = ⊥
ReadOk _ = Unit {0}

-- No read of a referenced pod fails.
abbrev pub NoReadError : (String → PodRead) → List ConsumerRef → Type 0
NoReadError get = All (λ ref. is_pod_ref ref ≡ true → ReadOk (get ref.name))

abbrev gathered : (String → PodRead) → String → List ConsumerRef → Consumers → Consumers
gathered get node refs c = record {
  consumers = c.consumers ++ live get refs;
  on_node = c.on_node ++ on_node node (live get refs);
  refs = c.refs + length (keep is_pod_ref refs);
}

gather_step :
    (get : String → PodRead) (namespace node : String) (ref : ConsumerRef) (refs : List ConsumerRef)
    (c : Consumers) (read : PodRead)
    → get ref.name ≡ read
    → is_pod_ref ref ≡ true
    → ReadOk read
    → ((c' : Consumers) → gather get namespace node refs c' ≡ ok (gathered get node refs c'))
    → gather get namespace node (ref ∷ refs) c ≡ ok (gathered get node (ref ∷ refs) c)
unfolding gather live add_pod
gather_step get namespace node ref refs c (found pod) e p r ih = ground (
  arith,
  ih (add_pod node ref pod (record c { refs = c.refs + 1 })),
  append_assoc c.consumers (pod ∷ []) (live get refs),
  append_assoc c.on_node (pod ∷ []) (on_node node (live get refs)),
)
gather_step get namespace node ref refs c not_found e p r ih =
    ground (arith, ih (record c { refs = c.refs + 1 }))
gather_step get namespace node ref refs c (read_error x) e p r ih = absurd r

gather-gathered :
    (get : String → PodRead) (namespace node : String) (refs : List ConsumerRef) (c : Consumers)
    → NoReadError get refs
    → gather get namespace node refs c ≡ ok (gathered get node refs c)
unfolding gather live
gather-gathered get namespace node [] c h =
    ground (arith, append-nil c.consumers, append-nil c.on_node)
gather-gathered get namespace node (ref ∷ refs) c h = elim (Bool-cases (is_pod_ref ref)) [
  | inr f ↦ ground (arith, gather-gathered get namespace node refs c h.1)
  | inl p ↦
      gather_step get namespace node ref refs c (get ref.name) refl p (h.0 p)
        (λ c'. gather-gathered get namespace node refs c' h.1)
]

-- At most one pod, or all the virt-launcher pods of one VM.
abbrev pub OneVm : List Pod → Type 0
OneVm (first ∷ second ∷ rest) =
    (vm_of first ≢ "") × All (λ pod. vm_of pod ≡ vm_of first) (first ∷ second ∷ rest)
OneVm _ = Unit {0}

first_stranger_iff :
    (vm : String) (pods : List Pod)
    → vm ≢ ""
    → (first_stranger vm pods ≡ none) ↔ All (λ pod. vm_of pod ≡ vm) pods
unfolding first_stranger
first_stranger_iff vm [] h = ((λ _. tt), (λ _. refl))
first_stranger_iff vm (pod ∷ pods) h =
    let ih = first_stranger_iff vm pods h in
    (
      (λ e. (
        ground (arith, eq_iff vm "", eq_iff (vm_of pod) vm),
        ih.0 (ground (arith, eq_iff vm "", eq_iff (vm_of pod) vm)),
      )),
      (λ a. ground (arith, eq_iff vm "", eq_iff (vm_of pod) vm, a.0, ih.1 a.1)),
    )

check_shared_claim_iff :
    (claim : ResourceClaim) (pods : List Pod) → (check_shared_claim claim pods ≡ none) ↔ OneVm pods
unfolding check_shared_claim
check_shared_claim_iff claim [] = ((λ _. tt), (λ _. refl))
check_shared_claim_iff claim (p ∷ []) = ((λ _. tt), (λ _. refl))
check_shared_claim_iff claim (p ∷ q ∷ rest) = (
  (λ e.
      let ne : vm_of p ≢ "" = λ x. ground (arith, eq_iff (vm_of p) "", e) in
      (ne, (first_stranger_iff (vm_of p) (p ∷ q ∷ rest) ne).0 (ground (arith, e)))),
  (λ (ne, all).
      let none_is : first_stranger (vm_of p) (p ∷ q ∷ rest) ≡ none =
        (first_stranger_iff (vm_of p) (p ∷ q ∷ rest) ne).1 all in
      ground (arith, none_is)),
)

pick_on_node_iff :
    (claim : ResourceClaim) (node : String) (pods : List Pod) (pod : Pod)
    → (pick_on_node claim node pods ≡ ok pod) ↔ (pods ≡ pod ∷ [])
unfolding pick_on_node
pick_on_node_iff claim node [] pod = ((λ e. ground arith), (λ e. ground arith))
pick_on_node_iff claim node (p ∷ []) pod = ((λ e. ground arith), (λ e. ground arith))
pick_on_node_iff claim node (p ∷ q ∷ r) pod = ((λ e. ground arith), (λ e. ground arith))

live-nil :
    (get : String → PodRead) (refs : List ConsumerRef)
    → length (keep is_pod_ref refs) ≡ 0
    → live get refs ≡ []
unfolding live
live-nil get [] e = refl
live-nil get (ref ∷ refs) e = elim (Bool-cases (is_pod_ref ref)) [
  | inl p ↦ absurd (ground (arith, p, e))
  | inr f ↦ ground (arith, f, e, live-nil get refs)
]

decide_pod :
    (claim : ResourceClaim) (node : String) (n : ℕ) (pods here : List Pod) (pod : Pod)
    → (n ≡ 0 → here ≡ [])
    → ((if nat_eq n 0
          then err
              (message "claim %s/%s has no pod in ReservedFor" (claim.namespace ∷ claim.name ∷ []))
          else elim (check_shared_claim claim pods) [
            | some e ↦ err e
            | none ↦ pick_on_node claim node here
          ])
        ≡ ok pod)
      ↔ ((here ≡ pod ∷ []) × OneVm pods)
decide_pod claim node n pods here pod z = elim (Option-cases (check_shared_claim claim pods)) [
  | inr (x, e) ↦ (
    (λ h. absurd (ground (arith, h, e))),
    (λ (a, b). absurd (ground (arith, e, (check_shared_claim_iff claim pods).1 b))),
  )
  | inl e ↦ (
    (λ h. (
      (pick_on_node_iff claim node here pod).0 (ground (arith, h, e)),
      (check_shared_claim_iff claim pods).0 e,
    )),
    (λ (a, b). ground (arith, a, e, z, (pick_on_node_iff claim node here pod).1 a)),
  )
]

-- lookupPodForClaim, where no read fails: it returns a pod exactly when that pod is the only live
-- consumer of the claim on the node, and all live consumers are one pod or the virt-launcher pods
-- of one VM. A consumer is live if it is there under the reserved UID and has not finished.
pub lookup_pod_for_claim_iff :
    (get : String → PodRead) (claim : ResourceClaim) (node : String) (pod : Pod)
    → NoReadError get claim.reserved_for
    → (lookup_pod_for_claim get claim node ≡ ok pod) ↔ (
        (keep (λ p. p.node_name == node) (live get claim.reserved_for) ≡ pod ∷ [])
        × OneVm (live get claim.reserved_for))
unfolding lookup_pod_for_claim pick_on_node
lookup_pod_for_claim_iff get claim node pod h =
    rw (gather-gathered get claim.namespace node claim.reserved_for _ h) (
      decide_pod claim node _ (live get claim.reserved_for) _ pod
        (λ z. rw (live-nil get claim.reserved_for (ground (arith, z)))))
