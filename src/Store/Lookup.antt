-- ===== src/Store/Lookup.antt =====
-- The NIC store of pkg/plumbing/store.go as a map: from a pod, a claim and an interface name to the
-- Spec of that NIC. The slices of the code hold each such NIC once.
use kube_ovn_dra_driver.Prelude.{
  String, ◌&&◌, not, Option, none, some, List, [], ◌∷◌, ◌==◌, ◌≡◌, refl, arith, keep, if◌then◌else◌,
  eq_iff, get_list,
}
use kube_ovn_dra_driver.Store.{
  Spec, NicStore, add, specs, remove_claim, put_spec, same_nic, without_claim,
}

-- The NIC of a claim with an interface name, among the NICs of a pod.
unfoldable pub find : String → String → List Spec → Option Spec
find claim iface [] = none
find claim iface (x ∷ xs) =
    if x.claim_uid == claim && x.iface_name == iface then some x else find claim iface xs

unfoldable pub find_nic : NicStore → String → String → String → Option Spec
unfolding find
find_nic p pod claim iface = find claim iface (specs p pod)

pub find-put_spec :
    (s : Spec) (claim iface : String) (xs : List Spec)
    → find claim iface (put_spec (same_nic s) s xs)
      ≡ (if s.claim_uid == claim && s.iface_name == iface then some s else find claim iface xs)
unfolding find put_spec
find-put_spec s claim iface [] = refl
find-put_spec s claim iface (x ∷ xs) = ground (
  arith,
  find-put_spec s claim iface xs,
  eq_iff s.claim_uid claim,
  eq_iff s.iface_name iface,
  eq_iff x.claim_uid claim,
  eq_iff x.iface_name iface,
  eq_iff x.claim_uid s.claim_uid,
  eq_iff x.iface_name s.iface_name,
)

pub find-keep :
    (c claim iface : String) (xs : List Spec)
    → find claim iface (keep (λ s. not (s.claim_uid == c)) xs)
      ≡ (if c == claim then none else find claim iface xs)
unfolding find
find-keep c claim iface [] = ground arith
find-keep c claim iface (x ∷ xs) = ground (
  arith,
  find-keep c claim iface xs,
  eq_iff c claim,
  eq_iff x.claim_uid c,
  eq_iff x.claim_uid claim,
)

pub specs-add :
    (p : NicStore) (s : Spec) (pod : String)
    → specs (add p s) pod
      ≡ (if s.pod_uid == pod then put_spec (same_nic s) s (specs p s.pod_uid) else specs p pod)
unfolding specs add
specs-add p s pod = ground arith

get_list-without_claim :
    (c : String) (xs : List Spec)
    → get_list (without_claim c xs) ≡ keep (λ s. not (s.claim_uid == c)) xs
unfolding without_claim
get_list-without_claim c xs = ground arith

-- RemoveClaim keeps, for every pod, the NICs of the other claims, in their order.
pub specs-remove_claim :
    (p : NicStore) (c pod : String)
    → specs (remove_claim p c) pod ≡ keep (λ s. not (s.claim_uid == c)) (specs p pod)
unfolding specs remove_claim
specs-remove_claim p c pod = go (p.by_pod pod)
  where
    go :
        (o : Option (List Spec))
        → get_list (elim o [ none ↦ none | some xs ↦ without_claim c xs ])
          ≡ keep (λ s. not (s.claim_uid == c)) (get_list o)
    go none = refl
    go (some xs) = get_list-without_claim c xs

pub find_nic-add :
    (p : NicStore) (s : Spec) (pod claim iface : String)
    → find_nic (add p s) pod claim iface ≡ (
        if s.pod_uid == pod && (s.claim_uid == claim && s.iface_name == iface)
        then some s
        else find_nic p pod claim iface)
unfolding find_nic
find_nic-add p s pod claim iface = ground (
  arith,
  specs-add p s pod,
  find-put_spec s claim iface (specs p s.pod_uid),
  eq_iff s.pod_uid pod,
)

pub find_nic-remove_claim :
    (p : NicStore) (c pod claim iface : String)
    → find_nic (remove_claim p c) pod claim iface
      ≡ (if c == claim then none else find_nic p pod claim iface)
unfolding find_nic
find_nic-remove_claim p c pod claim iface =
    ground (arith, specs-remove_claim p c pod, find-keep c claim iface (specs p pod))

-- Add makes the added Spec the one found under its pod, claim and interface name, and leaves every
-- other NIC of every pod as it was; RemoveClaim forgets exactly the NICs of the claim, of every pod.
pub find_nic-add-remove_claim :
    (p : NicStore) (s : Spec) (c pod claim iface : String)
    → (find_nic (add p s) pod claim iface ≡ (
        if s.pod_uid == pod && (s.claim_uid == claim && s.iface_name == iface)
        then some s
        else find_nic p pod claim iface))
      × (find_nic (remove_claim p c) pod claim iface
          ≡ (if c == claim then none else find_nic p pod claim iface))
find_nic-add-remove_claim p s c pod claim iface =
    (find_nic-add p s pod claim iface, find_nic-remove_claim p c pod claim iface)
