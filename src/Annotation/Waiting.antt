-- ===== src/Annotation/Waiting.antt =====
-- When WaitForAllocation of pkg/annotation/annotation.go returns, and what.
use kube_ovn_dra_driver.Prelude.{
  String, none, some, List, [], ◌∷◌, ◌++◌, ◌≡◌, ◌≢◌, refl, ap, inl, inr, arith, Error, Result, ok,
  err, eq_iff, Option-cases, All,
}
use kube_ovn_dra_driver.Annotation.{
  Pod, AllocatedNic, annotation, extract_allocation, first_allocation, poll,
}

-- kube-ovn-controller is done with the NIC of the provider and left an address of each kind.
pub record IsAllocated (pod : Pod) (provider : String) : Type 0 where
  pub allocated : annotation pod provider ".kubernetes.io/allocated" ≡ "true"
  pub has_ip : annotation pod provider ".kubernetes.io/ip_address" ≢ ""
  pub has_mac : annotation pod provider ".kubernetes.io/mac_address" ≢ ""

-- The fields of the result are the annotations of that provider.
pub record IsReadFrom (pod : Pod) (key : String) (nic : AllocatedNic) : Type 0 where
  pub ip : nic.ip ≡ annotation pod key ".kubernetes.io/ip_address"
  pub mac : nic.mac ≡ annotation pod key ".kubernetes.io/mac_address"
  pub cidr : nic.cidr ≡ annotation pod key ".kubernetes.io/cidr"
  pub gateway : nic.gateway ≡ annotation pod key ".kubernetes.io/gateway"
  pub subnet_name : nic.subnet_name ≡ annotation pod key ".kubernetes.io/logical_switch"
  pub vm_name : nic.vm_name ≡ annotation pod key ".kubernetes.io/virtualmachine"
  pub provider : nic.provider ≡ key
  pub routes : nic.routes ≡ annotation pod key ".kubernetes.io/routes"

extract_some :
    (pod : Pod) (provider : String) (nic : AllocatedNic)
    → extract_allocation pod provider ≡ some nic
    → IsAllocated pod provider × IsReadFrom pod provider nic
unfolding extract_allocation
extract_some pod provider nic h =
    let a = eq_iff (annotation pod provider ".kubernetes.io/allocated") "true" in
    let i = eq_iff (annotation pod provider ".kubernetes.io/ip_address") "" in
    let m = eq_iff (annotation pod provider ".kubernetes.io/mac_address") "" in
    ground (arith, a, i, m)

extract_none :
    (pod : Pod) (provider : String)
    → extract_allocation pod provider ≡ none
    → ¬ IsAllocated pod provider
unfolding extract_allocation
extract_none pod provider h y =
    let a = eq_iff (annotation pod provider ".kubernetes.io/allocated") "true" in
    let i = eq_iff (annotation pod provider ".kubernetes.io/ip_address") "" in
    let m = eq_iff (annotation pod provider ".kubernetes.io/mac_address") "" in
    ground (arith, a, i, m, y.allocated, y.has_ip, y.has_mac)

-- No provider of the list is allocated.
abbrev pub Waits : List String → Pod → Type 0
Waits providers pod = All (λ provider. ¬ IsAllocated pod provider) providers

-- The first allocated provider of the list, and its result.
abbrev pub FirstOf : List String → Pod → AllocatedNic → Type 0
FirstOf providers pod nic =
    (before : List String) × (provider : String) × (after : List String) × (providers
      ≡ before ++ provider ∷ after)
    × Waits before pod
    × IsAllocated pod provider
    × IsReadFrom pod provider nic

first_allocation-some :
    (pod : Pod) (providers : List String) (nic : AllocatedNic)
    → first_allocation pod providers ≡ some nic
    → FirstOf providers pod nic
unfolding first_allocation
first_allocation-some pod [] nic h = absurd (ground arith)
first_allocation-some pod (p ∷ ps) nic h = elim (Option-cases (extract_allocation pod p)) [
  | inr (found, e) ↦
      let r = extract_some pod p nic (ground arith) in ([], p, ps, refl, tt, r.0, r.1)
  | inl e ↦
      let (before, q, after, split, w, a, r) = first_allocation-some pod ps nic (ground arith) in
      (p ∷ before, q, after, ap (λ l. p ∷ l) split, (extract_none pod p e, w), a, r)
]

first_allocation-none :
    (pod : Pod) (providers : List String)
    → first_allocation pod providers ≡ none
    → Waits providers pod
unfolding first_allocation
first_allocation-none pod [] h = tt
first_allocation-none pod (p ∷ ps) h = elim (Option-cases (extract_allocation pod p)) [
  | inr (found, e) ↦ absurd (ground arith)
  | inl e ↦ (extract_none pod p e, first_allocation-none pod ps (ground arith))
]

-- What a wait ends with, after the reads that found no allocation yet.
pub data Outcome (providers : List String) : List (Result Pod) → Result AllocatedNic → Type 0 where
  found :
      {reads : List (Result Pod)} (pod : Pod) (nic : AllocatedNic)
      → FirstOf providers pod nic
      → Outcome providers (ok pod ∷ reads) (ok nic)
  failed : {reads : List (Result Pod)} (e : Error) → Outcome providers (err e ∷ reads) (err e)
  timed_out : (e : Error) → Outcome providers [] (err e)
  again :
      {reads : List (Result Pod)} {r : Result AllocatedNic} (pod : Pod)
      → Waits providers pod
      → Outcome providers reads r
      → Outcome providers (ok pod ∷ reads) r

-- The poll of WaitForAllocation goes on while no provider is allocated, and ends at the first read
-- that fails, at the deadline, or at the first pod with an allocated provider: with the annotations
-- of the first such provider in the order given.
pub poll-Outcome :
    (providers : List String) (reads : List (Result Pod))
    → Outcome providers reads (poll providers reads)
unfolding poll
poll-Outcome providers [] = timed_out _
poll-Outcome providers (err e ∷ reads) = failed e
poll-Outcome providers (ok pod ∷ reads) = elim (Option-cases (first_allocation pod providers)) [
  | inr (nic, e) ↦ rw (e, poll) (found pod nic (first_allocation-some pod providers nic e))
  | inl e ↦
      rw (e, poll)
        (again pod (first_allocation-none pod providers e) (poll-Outcome providers reads))
]
