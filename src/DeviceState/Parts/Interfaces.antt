-- ===== src/DeviceState/Parts/Interfaces.antt =====
-- When checkInterfaceNames of cmd/kube-ovn-dra-kubeletplugin/state.go lets a claim through.
use kube_ovn_dra_driver.Prelude.{
  String, ◌==◌, false, ◌&&◌, none, some, List, [], ◌∷◌, ◌≡◌, ◌↔◌, ◌⊎◌, inl, inr, refl, arith, All,
  contains, eq_iff, Bool-cases,
}
use kube_ovn_dra_driver.Store.{NicStore, Spec, specs}
use kube_ovn_dra_driver.Claim.{ConsumerRef, ResourceClaim}
use kube_ovn_dra_driver.DeviceState.Parts.{
  first_repeated, first_taken, taken_by_pods, check_interface_names,
}

-- No name stands twice.
abbrev pub IsDistinct : List String → Type 0
IsDistinct [] = Unit {0}
IsDistinct (name ∷ names) = (contains names name ≡ false) × IsDistinct names

-- The NIC is the claim's own, or has none of the names.
abbrev pub IsApart : String → List String → Spec → Type 0
IsApart claim names s = (s.claim_uid ≡ claim) ⊎ (contains names s.iface_name ≡ false)

-- The consumer is not a pod, or each of its NICs is apart.
abbrev pub IsClear : NicStore → String → List String → ConsumerRef → Type 0
IsClear store claim names ref =
    ((ref.resource == "pods" && ref.api_group == "") ≡ false)
    ⊎ All (IsApart claim names) (specs store ref.uid)

abbrev Unseen : List String → List String → Type 0
Unseen seen = All (λ n. contains seen n ≡ false)

Unseen-cons :
    (name : String) (seen names : List String)
    → Unseen (name ∷ seen) names ↔ (Unseen seen names × (contains names name ≡ false))
Unseen-cons name seen [] = ((λ u. (tt, refl)), (λ u. tt))
Unseen-cons name seen (n ∷ ns) =
    let (forth, back) = Unseen-cons name seen ns in
    (
      (λ (a, us). (
        (ground (arith, a), (forth us).0),
        ground (arith, a, (forth us).1, eq_iff n name, eq_iff name n),
      )),
      (λ ((a, us), c).
          (ground (arith, a, c, eq_iff n name, eq_iff name n), back (us, ground (arith, c)))),
    )

first_repeated_iff :
    (seen names : List String)
    → (first_repeated seen names ≡ none) ↔ (Unseen seen names × IsDistinct names)
unfolding first_repeated
first_repeated_iff seen [] = ((λ h. (tt, tt)), (λ h. refl))
first_repeated_iff seen (n ∷ ns) =
    let (forth, back) = first_repeated_iff (n ∷ seen) ns in
    let (split, join) = Unseen-cons n seen ns in
    elim (Bool-cases (contains seen n)) [
      | inl e ↦ rw e ((λ h. absurd (cc h)), (λ h. absurd (cc (h.0.0))))
      | inr e ↦ rw e (
        (λ h. let (u, d) = forth h in ((refl, (split u).0), ((split u).1, d))),
        (λ ((x, u), (c, d)). back (join (u, c), d)),
      )
    ]

first_taken_iff :
    (claim : String) (names : List String) (ss : List Spec)
    → (first_taken claim names ss ≡ none) ↔ All (IsApart claim names) ss
unfolding first_taken
first_taken_iff claim names [] = ((λ h. tt), (λ h. refl))
first_taken_iff claim names (s ∷ ss) =
    let (forth, back) = first_taken_iff claim names ss in
    (
      (λ h. (ground (arith, h, eq_iff s.claim_uid claim), forth (ground (arith, h)))),
      (λ (a, more). ground (arith, a, back more, eq_iff s.claim_uid claim)),
    )

taken_by_pods_iff :
    (store : NicStore) (claim : String) (names : List String) (refs : List ConsumerRef)
    → (taken_by_pods store claim names refs ≡ none) ↔ All (IsClear store claim names) refs
unfolding taken_by_pods
taken_by_pods_iff store claim names [] = ((λ h. tt), (λ h. refl))
taken_by_pods_iff store claim names (r ∷ rs) =
    let (forth, back) = taken_by_pods_iff store claim names rs in
    let (out, in_) = first_taken_iff claim names (specs store r.uid) in
    elim (Bool-cases (r.resource == "pods" && r.api_group == "")) [
      | inr e ↦ (
        (λ h. (inl e, forth (ground (arith, h, e)))),
        (λ (a, more). ground (arith, back more, e)),
      )
      | inl e ↦ (
        (λ h. (inr (out (ground (arith, h, e))), forth (ground (arith, h, e)))),
        (λ (a, more). elim a [
          | inl f ↦ absurd (cc (e, f))
          | inr c ↦ ground (arith, back more, in_ c, e)
        ]),
      )
    ]

-- With a NIC store, checkInterfaceNames lets a claim through exactly when its NICs have different names, and no NIC of
-- another claim has one of these names on a pod that the claim is reserved for.
pub check_interface_names_iff :
    (store : NicStore) (claim : ResourceClaim) (names : List String)
    → (check_interface_names (some store) claim names ≡ none)
      ↔ (IsDistinct names × All (IsClear store claim.uid names) claim.reserved_for)
unfolding check_interface_names
check_interface_names_iff store claim names =
    let (forth, back) = first_repeated_iff [] names in
    let (out, in_) = taken_by_pods_iff store claim.uid names claim.reserved_for in
    (
      (λ h. ((forth (ground (arith, h))).1, out (ground (arith, h)))),
      (λ (d, a). ground (arith, back (unseen names, d), in_ a)),
    )
  where
    unseen : (ns : List String) → Unseen [] ns
    unseen [] = tt
    unseen (n ∷ ns) = (refl, unseen ns)
