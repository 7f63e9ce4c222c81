-- ===== src/DeviceState/Actions/Recorded.antt =====
-- The NICs that the checkpoint of cmd/kube-ovn-dra-kubeletplugin/state.go records, and those that
-- restoreNICs adds from it.
use kube_ovn_dra_driver.Prelude.{
  String, ◌==◌, ◌&&◌, Option, none, some, List, [], ◌∷◌, ◌≡◌, ◌≢◌, refl, sym, ap, ◌∙◌, inl, inr,
  arith, eq_iff, if◌then◌else◌, Bool-cases, Option-cases,
}
use mathlib.Core.Path.{subst}
use kube_ovn_dra_driver.Store.{NicStore, Spec, add}
use kube_ovn_dra_driver.Store.Lookup.{find_nic, find_nic-add}
use kube_ovn_dra_driver.Cdi.{PreparedDevice}
use kube_ovn_dra_driver.DeviceState.Host.{
  PreparedClaims, Settings, Host, lookup_claim, insert_claim, delete_claim,
}
use kube_ovn_dra_driver.DeviceState.Parts.{add_nics}
use kube_ovn_dra_driver.DeviceState.Actions.{restore_claims}
use kube_ovn_dra_driver.DeviceState.Devices.Checkpointed.{IsOf, OfClaim}
use kube_ovn_dra_driver.DeviceState.Actions.Outcome.{
  lookup_claim-insert_claim, lookup_claim-delete_claim,
}

-- The NIC of a pod, claim and interface name in a store that may not be there.
unfoldable pub found : Option NicStore → String → String → String → Option Spec
found none pod claim iface = none
found (some p) pod claim iface = find_nic p pod claim iface

-- The last NIC among the devices for the pod, claim and interface name, else `o`.
unfoldable pub newer : Option Spec → String → String → String → Option Spec → Option Spec
newer none pod claim iface o = o
newer (some n) pod claim iface o =
    if n.pod_uid == pod && (n.claim_uid == claim && n.iface_name == iface) then some n else o

unfoldable pub latest : List PreparedDevice → String → String → String → Option Spec → Option Spec
latest [] pod claim iface o = o
latest (d ∷ ds) pod claim iface o = latest ds pod claim iface (newer d.nic pod claim iface o)

pub found-add_nics :
    (ds : List PreparedDevice) (p : NicStore) (pod claim iface : String)
    → found (add_nics ds (some p)) pod claim iface
      ≡ latest ds pod claim iface (find_nic p pod claim iface)
unfolding found newer latest add_nics
found-add_nics [] p pod claim iface = refl
found-add_nics (d ∷ ds) p pod claim iface = elim (Option-cases d.nic) [
  | inl e ↦ rw (e, newer) (found-add_nics ds p pod claim iface)
  | inr (n, e) ↦
      rw (e, newer)
        (found-add_nics ds (add p n) pod claim iface
          ∙ ap (latest ds pod claim iface) (find_nic-add p n pod claim iface))
]

newer-some :
    (o : Option Spec) (pod claim iface : String) (a b : Option Spec) {n : Spec}
    → (a ≡ some n → b ≡ some n)
    → newer o pod claim iface a ≡ some n
    → newer o pod claim iface b ≡ some n
unfolding newer
newer-some none pod claim iface a b k h = k h
newer-some (some x) pod claim iface a b k h =
    elim (Bool-cases (x.pod_uid == pod && (x.claim_uid == claim && x.iface_name == iface))) [
      | inl t ↦ ground (arith, h, t)
      | inr f ↦ rw f (k (ground (arith, h, f)))
    ]

-- A NIC among the devices does not depend on what was found before.
pub latest-some :
    (ds : List PreparedDevice) (pod claim iface : String) (a b : Option Spec) {n : Spec}
    → (a ≡ some n → b ≡ some n)
    → latest ds pod claim iface a ≡ some n
    → latest ds pod claim iface b ≡ some n
unfolding latest
latest-some [] pod claim iface a b k h = k h
latest-some (d ∷ ds) pod claim iface a b k h =
    latest-some ds pod claim iface (newer d.nic pod claim iface a) (newer d.nic pod claim iface b)
      (newer-some d.nic pod claim iface a b k) h

pub latest-other :
    (uid claim : String) (ds : List PreparedDevice) (pod iface : String) (o : Option Spec)
    → OfClaim uid ds
    → uid ≢ claim
    → latest ds pod claim iface o ≡ o
unfolding latest newer
latest-other uid claim [] pod iface o k h = refl
latest-other uid claim (d ∷ ds) pod iface o (k, ks) h = elim (Option-cases d.nic) [
  | inl e ↦ rw (e, newer) (latest-other uid claim ds pod iface o ks h)
  | inr (n, e) ↦
      let same : newer (some n) pod claim iface o ≡ o =
        ground (arith, subst (IsOf uid) e k, h, eq_iff n.claim_uid claim) in
      rw (e, same) (latest-other uid claim ds pod iface o ks h)
]

-- Each entry has NICs of its claim only, and a claim has one entry.
abbrev pub IsKept : PreparedClaims → Type 0
IsKept [] = Unit {0}
IsKept ((uid, ds) ∷ p) = OfClaim uid ds × (lookup_claim uid p ≡ none) × IsKept p

pub insert_claim-IsKept :
    (uid : String) (ds : List PreparedDevice) (p : PreparedClaims)
    → OfClaim uid ds
    → IsKept p
    → IsKept (insert_claim uid ds p)
unfolding insert_claim
insert_claim-IsKept uid ds [] o k = (o, unfold lookup_claim in refl, tt)
insert_claim-IsKept uid ds ((c, old) ∷ p) o (k, l, ks) = elim (Bool-cases (c == uid)) [
  | inl e ↦ rw (e, insert_claim) (subst (λ u. OfClaim u ds) (sym ((eq_iff c uid).0 e)) o, l, ks)
  | inr e ↦
      rw (e, insert_claim)
        (
          k,
          ground (arith, lookup_claim-insert_claim uid c ds p, l, e, eq_iff c uid, eq_iff uid c),
          insert_claim-IsKept uid ds p o ks,
        )
]

pub delete_claim-IsKept :
    (uid : String) (p : PreparedClaims) → IsKept p → IsKept (delete_claim uid p)
unfolding delete_claim
delete_claim-IsKept uid [] k = tt
delete_claim-IsKept uid ((c, old) ∷ p) (k, l, ks) = elim (Bool-cases (c == uid)) [
  | inl e ↦ rw (e, delete_claim) (delete_claim-IsKept uid p ks)
  | inr e ↦
      rw (e, delete_claim)
        (k, ground (arith, lookup_claim-delete_claim uid c p, l), delete_claim-IsKept uid p ks)
]

-- The NIC that an entry of the checkpoint describes, else `o`.
unfoldable pub recorded :
    Option (List PreparedDevice) → String → String → String → Option Spec → Option Spec
recorded none pod claim iface o = o
recorded (some ds) pod claim iface o = latest ds pod claim iface o

pub add_nics-some :
    (ds : List PreparedDevice) (p : NicStore) → (q : NicStore) × (add_nics ds (some p) ≡ some q)
unfolding add_nics
add_nics-some [] p = (p, refl)
add_nics-some (d ∷ ds) p = elim (Option-cases d.nic) [
  | inl e ↦ rw e (add_nics-some ds p)
  | inr (n, e) ↦ rw e (add_nics-some ds (add p n))
]

module _ {W : Type 0} (s : Settings) (host : Host W) where
  pub restore_claims-found :
      (ps : PreparedClaims) (p : NicStore) (pod claim iface : String)
      → IsKept ps
      → found (restore_claims s host ps (some p)) pod claim iface
        ≡ recorded (lookup_claim claim ps) pod claim iface (find_nic p pod claim iface)
  unfolding restore_claims lookup_claim found recorded
  restore_claims-found [] p pod claim iface k = refl
  restore_claims-found ((uid, ds) ∷ ps) p pod claim iface (k, l, ks) =
      let (q, e) = add_nics-some ds p in
      let ih = restore_claims-found ps q pod claim iface ks in
      let was : find_nic q pod claim iface
          ≡ latest ds pod claim iface (find_nic p pod claim iface) =
        ap (λ o. found o pod claim iface) (sym e) ∙ found-add_nics ds p pod claim iface in
      elim (Bool-cases (uid == claim)) [
        | inl t ↦
            let none_left : lookup_claim claim ps ≡ none =
              subst (λ u. lookup_claim u ps ≡ none) ((eq_iff uid claim).0 t) l in
            rw (e, t) (ih ∙ rw none_left was)
        | inr f ↦
            let other =
              latest-other uid claim ds pod iface (find_nic p pod claim iface) k
                (λ same. cc (f, (eq_iff uid claim).1 same)) in
            rw (e, f) (ih ∙ ap (recorded (lookup_claim claim ps) pod claim iface) (was ∙ other))
      ]
