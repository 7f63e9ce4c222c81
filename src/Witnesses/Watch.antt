-- ===== src/Witnesses/Watch.antt =====
-- What the watch of Subnets leaves out, at a Subnet whose status changes.
use kube_ovn_dra_driver.Prelude.{
  String, ◌==◌, ℕ, Bool, true, false, Option, none, some, [], ◌∷◌, ◌≡◌, ◌↔◌, refl, Map, empty_map,
  message, err, if◌then◌else◌,
}
use native.Mathlib.Decide.{ℕ_discrete}
use text.Mathlib.TextEquality.{IsScalar-prop}
use Prim.Native.Char.{IsScalar}
use Prim.Axiom.{lem}
use kube_ovn_dra_driver.Publisher.Parse.{Json, Unstructured}
use kube_ovn_dra_driver.Profile.Watch.{
  Cluster, Parsers, Equality, enumerated, reports, spec_equal, updated,
}
use kube_ovn_dra_driver.Profile.Watch.Ignored.{
  IsEquality, subnet_updated, unreported_changes_nothing,
}
use kube_ovn_dra_driver.Witnesses.Published.{labels}
use kube_ovn_dra_driver.Witnesses.Refresh.{whole, subnet_object}

-- An equality that is right whatever the maps are.
decided : {P : Type 0} → Dec P → Bool
decided (yes p) = true
decided (no n) = false

decided_iff : {P : Type 0} (d : Dec P) → (decided d ≡ true) ↔ P
unfolding decided
decided_iff (yes p) = ((λ h. p), (λ q. refl))
decided_iff (no n) = ((λ h. cc h), (λ q. absurd (n q)))

abbrev same : {A : Type 0} → IsSet A → A → A → Bool
same s a b = decided (lem (a ≡ b) (s a b))

IsScalar-set : (n : ℕ) → IsSet (IsScalar n)
IsScalar-set n = hlevel (IsScalar-prop n)

json : IsSet (Option (Map Json))
json = hlevel (IsScalar-set, ℕ_discrete)

names : IsSet (Map String)
names = hlevel (IsScalar-set, ℕ_discrete)

abbrev semantic : Equality
semantic = record { specs = same json; labels = same names }

semantic-IsEquality : IsEquality semantic
semantic-IsEquality = record {
  specs_eq = λ a b h. (decided_iff (lem (a ≡ b) (json a b))).0 h;
  labels_eq = λ a b h. (decided_iff (lem (a ≡ b) (names a b))).0 h;
}

abbrev parsers : Parsers
parsers = record {
  floats = whole;
  trim_space = λ s. s;
  prefix_is_4 = λ s. if s == "10.1.0.0/24" then some true else none;
}

abbrev objects : Cluster
objects = record {
  subnets = subnet_object ∷ [];
  vlans = λ name. err (message "not found" []);
  labels = empty_map;
}

-- kube-ovn counts the addresses of the Subnet again.
abbrev counted : Unstructured
counted = record subnet_object { status = none }

status_ignored : reports semantic (updated (some subnet_object) (some counted)) ≡ false
unfolding reports spec_equal
status_ignored =
    let spec = subnet_object.spec in
    rw ((decided_iff (lem (spec ≡ spec) (json spec spec))).1 refl) refl

unreported_changes_nothing_example :
    enumerated labels parsers (record objects { subnets = counted ∷ [] })
    ≡ enumerated labels parsers objects
unreported_changes_nothing_example =
    unreported_changes_nothing semantic semantic-IsEquality labels parsers objects
      (record objects { subnets = counted ∷ [] })
      (subnet_updated [] [] subnet_object counted refl refl refl status_ignored)
