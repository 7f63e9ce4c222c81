-- ===== src/Plugin/Events.antt =====
-- fullSubnets of cmd/kube-ovn-dra-kubeletplugin/publisher.go: the events of Subnets without a free
-- address. A Go map to bool is the list of its keys that are true.
use kube_ovn_dra_driver.Prelude.{
  String, ◌==◌, Bool, false, ◌||◌, List, [], ◌∷◌, ◌≡◌, refl, inl, inr, arith, All, contains, eq_iff,
  eq_refl, if◌then◌else◌, Bool-cases, sym, ◌∙◌,
}
use mathlib.Core.Path.{subst}
use kube_ovn_dra_driver.Publisher.{Subnet, full}

pub data Event : Type 0 where
  subnet_full subnet_available : String → Event

pub record Updated : Type 0 where
  pub full_names : List String
  pub events : List Event

unfoldable pub update_subnets : List String → List Subnet → Updated
update_subnets old [] = record { full_names = []; events = [] }
update_subnets old (s ∷ ss) =
    let rest = update_subnets old ss in
    if full s
    then record {
      full_names = s.name ∷ rest.full_names;
      events = if contains old s.name then rest.events else subnet_full s.name ∷ rest.events;
    }
    else record rest {
      events = if contains old s.name then subnet_available s.name ∷ rest.events else rest.events;
    }

abbrev has_name : List Subnet → String → Bool
has_name [] name = false
has_name (s ∷ ss) name = s.name == name || has_name ss name

abbrev pub IsDistinct : List Subnet → Type 0
IsDistinct [] = Unit {0}
IsDistinct (s ∷ ss) = (has_name ss s.name ≡ false) × IsDistinct ss

full_names-absent :
    (old : List String) (ss : List Subnet) (name : String)
    → has_name ss name ≡ false
    → contains (update_subnets old ss).full_names name ≡ false
unfolding update_subnets
full_names-absent old [] name h = refl
full_names-absent old (s ∷ ss) name h = ground (arith, h, full_names-absent old ss name)

-- The names of `known` agree with Full on the Subnets.
abbrev Agrees : List String → List Subnet → Type 0
Agrees known = All (λ (s : Subnet). contains known s.name ≡ full s)

Agrees-silent :
    (known : List String) (ss : List Subnet)
    → Agrees known ss
    → (update_subnets known ss).events ≡ []
unfolding update_subnets
Agrees-silent known [] a = refl
Agrees-silent known (s ∷ ss) (a, more) = ground (arith, a, Agrees-silent known ss more)

Agrees-cons :
    (name : String) (known : List String) (ss : List Subnet)
    → has_name ss name ≡ false
    → Agrees known ss
    → Agrees (name ∷ known) ss
Agrees-cons name known [] h a = tt
Agrees-cons name known (s ∷ ss) h (a, more) = (
  ground (arith, h, a, eq_iff name s.name, eq_iff s.name name),
  Agrees-cons name known ss (ground (arith, h)) more,
)

full_names-cons :
    (old : List String) (s : Subnet) (ss : List Subnet)
    → (update_subnets old (s ∷ ss)).full_names ≡ (
        if full s
        then s.name ∷ (update_subnets old ss).full_names
        else (update_subnets old ss).full_names)
unfolding update_subnets
full_names-cons old s ss = ground arith

full_names-Agrees :
    (old : List String) (ss : List Subnet)
    → IsDistinct ss
    → Agrees (update_subnets old ss).full_names ss
full_names-Agrees old [] d = tt
full_names-Agrees old (s ∷ ss) (d, ds) =
    let known = (update_subnets old ss).full_names in
    let ih = full_names-Agrees old ss ds in
    elim (Bool-cases (full s)) [
      | inl e ↦
          let named : (update_subnets old (s ∷ ss)).full_names ≡ s.name ∷ known =
            full_names-cons old s ss ∙ rw e refl in
          subst (λ names. Agrees names (s ∷ ss)) (sym named)
            (ground (arith, e, eq_refl s.name), Agrees-cons s.name known ss d ih)
      | inr e ↦
          let named : (update_subnets old (s ∷ ss)).full_names ≡ known =
            full_names-cons old s ss ∙ rw e refl in
          subst (λ names. Agrees names (s ∷ ss)) (sym named)
            (full_names-absent old ss s.name d ∙ sym e, ih)
    ]

-- An event is recorded only for a change: after an update, a second update with the same Subnets,
-- whose names are distinct, records no event, whatever the state before was.
pub second_update_silent :
    (old : List String) (ss : List Subnet)
    → IsDistinct ss
    → (update_subnets (update_subnets old ss).full_names ss).events ≡ []
second_update_silent old ss d =
    Agrees-silent (update_subnets old ss).full_names ss (full_names-Agrees old ss d)
