-- ===== src/Profile/Watch/Alike.antt =====
-- Subnets that EnumerateDevices of internal/profiles/nic/nic.go does not tell apart.
use kube_ovn_dra_driver.Prelude.{
  String, ◌==◌, true, false, Option, none, some, List, [], ◌∷◌, ◌++◌, Map, update, map, ◌≡◌, refl,
  sym, ap, ◌>>=◌, ◌∙◌, inl, inr, arith, Error, Result, ok, err, Result-cases, Option-cases,
  Bool-cases,
}
use kube_ovn_dra_driver.Publisher.{Subnet, subnet_type}
use kube_ovn_dra_driver.Publisher.Device.{Device, NameTools, publishable, device}
use kube_ovn_dra_driver.Publisher.Parse.{
  Json, Unstructured, VlanInfo, parse_vlan, parse_subnet, text_at,
}
use kube_ovn_dra_driver.Profile.{and_device, is_ready, enumerate_items}
use kube_ovn_dra_driver.Profile.Watch.{Parsers, vlan_info, item_of}

-- The Subnets agree on all but their counts and UIDs.
pub record Alike (s t : Subnet) : Type 0 where
  pub name : s.name ≡ t.name
  pub provider : s.provider ≡ t.provider
  pub vpc : s.vpc ≡ t.vpc
  pub vlan_id : s.vlan_id ≡ t.vlan_id
  pub provider_network : s.provider_network ≡ t.provider_network
  pub v4 : s.v4.enabled ≡ t.v4.enabled
  pub v6 : s.v6.enabled ≡ t.v6.enabled

device-Alike : (t : NameTools) {s u : Subnet} → Alike s u → device t s false ≡ device t u false
unfolding device subnet_type
device-Alike t a = cc (a.name, a.provider, a.vpc, a.vlan_id, a.provider_network)

publishable-Alike : {s u : Subnet} → Alike s u → publishable s ≡ publishable u
unfolding publishable
publishable-Alike a = cc (a.name, a.provider, a.v4, a.v6)

is_ready-Alike :
    (labels : Map String) {s u : Subnet} → Alike s u → is_ready labels s ≡ is_ready labels u
is_ready-Alike labels a = cc a.provider_network

abbrev AlikeItem : Option (Result Subnet) → Option (Result Subnet) → Type 0
AlikeItem none none = Unit {0}
AlikeItem (some (err e)) (some (err e')) = e ≡ e'
AlikeItem (some (ok s)) (some (ok u)) = Alike s u
AlikeItem _ _ = ⊥

abbrev AlikeItems : List (Option (Result Subnet)) → List (Option (Result Subnet)) → Type 0
AlikeItems [] [] = Unit {0}
AlikeItems (x ∷ xs) (y ∷ ys) = AlikeItem x y × AlikeItems xs ys
AlikeItems _ _ = ⊥

module _ (t : NameTools) (labels : Map String) (s : Subnet) (is : List (Option (Result Subnet)))
    (m : Map String) where
  devices-ready :
      publishable s ≡ none
      → is_ready labels s ≡ true
      → (enumerate_items t labels (some (ok s) ∷ is) m).devices
        ≡ (and_device
            (device t s false)
            (enumerate_items t labels is (update m (device t s false).name (some s.name)))).devices
  unfolding enumerate_items
  devices-ready e r = ground (arith, e, r)

  devices-unready :
      publishable s ≡ none
      → is_ready labels s ≡ false
      → (enumerate_items t labels (some (ok s) ∷ is) m).devices
        ≡ (enumerate_items t labels is m).devices
  unfolding enumerate_items
  devices-unready e r = ground (arith, e, r)

  devices-unpublishable :
      (x : Error)
      → publishable s ≡ some x
      → (enumerate_items t labels (some (ok s) ∷ is) m).devices
        ≡ (enumerate_items t labels is m).devices
  unfolding enumerate_items
  devices-unpublishable x e = rw (e, enumerate_items) refl

-- The devices of the list do not depend on the counts, nor on the names that the profile keeps.
pub enumerate_items-Alike :
    (t : NameTools) (labels : Map String) (xs ys : List (Option (Result Subnet)))
    (m m' : Map String)
    → AlikeItems xs ys
    → (enumerate_items t labels xs m).devices ≡ (enumerate_items t labels ys m').devices
unfolding enumerate_items
enumerate_items-Alike t labels [] [] m m' a = refl
enumerate_items-Alike t labels [] (y ∷ ys) m m' a = absurd a
enumerate_items-Alike t labels (x ∷ xs) [] m m' a = absurd a
enumerate_items-Alike t labels (none ∷ xs) (none ∷ ys) m m' (a, more) =
    enumerate_items-Alike t labels xs ys m m' more
enumerate_items-Alike t labels (none ∷ xs) (some y ∷ ys) m m' (a, more) = absurd a
enumerate_items-Alike t labels (some (err e) ∷ xs) (none ∷ ys) m m' (a, more) = absurd a
enumerate_items-Alike t labels (some (ok s) ∷ xs) (none ∷ ys) m m' (a, more) = absurd a
enumerate_items-Alike t labels (some (err e) ∷ xs) (some (ok u) ∷ ys) m m' (a, more) = absurd a
enumerate_items-Alike t labels (some (ok s) ∷ xs) (some (err e) ∷ ys) m m' (a, more) = absurd a
enumerate_items-Alike t labels (some (err e) ∷ xs) (some (err e') ∷ ys) m m' (a, more) = ap err a
enumerate_items-Alike t labels (some (ok s) ∷ xs) (some (ok u) ∷ ys) m m' (a, more) =
    let publishes = publishable-Alike a in
    let at = is_ready-Alike labels a in
    elim (Option-cases (publishable u)) [
      | inr (x, e) ↦
          devices-unpublishable t labels s xs m x (publishes ∙ e)
          ∙ enumerate_items-Alike t labels xs ys m m' more
          ∙ sym (devices-unpublishable t labels u ys m' x e)
      | inl e ↦ elim (Bool-cases (is_ready labels u)) [
        | inl r ↦
            devices-ready t labels s xs m (publishes ∙ e) (at ∙ r)
            ∙ rw (device-Alike t a) (
                ap (λ (ds : Result (List Device)). ds >>= λ rest. ok (device t u false ∷ rest))
                  (enumerate_items-Alike t labels xs ys _ _ more))
            ∙ sym (devices-ready t labels u ys m' e r)
        | inr r ↦
            devices-unready t labels s xs m (publishes ∙ e) (at ∙ r)
            ∙ enumerate_items-Alike t labels xs ys m m' more
            ∙ sym (devices-unready t labels u ys m' e r)
      ]
    ]

-- A Subnet is parsed from its name and spec, but for its counts and UID.
module _ (p : Parsers) (vlans : String → Result VlanInfo) (o n : Unstructured)
    (named : n.name ≡ o.name) where
  parsed-Alike :
      (m : Map Json)
      → AlikeItem
          (some
            (parse_subnet p.floats p.trim_space p.prefix_is_4 (record o { spec = some m }) vlans))
          (some
            (parse_subnet p.floats p.trim_space p.prefix_is_4 (record n { spec = some m }) vlans))
  unfolding parse_subnet
  parsed-Alike m = elim (Bool-cases (text_at (some m) "vlan" == "")) [
    | inl e ↦ rw e (record {
      name = sym named;
      provider = refl;
      vpc = refl;
      vlan_id = refl;
      provider_network = refl;
      v4 = refl;
      v6 = refl;
    })
    | inr f ↦ elim (Result-cases (vlans (text_at (some m) "vlan"))) [
      | inl (v, k) ↦
          rw (f, k)
            (record {
              name = sym named;
              provider = refl;
              vpc = refl;
              vlan_id = refl;
              provider_network = refl;
              v4 = refl;
              v6 = refl;
            })
      | inr (x, k) ↦ rw (f, k) (cc named)
    ]
  ]

  item-Alike : n.spec ≡ o.spec → AlikeItem (item_of p vlans o) (item_of p vlans n)
  unfolding item_of
  item-Alike e = elim (Option-cases o.spec) [
    | inl z ↦ rw (z, e ∙ z) tt
    | inr (m, z) ↦ rw (z, e ∙ z) (parsed-Alike m)
  ]

AlikeItem-self : (x : Option (Result Subnet)) → AlikeItem x x
AlikeItem-self none = tt
AlikeItem-self (some (err e)) = refl
AlikeItem-self (some (ok s)) = record {
  name = refl;
  provider = refl;
  vpc = refl;
  vlan_id = refl;
  provider_network = refl;
  v4 = refl;
  v6 = refl;
}

AlikeItems-self : (xs : List (Option (Result Subnet))) → AlikeItems xs xs
AlikeItems-self [] = tt
AlikeItems-self (x ∷ xs) = (AlikeItem-self x, AlikeItems-self xs)

pub items-Alike :
    (p : Parsers) (vlans : String → Result VlanInfo) (before after : List Unstructured)
    (o n : Unstructured)
    → n.name ≡ o.name
    → n.spec ≡ o.spec
    → AlikeItems
        (map (item_of p vlans) (before ++ o ∷ after))
        (map (item_of p vlans) (before ++ n ∷ after))
items-Alike p vlans [] after o n named same =
    (item-Alike p vlans o n named same, AlikeItems-self (map (item_of p vlans) after))
items-Alike p vlans (b ∷ before) after o n named same =
    (AlikeItem-self (item_of p vlans b), items-Alike p vlans before after o n named same)

pub vlan_info-spec :
    (p : Parsers) (o n : Unstructured) → n.spec ≡ o.spec → vlan_info p (ok n) ≡ vlan_info p (ok o)
unfolding parse_vlan
vlan_info-spec p o n e = cc e
