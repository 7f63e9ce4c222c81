-- ===== src/Plugin/Snapshot/Published.antt =====
-- Which pools the publisher of cmd/kube-ovn-dra-kubeletplugin/publisher.go publishes.
use kube_ovn_dra_driver.Prelude.{
  ℕ, String, ◌==◌, ◌||◌, Bool, true, false, Option, none, some, List, [], ◌∷◌, ◌≡◌, ◌↔◌, ◌⊎◌, inl,
  inr, refl, sym, ◌∙◌, ap, arith, map, any, Map, empty_map, update, Result, ok, err, eq_iff,
  Bool-cases, Option-cases, ok-injective, if◌then◌else◌,
}
use kube_ovn_dra_driver.Claim.{ResourceClaim}
use kube_ovn_dra_driver.Publisher.{Subnet}
use kube_ovn_dra_driver.Publisher.Device.{NameTools, Pool, publishable, pool, pools}
use kube_ovn_dra_driver.Publisher.Held.{
  IpRef, Use, reset, charge, change_named, charge_all, charge_claim, charge_claims, apply_held,
  names_of, uses_of, owned, addresses,
}
use kube_ovn_dra_driver.Publisher.Parse.{Unstructured}
use kube_ovn_dra_driver.Plugin.Snapshot.{
  Stores, SnapshotTools, read_subnet, keep_publishable, publishable_subnets, resources, with_held,
  ip_refs, claims_of,
}

abbrev has : String → List Subnet → Bool
has name ss = any (λ (s : Subnet). s.name == name) ss

abbrev pub is_some : Option Pool → Bool
is_some none = false
is_some (some p) = true

pools-has :
    (t : NameTools) (ss : List Subnet) (c : Bool) (out : Map Pool) (name : String)
    → is_some (pools t ss c out name) ≡ (has name ss || is_some (out name))
unfolding pools
pools-has t [] c out name = refl
pools-has t (s ∷ ss) c out name =
    ground (arith, pools-has t ss c (update out s.name (some (pool t s c))) name)

or_false : (b : Bool) → (b || false) ≡ b
or_false true = refl
or_false false = refl

-- The names stay where the counts change.
has-change_named :
    (name : String) (f : Subnet → Subnet) (ss : List Subnet) (n : String)
    → ((s : Subnet) → (f s).name ≡ s.name)
    → has n (change_named name f ss) ≡ has n ss
unfolding change_named
has-change_named name f [] n h = refl
has-change_named name f (s ∷ ss) n h = ground (arith, h s, has-change_named name f ss n h)

has-reset : (ss : List Subnet) (n : String) → has n (map reset ss) ≡ has n ss
unfolding reset
has-reset [] n = refl
has-reset (s ∷ ss) n = ground (arith, has-reset ss n)

module _ (t : NameTools) (driver : String) (ips : List IpRef)
    (owners : String → String → List String) (n : String) where
  has-charge_all :
      (namespace : String) (names : List String) (us : List (String × Use)) (ss : List Subnet)
      → has n (charge_all t driver ips owners namespace names us ss) ≡ has n ss
  unfolding charge_all charge
  has-charge_all namespace names [] ss = refl
  has-charge_all namespace names ((name, u) ∷ us) ss =
      let have = owned (λ owner. addresses ips namespace owner name) [] names 0 in
      has-charge_all namespace names us (change_named name (charge u have) ss)
      ∙ has-change_named name (charge u have) ss n (charge-name u have)
    where
      charge-name : (u : Use) (have : ℕ) (s : Subnet) → (charge u have s).name ≡ s.name
      charge-name u have s = refl

  has-charge_claim :
      (c : ResourceClaim) (ss : List Subnet)
      → has n (charge_claim t driver ips owners c ss) ≡ has n ss
  unfolding charge_claim
  has-charge_claim c ss = elim (Option-cases c.allocation) [
    | inl e ↦ rw (e, charge_claim) refl
    | inr (a, e) ↦
        rw (e, charge_claim)
          (has-charge_all c.namespace (names_of t driver ips owners c.namespace c.reserved_for)
            (uses_of t driver ips owners ss a.results []) ss)
  ]

  has-charge_claims :
      (cs : List ResourceClaim) (ss : List Subnet)
      → has n (charge_claims t driver ips owners cs ss) ≡ has n ss
  unfolding charge_claims
  has-charge_claims [] ss = refl
  has-charge_claims (c ∷ cs) ss =
      has-charge_claims cs (charge_claim t driver ips owners c ss) ∙ has-charge_claim c ss

  has-apply_held :
      (cs : List ResourceClaim) (ss : List Subnet)
      → has n (apply_held t driver ips owners cs ss) ≡ has n ss
  unfolding apply_held
  has-apply_held cs ss = has-charge_claims cs (map reset ss) ∙ has-reset ss n

-- Some entry of the store satisfies the predicate.
abbrev pub Some : (Unstructured → Type 0) → List (Option Unstructured) → Type 0
Some P [] = ⊥
Some P (none ∷ objs) = Some P objs
Some P (some u ∷ objs) = P u ⊎ Some P objs

module _ (t : SnapshotTools) (driver : String) (capacity : Bool) where
  -- The object is read, with its Vlan if it names one, and its claims can be prepared.
  abbrev pub Publishes : Stores → String → Unstructured → Type 0
  Publishes stores name u =
      (s : Subnet) × (read_subnet t driver capacity stores u ≡ ok s)
      × (publishable s ≡ none)
      × (s.name ≡ name)

  -- What the reading of one object and the test for a publishable Subnet add.
  abbrev Adds : String → Result Subnet → Type 0
  Adds name r = (s : Subnet) × (r ≡ ok s) × (publishable s ≡ none) × (s.name ≡ name)

  has-keep_publishable :
      (name : String) (r : Result Subnet) (later : List Subnet)
      → (has name (keep_publishable t driver capacity r later) ≡ true)
        ↔ (Adds name r ⊎ (has name later ≡ true))
  unfolding keep_publishable
  has-keep_publishable name (err x) later =
      ((λ h. inr h), (λ a. elim a [ inl (s, e, p, n) ↦ cc | inr h ↦ h ]))
  has-keep_publishable name (ok s) later = elim (Option-cases (publishable s)) [
    | inr (x, e) ↦
        rw (e, keep_publishable)
          (
            (λ h. inr h),
            (λ a. elim a [
              | inl (s', k, p, n) ↦ cc (e, p, ap publishable (ok-injective k))
              | inr h ↦ h
            ]),
          )
    | inl e ↦
        rw (e, keep_publishable)
          (
            (λ h. elim (Bool-cases (s.name == name)) [
              | inl same ↦ inl (s, refl, e, (eq_iff s.name name).0 same)
              | inr other ↦ inr (rw other at h)
            ]),
            (λ a. elim a [
              | inl (s', k, p, n) ↦
                  let same : (s.name == name) ≡ true =
                    (eq_iff s.name name).1 (ap (λ (x : Subnet). x.name) (ok-injective k) ∙ n) in
                  ground (arith, same)
              | inr h ↦ ground (arith, h)
            ]),
          )
  ]

  module _ (stores : Stores) (name : String) where
    has-publishable_subnets :
        (objs : List (Option Unstructured))
        → (has name (publishable_subnets t driver capacity stores objs) ≡ true)
          ↔ Some (Publishes stores name) objs
    unfolding publishable_subnets
    has-publishable_subnets [] = ((λ h. cc h), (λ h. elim h [ ]))
    has-publishable_subnets (none ∷ objs) = has-publishable_subnets objs
    has-publishable_subnets (some u ∷ objs) =
        let ih = has-publishable_subnets objs in
        let k =
          has-keep_publishable name (read_subnet t driver capacity stores u)
            (publishable_subnets t driver capacity stores objs) in
        (
          (λ h. elim (k.0 h) [ inl a ↦ inl a | inr l ↦ inr (ih.0 l) ]),
          (λ h. elim h [ inl a ↦ k.1 (inl a) | inr l ↦ k.1 (inr (ih.1 l)) ]),
        )

    has-with_held :
        (b : Bool) (full_names : List String) (ss : List Subnet)
        → has name
            (if b
              then with_held t driver capacity stores full_names ss
              else (ss, record { full_names = full_names; events = [] })).0
          ≡ has name ss
    unfolding with_held
    has-with_held true full_names ss =
        has-apply_held t.names driver (ip_refs t driver capacity stores.ips) stores.owners name
          (claims_of t driver capacity stores.claims) ss
    has-with_held false full_names ss = refl

    -- The publisher has a pool of a name exactly when the store has a Subnet object of that name
    -- that can be read, with its Vlan if it names one, and that is publishable: an object that cannot
    -- be read keeps no other Subnet from being published, and neither do the held addresses. This
    -- uses that sort.Slice keeps the members of the list.
    pub resources_iff :
        (full_names : List String)
        → ((p : Subnet → Bool) (ss : List Subnet) → any p (t.sort_by_name ss) ≡ any p ss)
        → (is_some ((resources t driver capacity stores full_names).pools name) ≡ true)
          ↔ Some (Publishes stores name) stores.subnets
    unfolding resources
    resources_iff full_names sorted =
        let found = has-publishable_subnets stores.subnets in
        let all = publishable_subnets t driver capacity stores stores.subnets in
        let same : is_some ((resources t driver capacity stores full_names).pools name)
            ≡ has name all =
          pools-has t.names _ capacity empty_map name
          ∙ or_false (has name _)
          ∙ has-with_held capacity full_names (t.sort_by_name all)
          ∙ sorted (λ (s : Subnet). s.name == name) all in
        ((λ h. found.0 (sym same ∙ h)), (λ h. same ∙ found.1 h))
