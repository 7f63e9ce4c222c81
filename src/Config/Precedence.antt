-- ===== src/Config/Precedence.antt =====
-- Which configuration applies, against the rule that the comment of GetOpaqueDeviceConfigs states,
-- and how resultsByConfig groups the results.
use mathlib.Core.Path.{subst}
use mathlib.Core.List.{append-nil, append_assoc}
use kube_ovn_dra_driver.Prelude.{
  ℕ, suc, ◌≤◌, String, ◌==◌, Bool, true, false, ◌&&◌, Option, none, some, List, [], ◌∷◌, ◌++◌, ◌≡◌,
  refl, inl, inr, ◌⊎◌, arith, Result, ok, keep, if◌then◌else◌, >>=-eq-ok, Option-cases, Bool-cases,
  Result-cases,
}
use kube_ovn_dra_driver.Claim.{from_class, from_claim, OpaqueConfig, AllocationConfig, ConfigObject}
use kube_ovn_dra_driver.Config.{
  OpaqueDeviceConfig, BySource, split_sources, decode_configs, get_opaque_device_configs,
  config_matches_request, number, last_match,
}

abbrev is_claim : AllocationConfig → Bool
is_claim c = elim c.source [ from_claim ↦ true | _ ↦ false ]

abbrev is_class : AllocationConfig → Bool
is_class c = elim c.source [ from_class ↦ true | _ ↦ false ]

split_sources_lem :
    (cs : List AllocationConfig) (acc by : BySource)
    → split_sources cs acc ≡ ok by
    → (by.class_configs ≡ acc.class_configs ++ keep is_class cs)
      × (by.claim_configs ≡ acc.claim_configs ++ keep is_claim cs)
unfolding split_sources
split_sources_lem [] acc by h =
    ground (arith, h, append-nil acc.class_configs, append-nil acc.claim_configs)
split_sources_lem (c ∷ cs) acc by h = ground (
  arith,
  split_sources_lem cs (record acc { class_configs = acc.class_configs ++ c ∷ [] }) by,
  split_sources_lem cs (record acc { claim_configs = acc.claim_configs ++ c ∷ [] }) by,
  append_assoc acc.class_configs (c ∷ []) (keep is_class cs),
  append_assoc acc.claim_configs (c ∷ []) (keep is_claim cs),
)

-- The last element of a list that passes a test.
pub last {ℓ} : {A : Type ℓ} → (A → Bool) → List A → Option A
last p [] = none
last p (x ∷ xs) =
    let later = last p xs in elim later [ some y ↦ some y | none ↦ if p x then some x else none ]

abbrev or_last {ℓ} : {A : Type ℓ} → Option A → Option A → Option A
or_last (some y) o = some y
or_last none o = o

last-append {ℓ} :
    {A : Type ℓ} (p : A → Bool) (xs ys : List A)
    → last p (xs ++ ys) ≡ or_last (last p ys) (last p xs)
unfolding last
last-append p [] ys = ground arith
last-append p (x ∷ xs) ys = ground (arith, last-append p xs ys)

last-keep {ℓ} :
    {A : Type ℓ} (p q : A → Bool) (xs : List A) → last p (keep q xs) ≡ last (λ x. q x && p x) xs
unfolding last
last-keep p q [] = refl
last-keep p q (x ∷ xs) = ground (arith, last-keep p q xs)

module _ (decode : String → Result ConfigObject) (driver : String) (base : String → String) where
  -- The config is for the driver and for the request.
  abbrev pub applies : String → AllocationConfig → Bool
  applies request c = elim c.opaque [
    | none ↦ false
    | some o ↦ o.driver == driver && config_matches_request base c.requests request
  ]

  -- `m` is a decoded config at a position from `k` on, decoded from `c`.
  abbrev pub DecodedFrom : ℕ → AllocationConfig → Option (ℕ × OpaqueDeviceConfig) → Type 0
  DecodedFrom k c m =
      (n : ℕ) × (o : OpaqueConfig) × (object : ConfigObject) × (m
        ≡ some (n, record { requests = c.requests; config = some object }))
      × (k ≤ n)
      × (c.opaque ≡ some o)
      × (decode o.raw ≡ ok object)

  abbrev LastOf : ℕ → Option AllocationConfig → Option (ℕ × OpaqueDeviceConfig) → Type 0
  LastOf k none m = m ≡ none
  LastOf k (some c) m = DecodedFrom k c m

  decode_configs-cons :
      (c : AllocationConfig) (cs : List AllocationConfig) (configs : List OpaqueDeviceConfig)
      → decode_configs decode driver (c ∷ cs) ≡ ok configs
      → (o : OpaqueConfig) × (c.opaque ≡ some o)
        × (((o.driver == driver ≡ false) × (decode_configs decode driver cs ≡ ok configs))
            ⊎ ((o.driver == driver ≡ true)
                × ((object : ConfigObject) × (rest : List OpaqueDeviceConfig) × (decode o.raw
                      ≡ ok object)
                    × (decode_configs decode driver cs ≡ ok rest)
                    × (configs ≡ record { requests = c.requests; config = some object } ∷ rest))))
  unfolding decode_configs
  decode_configs-cons c cs configs h = elim (Option-cases c.opaque) [
    | inl none_there ↦ absurd (ground arith)
    | inr (o, e) ↦ elim (Bool-cases (o.driver == driver)) [
      | inr f ↦ (o, e, inl (f, ground arith))
      | inl t ↦ elim (Result-cases (decode o.raw)) [
        | inr (x, bad) ↦ absurd (ground arith)
        | inl (object, good) ↦ elim (Result-cases (decode_configs decode driver cs)) [
          | inr (x, bad) ↦ absurd (ground arith)
          | inl (rest, more) ↦ (o, e, inr (t, (object, rest, good, more, ground arith)))
        ]
      ]
    ]
  ]

  abbrev later_or : Option AllocationConfig → String → AllocationConfig → Option AllocationConfig
  later_or o request c = elim o [
    | some y ↦ some y
    | none ↦ if applies request c then some c else none
  ]

  skip-LastOf :
      (request : String) (k : ℕ) (c : AllocationConfig) (later : Option AllocationConfig)
      (m : Option (ℕ × OpaqueDeviceConfig))
      → applies request c ≡ false
      → LastOf k later m
      → LastOf k (later_or later request c) m
  skip-LastOf request k c none m e h = rw e h
  skip-LastOf request k c (some y) m e h = h

  take-LastOf :
      (request : String) (k : ℕ) (c : AllocationConfig) (o : OpaqueConfig) (object : ConfigObject)
      (later : Option AllocationConfig) (m : Option (ℕ × OpaqueDeviceConfig))
      → c.opaque ≡ some o
      → (o.driver == driver) ≡ true
      → decode o.raw ≡ ok object
      → LastOf (suc k) later m
      → LastOf k (later_or later request c) (elim m [
        | some x ↦ some x
        | none ↦
            if config_matches_request base c.requests request
            then some (k, record { requests = c.requests; config = some object })
            else none
      ])
  take-LastOf request k c o object none m e t d h =
      rw h (elim (Bool-cases (config_matches_request base c.requests request)) [
        | inr f ↦ let a : applies request c ≡ false = ground arith in rw (a, f)
        | inl y ↦
            let a : applies request c ≡ true = ground arith in
            rw (a, y) (k, o, object, refl, omega arith, e, d)
      ])
  take-LastOf request k c o object (some y) m e t d (n, o', object', h, le, e', d') =
      (n, o', object', rw h, omega arith, e', d')

  decode_configs-last :
      (request : String) (k : ℕ) (cs : List AllocationConfig) (configs : List OpaqueDeviceConfig)
      → decode_configs decode driver cs ≡ ok configs
      → LastOf k (last (applies request) cs) (last_match base request (number k configs))
  unfolding last last_match decode_configs
  decode_configs-last request k [] configs h = ground arith
  decode_configs-last request k (c ∷ cs) configs h =
      let (o, e, rest) = decode_configs-cons c cs configs h in
      elim rest [
        | inl (f, more) ↦
            skip-LastOf request k c (last (applies request) cs) _ (ground arith)
              (decode_configs-last request k cs configs more)
        | inr (t, (object, rest', good, more, same)) ↦ rw same (
            take-LastOf request k c o object (last (applies request) cs)
              (last_match base request (number (suc k) rest')) e t good
              (decode_configs-last request (suc k) cs rest' more))
      ]

  -- The config of the claim that comes last among those for the driver and the request, else the
  -- last such config of the class.
  pub winner : String → List AllocationConfig → Option AllocationConfig
  winner request possible =
      or_last (last (λ c. is_claim c && applies request c) possible)
        (last (λ c. is_class c && applies request c) possible)

  abbrev pub Picked : Option AllocationConfig → Option (ℕ × OpaqueDeviceConfig) → Type 0
  Picked none m = m ≡ some (0, record { requests = []; config = none })
  Picked (some c) m = DecodedFrom 1 c m

  LastOf-Picked :
      (request : String) (o : Option AllocationConfig) (configs : List OpaqueDeviceConfig)
      → LastOf 1 o (last_match base request (number 1 configs))
      → Picked o
          (last_match base request (number 0 (record { requests = []; config = none } ∷ configs)))
  unfolding last_match config_matches_request
  LastOf-Picked request none configs h = rw (h, last_match)
  LastOf-Picked request (some c) configs (n, o, object, m, le, e, d) =
      (n, o, object, rw (m, last_match), le, e, d)

  -- Where GetOpaqueDeviceConfigs returns configs, with the default config in front, the last match
  -- among the configs of the driver is the claim's last config for the request, else the class's
  -- last one, else the default.
  pub get_opaque_device_configs_precedence :
      (request : String) (possible : List AllocationConfig) (configs : List OpaqueDeviceConfig)
      → get_opaque_device_configs decode driver possible ≡ ok configs
      → Picked
          (winner request possible)
          (last_match base request (number 0 (record { requests = []; config = none } ∷ configs)))
  unfolding get_opaque_device_configs winner
  get_opaque_device_configs_precedence request possible configs h =
      let (by, split, more) = >>=-eq-ok (split_sources possible _) _ h in
      let (classes, claims) = split_sources_lem possible _ by split in
      LastOf-Picked request _ configs (
        subst (λ o. LastOf 1 o (last_match base request (number 1 configs)))
          (rw (last-append, claims, classes)
            (rw (last-keep (applies request) is_class, last-keep (applies request) is_claim)))
          (decode_configs-last request 1 (by.class_configs ++ by.claim_configs) configs more))
