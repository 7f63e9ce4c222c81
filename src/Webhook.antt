-- ===== src/Webhook.antt =====
-- admitResourceClaimParameters of cmd/kube-ovn-dra-webhook/main.go. The extraction of a claim or a
-- template from the request is a parameter, as are the decoder and fmt.
pub mod App
pub mod Extract
pub mod Serve
use kube_ovn_dra_driver.Prelude.{
  ℕ, suc, String, ◌<>◌, ◌==◌, not, Option, none, some, List, [], ◌∷◌, ◌≡◌, ◌≢◌, ◌↔◌, ◌⊎◌, refl, inl,
  inr, arith, Error, message, wrap, Result, ok, err, All, if◌then◌else◌, Bool-cases, Result-cases,
  eq_iff,
}
use kube_ovn_dra_driver.Claim.{OpaqueConfig, ConfigObject}
use kube_ovn_dra_driver.Profile.{validate_object}

-- The resource of the request, with what its extraction gives.
pub data Request : Type 0 where
  claim template : Result (List (Option OpaqueConfig)) → Request
  other : String → Request

pub data Response : Type 0 where
  allowed : Response
  bad_request : Error → Response
  invalid : List Error → Response

module _ (decode : String → Result ConfigObject) (decimal : ℕ → String) (driver : String) where
  abbrev pub field_path : String → ℕ → String
  field_path path n = path <> (".devices.config[" <> (decimal n <> "].opaque.parameters"))

  check_object : String → Result ConfigObject → List Error → List Error
  check_object field (err e) rest = wrap "error decoding object at %s" (field ∷ []) e ∷ rest
  check_object field (ok object) rest = elim (validate_object object) [
    | some e ↦ wrap "object at %s is invalid" (field ∷ []) e ∷ rest
    | none ↦ rest
  ]

  -- The loop over the configs, from a position on.
  unfoldable pub check_configs : String → ℕ → List (Option OpaqueConfig) → List Error
  unfolding check_object
  check_configs path n [] = []
  check_configs path n (none ∷ cs) = check_configs path (suc n) cs
  check_configs path n (some c ∷ cs) =
      let rest = check_configs path (suc n) cs in
      if not (c.driver == driver)
      then rest
      else check_object (field_path path n) (decode c.raw) rest

  abbrev pub respond : List Error → Response
  respond [] = allowed
  respond (e ∷ es) = invalid (e ∷ es)

  abbrev pub answer : String → Result (List (Option OpaqueConfig)) → Response
  answer path (err e) = bad_request e
  answer path (ok configs) = respond (check_configs path 0 configs)

  unfoldable pub admit : Request → Response
  unfolding check_configs
  admit (claim configs) = answer "spec" configs
  admit (template configs) = answer "spec.spec" configs
  admit (other resource) =
      bad_request (message "expected resource to be one of %v, got %s" (resource ∷ []))

  -- The config is not for the driver, or is one that decodes to a valid object.
  abbrev pub IsFine : Option OpaqueConfig → Type 0
  IsFine none = Unit {0}
  IsFine (some c) =
      (c.driver ≢ driver)
      ⊎ ((object : ConfigObject) × (decode c.raw ≡ ok object) × (validate_object object ≡ none))

  IsFine-cons :
      (path : String) (n : ℕ) (c : OpaqueConfig) (cs : List (Option OpaqueConfig))
      → (check_configs path n (some c ∷ cs) ≡ [])
        ↔ (IsFine (some c) × (check_configs path (suc n) cs ≡ []))
  unfolding check_configs
  IsFine-cons path n c cs = elim (Bool-cases (c.driver == driver)) [
    | inr f ↦ (
      (λ h. (inl (λ e. cc (f, (eq_iff c.driver driver).1 e)), ground (arith, h, f))),
      (λ (a, h). ground (arith, h, f)),
    )
    | inl e ↦ elim (Result-cases (decode c.raw)) [
      | inr (x, d) ↦ (
        (λ h. absurd (ground (arith, h, e, d))),
        (λ (a, h). elim a [
          | inl differs ↦ absurd (differs ((eq_iff c.driver driver).0 e))
          | inr (o, d', v) ↦ absurd (cc (d, d'))
        ]),
      )
      | inl (o, d) ↦ (
        (λ h. (inr (o, d, ground (arith, h, e, d)), ground (arith, h, e, d))),
        (λ (a, h). elim a [
          | inl differs ↦ absurd (differs ((eq_iff c.driver driver).0 e))
          | inr (o', d', v) ↦ ground (arith, h, e, d', v)
        ]),
      )
    ]
  ]

  check_configs_iff :
      (path : String) (n : ℕ) (cs : List (Option OpaqueConfig))
      → (check_configs path n cs ≡ []) ↔ All IsFine cs
  unfolding check_configs
  check_configs_iff path n [] = ((λ h. tt), (λ h. refl))
  check_configs_iff path n (none ∷ cs) =
      let (forth, back) = check_configs_iff path (suc n) cs in
      ((λ h. (tt, forth h)), (λ (a, more). back more))
  check_configs_iff path n (some c ∷ cs) =
      let (forth, back) = check_configs_iff path (suc n) cs in
      let (split, join) = IsFine-cons path n c cs in
      ((λ h. ((split h).0, forth (split h).1)), (λ (a, more). join (a, back more)))

  -- The webhook allows a claim, or a template, exactly when it can be extracted and each of its configs
  -- for the driver decodes to a valid object.
  pub admit_iff :
      (configs : List (Option OpaqueConfig))
      → ((admit (claim (ok configs)) ≡ allowed) ↔ All IsFine configs)
        × ((admit (template (ok configs)) ≡ allowed) ↔ All IsFine configs)
  unfolding admit
  admit_iff configs = (allows "spec", allows "spec.spec")
    where
      allows :
          (path : String) → (respond (check_configs path 0 configs) ≡ allowed) ↔ All IsFine configs
      allows path =
          let (forth, back) = check_configs_iff path 0 configs in
          ((λ h. forth (ground (arith, h))), (λ a. rw (back a) refl))
