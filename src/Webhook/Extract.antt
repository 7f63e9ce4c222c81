-- ===== src/Webhook/Extract.antt =====
-- cmd/kube-ovn-dra-webhook/resource.go: which resources the webhook admits, and how it reads an
-- object of one. The decoder and the conversion to v1 are the record Scheme.
use kube_ovn_dra_driver.Prelude.{
  Bool, true, false, String, ◌==◌, ◌&&◌, Option, none, some, List, [], ◌∷◌, ◌≡◌, ◌↔◌, ◌⊎◌, refl,
  inl, inr, arith, message, Result, ok, err, wrapping, ◌>>=◌, >>=-eq-ok, wrapping-eq-ok, Bool-cases,
  Option-cases, eq_iff,
}
use kube_ovn_dra_driver.Claim.{OpaqueConfig}
use kube_ovn_dra_driver.Webhook.{Request, claim, template, other}

pub record GroupVersionResource : Type 0 where
  pub group : String
  pub version : String
  pub resource : String

abbrev dra : String → String → GroupVersionResource
dra v r = record { group = "resource.k8s.io"; version = v; resource = r }

-- The Go type that an object is decoded into.
pub data Kind : Type 0 where
  claim_v1 claim_v1beta1 claim_v1beta2 : Kind
  template_v1 template_v1beta1 template_v1beta2 : Kind

unfoldable pub resource_of : Kind → GroupVersionResource
resource_of claim_v1 = dra "v1" "resourceclaims"
resource_of claim_v1beta1 = dra "v1beta1" "resourceclaims"
resource_of claim_v1beta2 = dra "v1beta2" "resourceclaims"
resource_of template_v1 = dra "v1" "resourceclaimtemplates"
resource_of template_v1beta1 = dra "v1beta1" "resourceclaimtemplates"
resource_of template_v1beta2 = dra "v1beta2" "resourceclaimtemplates"

abbrev claims : List Kind
claims = claim_v1 ∷ claim_v1beta1 ∷ claim_v1beta2 ∷ []

abbrev templates : List Kind
templates = template_v1 ∷ template_v1beta1 ∷ template_v1beta2 ∷ []

abbrev same : GroupVersionResource → GroupVersionResource → Bool
same a b = (a.group == b.group) && ((a.version == b.version) && (a.resource == b.resource))

-- `switch ar.Request.Resource`: the first case whose resource it is.
unfoldable pub switch : List Kind → GroupVersionResource → Option Kind
switch [] r = none
switch (k ∷ ks) r = elim (same r (resource_of k)) [ true ↦ some k | false ↦ switch ks r ]

same_sound : (a b : GroupVersionResource) → same a b ≡ true → a ≡ b
same_sound a b h =
    let g = eq_iff a.group b.group in
    let v = eq_iff a.version b.version in
    let s = eq_iff a.resource b.resource in
    let g' = g.0 (ground (arith, h)) in
    let v' = v.0 (ground (arith, h)) in let s' = s.0 (ground (arith, h)) in cc (g', v', s')

switch_sound :
    (ks : List Kind) (r : GroupVersionResource) {k : Kind}
    → switch ks r ≡ some k
    → r ≡ resource_of k
unfolding switch
switch_sound [] r h = cc h
switch_sound (k' ∷ ks) r {k} h = elim (Bool-cases (same r (resource_of k'))) [
  | inr f ↦ switch_sound ks r (ground (arith, h, f))
  | inl e ↦
      (let found : k' ≡ k = ground (arith, h, e) in cc (same_sound r (resource_of k') e, found))
]

-- What the Kubernetes libraries do: an object of a kind is an Object, and an object converted to v1 is
-- given by its Spec.Devices.Config.
pub record Scheme {ℓ} (Object : Type ℓ) : Type ℓ where
  pub decode_into : Kind → String → Result Object
  pub convert : Object → Result (List (Option OpaqueConfig))

module _ {ℓ} {Object : Type ℓ} (scheme : Scheme Object)
    (describe : GroupVersionResource → String) where
  unfoldable pub extract :
      List Kind → GroupVersionResource → String → Result (List (Option OpaqueConfig))
  extract kinds r raw = elim (switch kinds r) [
    | none ↦ err (message "unsupported resource version: %s" (describe r ∷ []))
    | some k ↦ scheme.decode_into k raw >>= λ object.
        wrapping "failed to convert to v1" [] (scheme.convert object)
  ]

  abbrev pub extract_resource_claim :
      GroupVersionResource → String → Result (List (Option OpaqueConfig))
  extract_resource_claim = extract claims

  abbrev pub extract_resource_claim_template :
      GroupVersionResource → String → Result (List (Option OpaqueConfig))
  extract_resource_claim_template = extract templates

  -- The switch of admitResourceClaimParameters, with what its branch extracts.
  unfoldable pub admission_request : GroupVersionResource → String → Request
  admission_request r raw = elim (switch claims r) [
    | some k ↦ claim (extract_resource_claim r raw)
    | none ↦ elim (switch templates r) [
      | some k ↦ template (extract_resource_claim_template r raw)
      | none ↦ other (describe r)
    ]
  ]

  -- The object of the resource decodes and converts to a claim, or a template, with these configs.
  pub record HasConfigs (r : GroupVersionResource) (raw : String)
      (configs : List (Option OpaqueConfig)) : Type ℓ where
    pub kind : Kind
    pub object : Object
    pub of_kind : r ≡ resource_of kind
    pub decoded : scheme.decode_into kind raw ≡ ok object
    pub converted : scheme.convert object ≡ ok configs

  extract-HasConfigs :
      (ks : List Kind) (r : GroupVersionResource) (raw : String)
      {configs : List (Option OpaqueConfig)}
      → extract ks r raw ≡ ok configs
      → HasConfigs r raw configs
  unfolding extract
  extract-HasConfigs ks r raw {configs} h = elim (Option-cases (switch ks r)) [
    | inl e ↦ absurd (ground (arith, h, e))
    | inr (k, e) ↦
        (let decoded : (scheme.decode_into k raw >>= λ object.
        wrapping "failed to convert to v1" [] (scheme.convert object))
              ≡ ok configs =
            ground (arith, h, e) in
          let (object, d, c) = >>=-eq-ok (scheme.decode_into k raw) _ decoded in
          record {
            kind = k;
            object = object;
            of_kind = switch_sound ks r e;
            decoded = d;
            converted = wrapping-eq-ok "failed to convert to v1" [] (scheme.convert object) c;
          })
  ]

  extracted :
      (k : Kind) (raw : String) (object : Object) (configs : List (Option OpaqueConfig))
      → scheme.decode_into k raw ≡ ok object
      → scheme.convert object ≡ ok configs
      → (admission_request (resource_of k) raw ≡ claim (ok configs))
        ⊎ (admission_request (resource_of k) raw ≡ template (ok configs))
  unfolding admission_request extract switch resource_of
  extracted claim_v1 raw object configs d c = inl (rw d (rw c refl))
  extracted claim_v1beta1 raw object configs d c = inl (rw d (rw c refl))
  extracted claim_v1beta2 raw object configs d c = inl (rw d (rw c refl))
  extracted template_v1 raw object configs d c = inr (rw d (rw c refl))
  extracted template_v1beta1 raw object configs d c = inr (rw d (rw c refl))
  extracted template_v1beta2 raw object configs d c = inr (rw d (rw c refl))

  read_by_admission :
      (r : GroupVersionResource) (raw : String) {configs : List (Option OpaqueConfig)}
      → (admission_request r raw ≡ claim (ok configs))
        ⊎ (admission_request r raw ≡ template (ok configs))
      → HasConfigs r raw configs
  unfolding admission_request
  read_by_admission r raw h = elim (Option-cases (switch claims r)) [
    | inr (k, e) ↦ extract-HasConfigs claims r raw (ground (arith, h, e))
    | inl e ↦ elim (Option-cases (switch templates r)) [
      | inr (k', e') ↦ extract-HasConfigs templates r raw (ground (arith, h, e, e'))
      | inl e' ↦ absurd (ground (arith, h, e, e'))
    ]
  ]

  pub admission_request-HasConfigs :
      (r : GroupVersionResource) (raw : String) (configs : List (Option OpaqueConfig))
      → ((admission_request r raw ≡ claim (ok configs))
          ⊎ (admission_request r raw ≡ template (ok configs)))
        ↔ HasConfigs r raw configs
  admission_request-HasConfigs r raw configs = (
    read_by_admission r raw,
    (λ x. rw x.of_kind (extracted x.kind raw x.object configs x.decoded x.converted)),
  )
