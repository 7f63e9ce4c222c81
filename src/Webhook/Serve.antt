-- ===== src/Webhook/Serve.antt =====
-- serve and readAdmissionReview of cmd/kube-ovn-dra-webhook/main.go. net/http, the decoder of reviews,
-- json.Marshal and fmt are the record Server. A write that fails is only logged.
pub mod Allows
use kube_ovn_dra_driver.Prelude.{
  ℕ, Bool, true, false, String, ◌==◌, ◌&&◌, not, Option, none, some, List, [], ◌∷◌, ◌≡◌, ◌↔◌, ◌⊎◌,
  refl, inl, inr, arith, Error, message, Result, ok, err, wrapping, wrap, guard, ◌>>=◌, >>=-eq-ok,
  wrapping-eq-ok, Bool-cases, Result-cases, Option-cases, All, eq_iff, if◌then◌else◌,
}
use kube_ovn_dra_driver.Claim.{OpaqueConfig, ConfigObject}
use kube_ovn_dra_driver.Webhook.{
  Request, Response, claim, template, allowed, admit, IsFine, admit_iff,
}
use kube_ovn_dra_driver.Webhook.Extract.{
  GroupVersionResource, Scheme, HasConfigs, admission_request, admission_request-HasConfigs,
}

pub record GroupVersionKind : Type 0 where
  pub group : String
  pub version : String
  pub kind : String

abbrev pub review_kind : GroupVersionKind
review_kind = record { group = "admission.k8s.io"; version = "v1"; kind = "AdmissionReview" }

pub record AdmissionRequest : Type 0 where
  pub uid : String
  pub resource : GroupVersionResource
  pub object : String

pub record AdmissionReview : Type 0 where
  pub type_meta : GroupVersionKind
  pub request : Option AdmissionRequest

-- The review that is sent back.
pub record Answer : Type 0 where
  pub type_meta : GroupVersionKind
  pub uid : String
  pub response : Response

pub data Decoded : Type 0 where
  review : AdmissionReview → Decoded
  other_type : String → Decoded

pub record Server {ℓ} (Object : Type ℓ) : Type ℓ where
  pub scheme : Scheme Object
  pub describe : GroupVersionResource → String
  pub decode_config : String → Result ConfigObject
  pub decimal : ℕ → String
  pub decode_review : String → Result (Decoded × GroupVersionKind)
  pub marshal : Answer → Result String

-- The body is nil, or is what io.ReadAll gives.
pub record HttpRequest : Type 0 where
  pub body : Option (Result String)
  pub content_type : String

pub data Reply : Type 0 where
  http_error : ℕ → Error → Reply
  replied : String → Reply
  panicked : Reply

abbrev pub same_kind : GroupVersionKind → GroupVersionKind → Bool
same_kind a b = (a.group == b.group) && ((a.version == b.version) && (a.kind == b.kind))

abbrev pub read_body : Option (Result String) → Result String
read_body none = ok ""
read_body (some contents) = contents

-- `if err != nil { http.Error(w, …, status); return }`, and the rest of the handler.
abbrev pub or_error {ℓ} : {A : Type ℓ} → ℕ → Result A → (A → Reply) → Reply
or_error status m rest = elim m [ ok a ↦ rest a | err e ↦ http_error status e ]

pub same_kind_sound : (a b : GroupVersionKind) → same_kind a b ≡ true → a ≡ b
same_kind_sound a b h =
    let g = (eq_iff a.group b.group).0 (ground (arith, h)) in
    let v = (eq_iff a.version b.version).0 (ground (arith, h)) in
    let k = (eq_iff a.kind b.kind).0 (ground (arith, h)) in cc (g, v, k)

module _ {ℓ} {Object : Type ℓ} (server : Server Object) (driver : String) where
  unfoldable pub read_admission_review : String → Result AdmissionReview
  read_admission_review contents =
      wrapping "request could not be decoded" [] (server.decode_review contents) >>= λ decoded.
      if not (same_kind decoded.1 review_kind)
      then err (
          message "unsupported group version kind: %v"
            (decoded.1.group ∷ decoded.1.version ∷ decoded.1.kind ∷ []))
      else elim decoded.0 [
        | review r ↦ ok r
        | other_type t ↦ err (message "expected v1.AdmissionReview but got: %T" (t ∷ []))
      ]

  abbrev pub answer_to : AdmissionReview → AdmissionRequest → Answer
  answer_to r q = record {
    type_meta = r.type_meta;
    uid = q.uid;
    response =
        admit server.decode_config server.decimal driver
          (admission_request server.scheme server.describe q.resource q.object);
  }

  -- admit reads the Request of the review, and panics where there is none.
  unfoldable pub reply_to : AdmissionReview → Reply
  reply_to r = elim r.request [
    | none ↦ panicked
    | some q ↦ or_error 500 (server.marshal (answer_to r q)) replied
  ]

  unfoldable pub serve : HttpRequest → Reply
  serve http = or_error 500 (read_body http.body) λ contents.
      if not (http.content_type == "application/json")
      then http_error 415
          (message "contentType=%s, expected application/json" (http.content_type ∷ []))
      else or_error 400
          (wrapping "failed to read AdmissionReview from request body" []
            (read_admission_review contents))
          reply_to
