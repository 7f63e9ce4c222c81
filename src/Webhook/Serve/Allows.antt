-- ===== src/Webhook/Serve/Allows.antt =====
-- Which requests serve of cmd/kube-ovn-dra-webhook/main.go answers with a review that allows.
use kube_ovn_dra_driver.Prelude.{
  ℕ, Bool, true, false, String, ◌==◌, Option, some, List, [], ◌≡◌, ◌↔◌, ◌⊎◌, refl, sym, ◌∙◌, inl,
  inr, arith, Result, ok, err, wrapping, wrapping-eq-ok, Bool-cases, Result-cases, Option-cases,
  All, eq_iff,
}
use kube_ovn_dra_driver.Claim.{OpaqueConfig}
use kube_ovn_dra_driver.Webhook.{
  Request, Response, claim, template, other, allowed, bad_request, invalid, admit, IsFine,
  admit_iff,
}
use kube_ovn_dra_driver.Webhook.Extract.{HasConfigs, admission_request-HasConfigs}
use kube_ovn_dra_driver.Webhook.Serve.{
  review_kind, AdmissionRequest, AdmissionReview, Answer, review, other_type, Server, HttpRequest,
  Reply, replied, same_kind, same_kind_sound, read_body, or_error, read_admission_review, answer_to,
  reply_to, serve,
}

-- The field `allowed` of the response.
abbrev pub is_allowed : Response → Bool
is_allowed allowed = true
is_allowed (bad_request e) = false
is_allowed (invalid es) = false

is_allowed_sound : (r : Response) → is_allowed r ≡ true → r ≡ allowed
is_allowed_sound allowed h = refl
is_allowed_sound (bad_request e) h = cc h
is_allowed_sound (invalid es) h = cc h

or_error-replied {ℓ} :
    {A : Type ℓ} (status : ℕ) (m : Result A) (rest : A → Reply) {bytes : String}
    → or_error status m rest ≡ replied bytes
    → (a : A) × (m ≡ ok a) × (rest a ≡ replied bytes)
or_error-replied status (ok a) rest h = (a, refl, h)
or_error-replied status (err e) rest h = cc h

module _ {ℓ} {Object : Type ℓ} (server : Server Object) (driver : String) where
  -- A JSON body that decodes to a review of v1, whose object is a claim or a template of a known
  -- version, each of whose configs for the driver is valid.
  pub record IsAdmitted (http : HttpRequest) (bytes : String) : Type ℓ where
    pub contents : String
    pub asked : AdmissionReview
    pub request : AdmissionRequest
    pub configs : List (Option OpaqueConfig)
    pub body_read : read_body http.body ≡ ok contents
    pub is_json : http.content_type ≡ "application/json"
    pub decoded : server.decode_review contents ≡ ok (review asked, review_kind)
    pub requested : asked.request ≡ some request
    pub has_configs :
        HasConfigs server.scheme server.describe request.resource request.object configs
    pub fine : All (IsFine server.decode_config server.decimal driver) configs
    pub marshalled :
        server.marshal
          (record { type_meta = asked.type_meta; uid = request.uid; response = allowed })
        ≡ ok bytes

  read_sound :
      (contents : String) {r : AdmissionReview}
      → read_admission_review server driver contents ≡ ok r
      → server.decode_review contents ≡ ok (review r, review_kind)
  unfolding read_admission_review
  read_sound contents {r} h = elim (Result-cases (server.decode_review contents)) [
    | inr (x, e) ↦ absurd (ground (arith, h, e))
    | inl ((other_type t, k), e) ↦ elim (Bool-cases (same_kind k review_kind)) [
      | inl y ↦ absurd (ground (arith, h, e, y))
      | inr f ↦ absurd (ground (arith, h, e, f))
    ]
    | inl ((review r', k), e) ↦ elim (Bool-cases (same_kind k review_kind)) [
      | inl y ↦
          (let it : r' ≡ r = ground (arith, h, e, y) in cc (e, it, same_kind_sound k review_kind y))
      | inr f ↦ absurd (ground (arith, h, e, f))
    ]
  ]

  read_complete :
      (contents : String) {r : AdmissionReview}
      → server.decode_review contents ≡ ok (review r, review_kind)
      → read_admission_review server driver contents ≡ ok r
  unfolding read_admission_review
  read_complete contents d = rw d refl

  reply_to-replied :
      (r : AdmissionReview) {bytes : String}
      → reply_to server driver r ≡ replied bytes
      → (q : AdmissionRequest) × (r.request ≡ some q)
        × (server.marshal (answer_to server driver r q) ≡ ok bytes)
  unfolding reply_to
  reply_to-replied r {bytes} h = elim (Option-cases r.request) [
    | inl e ↦ absurd (ground (arith, h, e))
    | inr (q, e) ↦
        (let sent : or_error 500 (server.marshal (answer_to server driver r q)) replied
              ≡ replied bytes =
            ground (arith, h, e) in
          let (b, m, same) =
            or_error-replied 500 (server.marshal (answer_to server driver r q)) replied sent in
          (q, e, cc (m, same)))
  ]

  serve-replied :
      (http : HttpRequest) {bytes : String}
      → serve server driver http ≡ replied bytes
      → (contents : String) × (r : AdmissionReview) × (read_body http.body ≡ ok contents)
        × (http.content_type ≡ "application/json")
        × (read_admission_review server driver contents ≡ ok r)
        × (reply_to server driver r ≡ replied bytes)
  unfolding serve
  serve-replied http {bytes} h =
      let (contents, b, rest) = or_error-replied 500 (read_body http.body) _ h in
      elim (Bool-cases (http.content_type == "application/json")) [
        | inr f ↦ absurd (ground (arith, rest, f))
        | inl e ↦
            (let (r, m, more) =
                or_error-replied 400
                  (wrapping "failed to read AdmissionReview from request body" []
                    (read_admission_review server driver contents))
                  (reply_to server driver) (ground (arith, rest, e)) in
              (
                contents,
                r,
                b,
                (eq_iff http.content_type "application/json").0 e,
                wrapping-eq-ok "failed to read AdmissionReview from request body" []
                    (read_admission_review server driver contents) m,
                more,
              ))
      ]

  admit-allowed :
      (q : Request)
      → admit server.decode_config server.decimal driver q ≡ allowed
      → (configs : List (Option OpaqueConfig)) × ((q ≡ claim (ok configs))
          ⊎ (q ≡ template (ok configs)))
        × All (IsFine server.decode_config server.decimal driver) configs
  unfolding admit
  admit-allowed (other r) h = cc h
  admit-allowed (claim (err e)) h = cc h
  admit-allowed (template (err e)) h = cc h
  admit-allowed (claim (ok configs)) h =
      (configs, inl refl, (admit_iff server.decode_config server.decimal driver configs).0.0 h)
  admit-allowed (template (ok configs)) h =
      (configs, inr refl, (admit_iff server.decode_config server.decimal driver configs).1.0 h)

  answered_allowed :
      (q : Request) (configs : List (Option OpaqueConfig))
      → (q ≡ claim (ok configs)) ⊎ (q ≡ template (ok configs))
      → All (IsFine server.decode_config server.decimal driver) configs
      → admit server.decode_config server.decimal driver q ≡ allowed
  answered_allowed q configs (inl e) fine =
      rw e ((admit_iff server.decode_config server.decimal driver configs).0.1 fine)
  answered_allowed q configs (inr e) fine =
      rw e ((admit_iff server.decode_config server.decimal driver configs).1.1 fine)

  serve-IsAdmitted :
      (http : HttpRequest) (bytes : String)
      → IsAdmitted http bytes
      → serve server driver http ≡ replied bytes
  unfolding serve reply_to
  serve-IsAdmitted http bytes x =
      let found =
        (admission_request-HasConfigs server.scheme server.describe x.request.resource
            x.request.object x.configs).1
          x.has_configs in
      let yes = answered_allowed _ x.configs found x.fine in
      let read = read_complete x.contents x.decoded in
      rw x.body_read (rw x.is_json (rw read (rw x.requested (rw yes (rw x.marshalled refl)))))

  -- The client gets a review that it reads as one that allows.
  module _ (reads_allowed : String → Bool) where
    abbrev pub IsToldAllowed : HttpRequest → String → Type 0
    IsToldAllowed http bytes =
        (serve server driver http ≡ replied bytes) × (reads_allowed bytes ≡ true)

  told_allowed-IsAdmitted :
      (reads_allowed : String → Bool)
      → ((a : Answer) (bytes : String)
          → server.marshal a ≡ ok bytes
          → reads_allowed bytes ≡ is_allowed a.response)
      → (http : HttpRequest) (bytes : String) → IsToldAllowed reads_allowed http bytes
      → IsAdmitted http bytes
  told_allowed-IsAdmitted reads_allowed read_back http bytes (h, told) =
      let (contents, r, b, j, known, sent) = serve-replied http h in
      let (q, rq, m) = reply_to-replied r sent in
      let yes =
        is_allowed_sound (answer_to server driver r q).response
          (sym (read_back (answer_to server driver r q) bytes m) ∙ told) in
      let (configs, shape, fine) = admit-allowed _ yes in
      record {
        contents = contents;
        asked = r;
        request = q;
        configs = configs;
        body_read = b;
        is_json = j;
        decoded = read_sound contents known;
        requested = rq;
        has_configs =
            (admission_request-HasConfigs server.scheme server.describe q.resource q.object
                configs).0
              shape;
        fine = fine;
        marshalled = cc (m, yes);
      }

  -- Where a client reads from a marshalled review whether it allows, serve replies with a review that
  -- the client reads as allowing exactly when the body is JSON of a v1 review with a request, its object
  -- decodes and converts to a claim or a template of one of the three versions, each config for the
  -- driver decodes to a valid object, and the review with the UID of the request marshals.
  pub serve_allows_iff :
      (reads_allowed : String → Bool)
      → ((a : Answer) (bytes : String)
          → server.marshal a ≡ ok bytes
          → reads_allowed bytes ≡ is_allowed a.response)
      → (http : HttpRequest) (bytes : String)
      → IsToldAllowed reads_allowed http bytes ↔ IsAdmitted http bytes
  serve_allows_iff reads_allowed read_back http bytes = (
    told_allowed-IsAdmitted reads_allowed read_back http bytes,
    (λ x. (serve-IsAdmitted http bytes x, read_back _ bytes x.marshalled)),
  )
