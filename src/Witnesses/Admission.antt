-- ===== src/Witnesses/Admission.antt =====
-- The property of the webhook's handler at a concrete request.
use kube_ovn_dra_driver.Prelude.{String, ◌==◌, some, [], ◌∷◌, ◌≡◌, ◌↔◌, refl, ok}
use kube_ovn_dra_driver.Webhook.{Response, allowed, bad_request, invalid}
use kube_ovn_dra_driver.Webhook.Extract.{claim_v1beta1, resource_of}
use kube_ovn_dra_driver.Webhook.Serve.{review_kind, review, HttpRequest, Server}
use kube_ovn_dra_driver.Webhook.Serve.Allows.{
  is_allowed, IsAdmitted, IsToldAllowed, serve_allows_iff,
}
use kube_ovn_dra_driver.Witnesses.Data.{decode}

abbrev verdict : Response → String
verdict allowed = "allowed"
verdict (bad_request e) = "denied"
verdict (invalid es) = "denied"

-- Objects are texts, of one config each, and a review is the UID of its request.
abbrev admission_server : Server String
admission_server = record {
  scheme = record {
    decode_into = λ kind raw. ok raw;
    convert = λ raw. ok (some (record { driver = "nic.kubeovn.io"; raw = raw }) ∷ []);
  };
  describe = λ r. r.resource;
  decode_config = decode;
  decimal = λ n. "0";
  decode_review = λ contents. ok (
    review (record {
      type_meta = review_kind;
      request =
          some (record { uid = contents; resource = resource_of claim_v1beta1; object = "net1" });
    }),
    review_kind,
  );
  marshal = λ answer. ok (verdict answer.response);
}

abbrev create_claim : HttpRequest
create_claim = record { body = some (ok "u1"); content_type = "application/json" }

verdict_read : (r : Response) → (verdict r == "allowed") ≡ is_allowed r
verdict_read allowed = refl
verdict_read (bad_request e) = refl
verdict_read (invalid es) = refl

serve_allows_iff_example :
    IsToldAllowed admission_server "nic.kubeovn.io"
      (λ text. text == "allowed")
      create_claim
      "allowed"
    ↔ IsAdmitted admission_server "nic.kubeovn.io" create_claim "allowed"
serve_allows_iff_example =
    serve_allows_iff admission_server "nic.kubeovn.io" (λ text. text == "allowed")
      (λ a bytes e. cc (e, verdict_read a.response)) create_claim "allowed"
