-- ===== src/Webhook/App.antt =====
-- newApp, newMux and readyHandler of cmd/kube-ovn-dra-webhook/main.go. net/http is a parameter.
use kube_ovn_dra_driver.Prelude.{
  ℕ, true, false, String, ◌==◌, ◌<>◌, Option, none, some, List, [], ◌∷◌, Error, message, wrap,
  Result, ok, err, if◌then◌else◌,
}
use kube_ovn_dra_driver.Exec.{Exec, fail, lift, wrapping, ◌>>=◌}
use kube_ovn_dra_driver.DeviceState.Start.{act}
use kube_ovn_dra_driver.Command.{Flag, Values, optional}
use kube_ovn_dra_driver.Webhook.Serve.{HttpRequest, Reply, Server, serve, http_error, replied}

pub record WebhookFlags : Type 0 where
  pub cert_file : String
  pub key_file : String
  pub port : ℕ
  pub profile : String
  pub driver_name : String

-- A flag that must be given and that no variable of the environment stands for.
abbrev given : String → Flag String
given name = record { name = name; value = none; required = true; env = [] }

-- The flags of newApp, each with its destination.
unfoldable pub webhook_flags : Values → WebhookFlags
webhook_flags v = record {
  cert_file = v.text (given "tls-cert-file");
  key_file = v.text (given "tls-private-key-file");
  port = v.int (record { name = "port"; value = some 443; required = false; env = [] });
  profile = v.text (optional "device-profile" (some "nic") "DEVICE_PROFILE");
  driver_name = v.text (optional "driver-name" none "DRIVER_NAME");
}

-- The handlers that newMux registers, by their paths; serveResourceClaim is given the driver name.
pub data Route : Type 0 where
  resource_claims : (driver_name : String) → Route
  ready : Route

unfoldable pub new_mux : (add_to_scheme : Option Error) → String → Result (List (String × Route))
new_mux (some e) driver_name = err (wrap "create config scheme" [] e)
new_mux none driver_name =
    ok (
      ("/validate-resource-claim-parameters", resource_claims driver_name)
      ∷ ("/readyz", ready)
      ∷ [])

-- readyHandler, with what writing "ok" returns.
unfoldable pub ready_handler : Option Error → Reply
ready_handler none = replied "ok"
ready_handler (some e) = http_error 500 e

-- What a handler does with a request.
unfoldable pub handled :
    {Object : Type 0} → Server Object → Option Error → Route → HttpRequest → Reply
unfolding ready_handler
handled server write (resource_claims driver_name) request = serve server driver_name request
handled server write ready request = ready_handler write

-- Before and Action.
module _ {W : Type 0} (apply_logging : W → Option Error × W) (add_to_scheme : Option Error)
    (listen_and_serve : List (String × Route)
      → (port : ℕ) → (cert key : String) → W
      → Option Error × W) where
  unfoldable pub webhook_before : List String → Exec W (Unit {0})
  webhook_before [] = act apply_logging
  webhook_before (arg ∷ args) = fail (message "arguments not supported: %v" (arg ∷ args))

  abbrev driver_name_of : WebhookFlags → String
  driver_name_of f = if f.driver_name == "" then f.profile <> ".kubeovn.io" else f.driver_name

  unfoldable pub webhook_action : WebhookFlags → Exec W (Unit {0})
  unfolding new_mux
  webhook_action f =
      if f.profile == "nic"
      then (do
        mux ← wrapping "create HTTP mux" [] (lift (new_mux add_to_scheme (driver_name_of f)))
        act (listen_and_serve mux f.port f.cert_file f.key_file))
      else fail
          (message "invalid device profile %q, valid profiles are %q" (f.profile ∷ "nic" ∷ []))
