-- ===== src/Config.antt =====
-- GetOpaqueDeviceConfigs, configMatchesRequest and resultsByConfig of
-- cmd/kube-ovn-dra-kubeletplugin/state.go: which configuration applies to which allocation result.
pub mod Precedence
use kube_ovn_dra_driver.Prelude.{
  ℕ, suc, String, ◌==◌, Bool, not, ◌||◌, Option, none, some, List, [], ◌∷◌, ◌++◌, Error, message,
  Result, ok, err, ◌>>=◌, wrapping, if◌then◌else◌, nat_eq, is_empty, contains,
}
use kube_ovn_dra_driver.Claim.{
  DeviceResult, ConfigSource, from_class, from_claim, invalid_source, OpaqueConfig,
  AllocationConfig, ConfigObject,
}

-- Config is nil for the default.
pub record OpaqueDeviceConfig : Type 0 where
  pub requests : List String
  pub config : Option ConfigObject

-- The configs of classes and of claims, each in the order given.
pub record BySource : Type 0 where
  pub class_configs : List AllocationConfig
  pub claim_configs : List AllocationConfig

unfoldable pub split_sources : List AllocationConfig → BySource → Result BySource
split_sources [] acc = ok acc
split_sources (c ∷ cs) acc = elim c.source [
  | from_class ↦ split_sources cs (record acc { class_configs = acc.class_configs ++ c ∷ [] })
  | from_claim ↦ split_sources cs (record acc { claim_configs = acc.claim_configs ++ c ∷ [] })
  | invalid_source s ↦ err (message "invalid config source: %v" (s ∷ []))
]

module _ (decode : String → Result ConfigObject) (driver : String) where
  unfoldable pub decode_configs : List AllocationConfig → Result (List OpaqueDeviceConfig)
  decode_configs [] = ok []
  decode_configs (c ∷ cs) =
      let rest = decode_configs cs in
      elim c.opaque [
        | none ↦ err (message "only opaque parameters are supported by this driver" [])
        | some o ↦
            if not (o.driver == driver)
            then rest
            else (wrapping "error decoding config parameters" [] (decode o.raw) >>= λ object.
                rest >>= λ configs.
                ok (record { requests = c.requests; config = some object } ∷ configs))
      ]

  unfoldable pub get_opaque_device_configs :
      List AllocationConfig → Result (List OpaqueDeviceConfig)
  unfolding split_sources decode_configs
  get_opaque_device_configs possible =
      split_sources possible (record { class_configs = []; claim_configs = [] }) >>= λ by.
      decode_configs (by.class_configs ++ by.claim_configs)

-- `base` is resourceclaim.BaseRequestRef: the request of a subrequest.
unfoldable pub config_matches_request : (String → String) → List String → String → Bool
config_matches_request base requests request =
    is_empty requests || (contains requests request || contains requests (base request))

-- A config has the identity of its object: the position of the config in the list.
abbrev pub number {ℓ} : {A : Type ℓ} → ℕ → List A → List (ℕ × A)
number n [] = []
number n (x ∷ xs) = (n, x) ∷ number (suc n) xs

-- `for _, c := range slices.Backward(configs)` with its break: the last match.
unfoldable pub last_match :
    (String → String) → String → List (ℕ × OpaqueDeviceConfig) → Option (ℕ × OpaqueDeviceConfig)
last_match base request [] = none
last_match base request ((n, c) ∷ cs) =
    let later = last_match base request cs in
    elim later [
      | some m ↦ some m
      | none ↦ if config_matches_request base c.requests request then some (n, c) else none
    ]

-- An entry of configResultsMap.
pub record Group : Type 0 where
  pub key : ℕ
  pub config : Option ConfigObject
  pub results : List DeviceResult

-- configResultsMap[c.Config] = append(configResultsMap[c.Config], result)
unfoldable pub add_result : ℕ → Option ConfigObject → DeviceResult → List Group → List Group
add_result k config r [] = record { key = k; config = config; results = r ∷ [] } ∷ []
add_result k config r (g ∷ gs) =
    if nat_eq g.key k
    then record g { results = g.results ++ r ∷ [] } ∷ gs
    else g ∷ add_result k config r gs

-- One round of the loop over the results, for a result of the driver that is allocatable.
unfoldable pub group_result :
    (String → String) → List OpaqueDeviceConfig → DeviceResult → List Group → List Group
unfolding last_match add_result
group_result base configs r groups = elim (last_match base r.request (number 0 configs)) [
  | none ↦ groups
  | some (n, c) ↦ add_result n c.config r groups
]
