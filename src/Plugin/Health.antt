-- ===== src/Plugin/Health.antt =====
-- Check of cmd/kube-ovn-dra-kubeletplugin/health.go. The two gRPC clients are a record.
use kube_ovn_dra_driver.Prelude.{
  Bool, true, false, not, ◌&&◌, ◌||◌, String, ◌==◌, Option, none, some, [], ◌≡◌, ◌≢◌, ◌↔◌, ◌⊎◌,
  refl, arith, Error, message, Result, ok, err, if◌then◌else◌, eq_iff,
}

-- GetInfo of the registration, and NodePrepareResources without claims.
pub record Clients {ℓ} (W : Type ℓ) : Type ℓ where
  pub get_info : W → Option Error × W
  pub node_prepare_resources : W → Option Error × W

pub data Status : Type 0 where
  serving not_serving : Status

-- The keys of knownServices.
abbrev pub is_known : String → Bool
is_known service = (service == "") || ((service == "liveness") || (service == "readiness"))

-- h.ready != nil && !h.ready(), where `ready` is what the function returns.
abbrev pub is_unready : Option Bool → Bool
is_unready none = false
is_unready (some r) = not r

unready_if :
    (b : Bool) (o : Option Bool) → (b ≡ true → o ≢ some false) → (b && is_unready o) ≡ false
unready_if false o h = refl
unready_if true none h = refl
unready_if true (some true) h = refl
unready_if true (some false) h = absurd (h refl refl)

module _ {ℓ} {W : Type ℓ} (clients : Clients W) (ready : Option Bool) where
  answer_ready : String → W → Result Status × W
  answer_ready service w =
      if (service == "readiness") && is_unready ready then (ok not_serving, w) else (ok serving, w)

  answer_prepared : String → Option Error × W → Result Status × W
  answer_prepared service (some e, w) = (ok not_serving, w)
  answer_prepared service (none, w) = answer_ready service w

  answer_known : String → Option Error × W → Result Status × W
  answer_known service (some e, w) = (ok not_serving, w)
  answer_known service (none, w) = answer_prepared service (clients.node_prepare_resources w)

  unfoldable pub check : String → W → Result Status × W
  unfolding answer_ready answer_prepared answer_known
  check service w =
      if not (is_known service)
      then (err (message "unknown service" []), w)
      else answer_known service (clients.get_info w)

  abbrev IsServed : String → W → Type 0
  IsServed service w =
      ((service ≡ "") ⊎ (service ≡ "liveness") ⊎ (service ≡ "readiness"))
      × ((clients.get_info w).0 ≡ none)
      × ((clients.node_prepare_resources (clients.get_info w).1).0 ≡ none)
      × (service ≡ "readiness" → ready ≢ some false)

  check-IsServed :
      (service : String) (w : W) → (check service w).0 ≡ ok serving → IsServed service w
  unfolding check
  check-IsServed service w h =
      let empty = eq_iff service "" in
      let live = eq_iff service "liveness" in
      let able = eq_iff service "readiness" in
      (
        ground (arith, h, empty, live, able),
        ground (arith, h),
        ground (arith, h),
        λ e r. ground (arith, h, able, e, r),
      )

  IsServed-check :
      (service : String) (w : W) → IsServed service w → (check service w).0 ≡ ok serving
  unfolding check
  IsServed-check service w (k, g, p, r) =
      let empty = eq_iff service "" in
      let live = eq_iff service "liveness" in
      let able = eq_iff service "readiness" in
      let quiet = unready_if (service == "readiness") ready (λ e. r (able.0 e)) in
      ground (arith, k, g, p, empty, live, able, quiet)

  -- The plugin calls a service serving exactly when it knows it, both of its own endpoints answer
  -- without an error, and, for the readiness, NRI is connected where the plugin uses it.
  pub check_iff :
      (service : String) (w : W)
      → ((check service w).0 ≡ ok serving) ↔ (
          ((service ≡ "") ⊎ (service ≡ "liveness") ⊎ (service ≡ "readiness"))
          × ((clients.get_info w).0 ≡ none)
          × ((clients.node_prepare_resources (clients.get_info w).1).0 ≡ none)
          × (service ≡ "readiness" → ready ≢ some false))
  check_iff service w = (check-IsServed service w, IsServed-check service w)
