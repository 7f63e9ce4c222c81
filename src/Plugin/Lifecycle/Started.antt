-- ===== src/Plugin/Lifecycle/Started.antt =====
-- What has been published when NewDriver of cmd/kube-ovn-dra-kubeletplugin/driver.go returns.
use kube_ovn_dra_driver.Prelude.{
  String, Bool, Option, none, [], ◌≡◌, sym, ap, ◌∙◌, inl, inr, arith, Error, Result, ok, err,
  Option-cases, Result-cases,
}
use kube_ovn_dra_driver.Exec.{Exec, wrapping, ◌>>=◌, ◌>>◌}
use kube_ovn_dra_driver.Store.{NicStore}
use kube_ovn_dra_driver.DeviceState.Host.{Resources, Settings, Host, State}
use kube_ovn_dra_driver.DeviceState.Devices.{call}
use kube_ovn_dra_driver.DeviceState.Start.{Setup, new_device_state}
use kube_ovn_dra_driver.Plugin.Lifecycle.{
  PublishMode, Services, Driver, first_published, call_result, start_services, wired, with_services,
  new_driver,
}

-- PublishResources tells the API server what it was given (`published`), and neither the informers
-- nor the NRI stub publish.
pub record IsServices {W : Type 0} (services : Services W) (published : W → Resources)
    : Type 0 where
  pub published-publish :
      (r : Resources) (w : W)
      → (services.publish_resources r w).0 ≡ none
      → published (services.publish_resources r w).1 ≡ r
  pub published-watch : (w : W) → published (services.watch_devices w).1 ≡ published w
  pub published-start_nri : (w : W) → published (services.start_nri w).1 ≡ published w

module _ {W : Type 0} (services : Services W) (mode : PublishMode) (s : Settings)
    (host : Host W) where
  -- A call that succeeds changes the world, and the rest goes on.
  call_then :
      {A : Type 0} (f : W → Option Error × W) (m : Exec (State W) A) (st st' : State W) (a : A)
      → (call f >> m) st ≡ (ok a, st')
      → ((f st.world).0 ≡ none) × (m (record st { world = (f st.world).1 }) ≡ (ok a, st'))
  call_then f m st st' a h = elim (Option-cases (f st.world).0) [
    | inl e ↦ (e, ground (arith, h, e))
    | inr (x, e) ↦ absurd (ground (arith, h, e))
  ]

  wrapped_then :
      {A : Type 0} (text : String) (f : W → Option Error × W) (m : Exec (State W) A)
      (st st' : State W) (a : A)
      → (wrapping text [] (call f) >> m) st ≡ (ok a, st')
      → m (record st { world = (f st.world).1 }) ≡ (ok a, st')
  wrapped_then text f m st st' a h = elim (Option-cases (f st.world).0) [
    | inl e ↦ ground (arith, h, e)
    | inr (x, e) ↦ absurd (ground (arith, h, e))
  ]

  result_then :
      {A B : Type 0} (text : String) (f : W → Result B × W) (m : B → Exec (State W) A)
      (st st' : State W) (a : A)
      → (wrapping text [] (call_result services mode s host f) >>= m) st ≡ (ok a, st')
      → (b : B) × (m b (record st { world = (f st.world).1 }) ≡ (ok a, st'))
  result_then text f m st st' a h = elim (Result-cases (f st.world).0) [
    | inl (b, e) ↦ (b, ground (arith, h, e))
    | inr (x, e) ↦ absurd (ground (arith, h, e))
  ]

  wired-eq-ok :
      (r : Result Bool × State W) (d : Driver W) (w : W)
      → wired services mode s host r ≡ (ok d, w)
      → (health : Bool) × (r ≡ (ok health, d.state))
  wired-eq-ok (ok health, st) d w h =
      let same : st ≡ d.state = ground (arith, h) in (health, ap (λ q. (ok health, q)) same)
  wired-eq-ok (err e, st) d w h = cc h

  with_services-eq-ok :
      (r : Result (State W) × W) (d : Driver W) (w : W)
      → with_services services mode s host r ≡ (ok d, w)
      → (st : State W) × (health : Bool) × (start_services services mode s host st
          ≡ (ok health, d.state))
  with_services-eq-ok (ok st, v) d w h =
      let (health, e) = wired-eq-ok (start_services services mode s host st) d w h in
      (st, health, e)
  with_services-eq-ok (err e, v) d w h = cc h

  module _ (published : W → Resources) (laws : IsServices services published) where
    start_services-published :
        (st st' : State W) (health : Bool)
        → start_services services mode s host st ≡ (ok health, st')
        → (st'.driver_resources ≡ st.driver_resources)
          × (published st'.world ≡ first_published mode st.driver_resources)
    unfolding start_services
    start_services-published st st' health h =
        let r = first_published mode st.driver_resources in
        let w₁ = (services.start_helper st.world).1 in
        let w₂ = (services.start_healthcheck w₁).1 in
        let w₃ = (services.publish_resources r w₂).1 in
        let w₄ = (services.watch_devices w₃).1 in
        let (a, h₁) = call_then services.start_helper _ st st' health h in
        let (b, h₂) =
          result_then "start healthcheck" services.start_healthcheck _ (record st { world = w₁ })
            st' health h₁ in
        let (c, h₃) =
          call_then (services.publish_resources r) _ (record st { world = w₂ }) st' health h₂ in
        let h₄ =
          wrapped_then "watch devices" services.watch_devices _ (record st { world = w₃ }) st'
            health h₃ in
        let h₅ =
          wrapped_then "start NRI plugin" services.start_nri _ (record st { world = w₄ }) st' health
            h₄ in
        (
          ap (λ (q : Result Bool × State W). q.1.driver_resources) (sym h₅),
          ap (λ (q : Result Bool × State W). published q.1.world) (sym h₅)
              ∙ laws.published-start_nri w₄
              ∙ laws.published-watch w₃
              ∙ laws.published-publish r w₂ c,
        )

    -- NewDriver that succeeds has published, in node mode, the devices that its state has, and in
    -- central mode nothing.
    pub new_driver_publishes :
        (setup : Setup W) (store : Option NicStore) (w w' : W) (d : Driver W)
        → new_driver services mode s host setup store w ≡ (ok d, w')
        → published d.state.world ≡ first_published mode d.state.driver_resources
    unfolding new_driver
    new_driver_publishes setup store w w' d h =
        let (st, health, e) = with_services-eq-ok (new_device_state setup s host store w) d w' h in
        let (same, p) = start_services-published st d.state health e in rw same p
