-- ===== src/Command/Run/Sound.antt =====
-- What holds when RunPlugin and Action of cmd/kube-ovn-dra-kubeletplugin/main.go return.
use kube_ovn_dra_driver.Prelude.{
  Bool, true, false, String, Option, none, ◌≡◌, refl, sym, ap, inl, inr, arith, Error, Result, ok,
  err, Bool-cases,
}
use kube_ovn_dra_driver.Exec.{bind-eq-ok}
use kube_ovn_dra_driver.DeviceState.Host.{Settings, Host}
use kube_ovn_dra_driver.DeviceState.Start.{Setup, act}
use kube_ovn_dra_driver.Plugin.Lifecycle.{Services, Driver, shutdown}
use kube_ovn_dra_driver.Plugin.Probe.{Grpc}
use kube_ovn_dra_driver.Command.{Flags}
use kube_ovn_dra_driver.Command.Run.{
  Os, driver_plugin_path, root_found, prepare_cdi_root, driver_of, services_of, run_plugin,
}

-- A directory that os.MkdirAll made is there.
pub record IsOs {W : Type 0} (os : Os W) : Type 0 where
  pub stat-mkdir_all :
      (path : String) (w : W)
      → (os.mkdir_all path w).0 ≡ none
      → os.stat path (os.mkdir_all path w).1 ≡ ok true

act-eq-ok :
    {W : Type 0} (f : W → Option Error × W) (w w' : W)
    → act f w ≡ (ok tt, w')
    → ((f w).0 ≡ none) × ((f w).1 ≡ w')
unfolding act
act-eq-ok f w w' h = (ground (arith, h), ground (arith, h))

module _ {W : Type 0} (os : Os W) (laws : IsOs os) where
  prepare_cdi_root-eq-ok :
      (root : String) (w w' : W)
      → prepare_cdi_root os root w ≡ (ok tt, w')
      → os.stat root w' ≡ ok true
  unfolding prepare_cdi_root
  prepare_cdi_root-eq-ok root w w' h = go (os.stat root w) refl h
    where
      go :
          (r : Result Bool)
          → os.stat root w ≡ r
          → root_found os root r w ≡ (ok tt, w')
          → os.stat root w' ≡ ok true
      go (err e) k h = elim (Bool-cases (os.is_not_exist e)) [
        | inl t ↦
            let (made, there) = act-eq-ok (os.mkdir_all root) w w' (ground (arith, h, t)) in
            rw⁻¹ there (laws.stat-mkdir_all root w made)
        | inr f ↦ absurd (ground (arith, h, f))
      ]
      go (ok true) k h = rw⁻¹ (ap (λ (q : Result (Unit {0}) × W). q.1) h) k
      go (ok false) k h = cc h

module _ {W : Type 0} (os : Os W) (laws : IsOs os) (g : Grpc W) (services : Services W)
    (s : Settings) (host : Host W) (setup : Setup W) (until_done : Driver W → Driver W) where
  -- A plugin that exits without an error had the directory of its CDI specs, made a driver, and shut
  -- that down behind what it did until its context was done.
  pub run_plugin_shuts_down :
      (f : Flags) (w w' : W)
      → run_plugin os g services s host setup until_done f w ≡ (ok tt, w')
      → (d : Driver W) × (v : W) × (u : W) × (os.stat f.cdi_root v ≡ ok true)
        × (driver_of os g services s host setup until_done f v ≡ (ok d, u))
        × (w' ≡ shutdown (services_of os g services s host setup until_done f) (until_done d))
  unfolding run_plugin
  run_plugin_shuts_down f w w' h =
      let (a, v₁, e₁, h₁) = bind-eq-ok (act (os.mkdir_all (driver_plugin_path os f))) _ w w' tt h in
      let (b, v, e₂, h₂) = bind-eq-ok (prepare_cdi_root os f.cdi_root) _ v₁ w' tt h₁ in
      let (d, u, e₃, h₃) =
        bind-eq-ok (driver_of os g services s host setup until_done f) _ v w' tt h₂ in
      (
        d,
        v,
        u,
        prepare_cdi_root-eq-ok os laws f.cdi_root v₁ v e₂,
        e₃,
        sym (ap (λ (q : Result (Unit {0}) × W). q.1) h₃),
      )
