-- ===== src/Plugin/Lifecycle.antt =====
-- NewDriver, Shutdown and HandleError of cmd/kube-ovn-dra-kubeletplugin/driver.go. The helper of the
-- kubelet plugin, the health service, the informers and the NRI stub are a record of calls.
pub mod Started
pub mod NodeMode
pub mod FailedRefresh
use kube_ovn_dra_driver.Prelude.{
  Bool, true, false, not, ◌&&◌, String, Option, none, some, List, [], ◌∷◌, ◌++◌, empty_map, Error,
  wrap, Result, ok, err, if◌then◌else◌,
}
use kube_ovn_dra_driver.Exec.{Exec, pure, wrapping, ◌>>=◌, ◌>>◌}
use kube_ovn_dra_driver.Store.{NicStore}
use kube_ovn_dra_driver.DeviceState.Host.{Resources, Settings, Host, State}
use kube_ovn_dra_driver.DeviceState.Actions.{refresh_devices}
use kube_ovn_dra_driver.DeviceState.Devices.{call}
use kube_ovn_dra_driver.DeviceState.Start.{Setup, new_device_state}
use kube_ovn_dra_driver.Plugin.Refresh.{Refresher}

-- --publish-mode
pub data PublishMode : Type 0 where
  node central : PublishMode

pub record Services (W : Type 0) : Type 0 where
  -- kubeletplugin.Start
  pub start_helper : W → Option Error × W
  -- startHealthcheck, and whether it started a service
  pub start_healthcheck : W → Result Bool × W
  -- helper.PublishResources
  pub publish_resources : Resources → W → Option Error × W
  pub watch_devices : W → Option Error × W
  -- startNRIPlugin
  pub start_nri : W → Option Error × W
  -- nri.stop, healthcheck.Stop and helper.Stop
  pub stop_nri : W → W
  pub stop_healthcheck : W → W
  pub stop_helper : W → W

-- `nri` and `healthcheck` are whether the pointers are not nil, and `nri_backs_ready` is whether the
-- readiness of the health service is that of NRI.
pub record Driver (W : Type 0) : Type 0 where
  pub state : State W
  pub healthcheck : Bool
  pub nri : Bool
  pub nri_backs_ready : Bool

-- The first publication: what the node has, or nothing.
abbrev pub first_published : PublishMode → Resources → Resources
first_published node r = r
first_published central r = empty_map

abbrev stop_if : {W : Type 0} → Bool → (W → W) → W → W
stop_if b f w = if b then f w else w

module _ {W : Type 0} (services : Services W) where
  -- The function `publish` that the refreshes are given.
  abbrev pub publish_refreshed : PublishMode → Resources → W → Option Error × W
  publish_refreshed node r w = services.publish_resources r w
  publish_refreshed central r w = (none, w)

  unfoldable pub shutdown : Driver W → W
  shutdown d = services.stop_helper (
      stop_if d.healthcheck services.stop_healthcheck
        (stop_if d.nri services.stop_nri d.state.world))

module _ {W : Type 0} (services : Services W) (mode : PublishMode) where
  module _ (s : Settings) (host : Host W) where
    abbrev call_result : {A : Type 0} → (W → Result A × W) → Exec (State W) A
    call_result f st = let (r, w) = f st.world in (r, record st { world = w })

    -- NewDriver behind NewDeviceState; it returns whether there is a health service.
    unfoldable pub start_services : Exec (State W) Bool
    start_services st =
        (do
          call services.start_helper
          healthcheck ← wrapping "start healthcheck" [] (call_result services.start_healthcheck)
          call (services.publish_resources (first_published mode st.driver_resources))
          wrapping "watch devices" [] (call services.watch_devices)
          wrapping "start NRI plugin" [] (call services.start_nri)
          pure healthcheck)
          st

    abbrev pub wired : Result Bool × State W → Result (Driver W) × W
    wired (err e, st) = (err e, st.world)
    wired (ok h, st) =
        (ok (record { state = st; healthcheck = h; nri = true; nri_backs_ready = h }), st.world)

    abbrev pub with_services : Result (State W) × W → Result (Driver W) × W
    with_services (err e, w) = (err e, w)
    with_services (ok st, w) = wired (start_services st)

    unfoldable pub new_driver : Setup W → Option NicStore → W → Result (Driver W) × W
    unfolding start_services
    new_driver setup store w = with_services (new_device_state setup s host store w)

    -- What NewDriver gives to refreshDevicesLoop.
    unfoldable pub refreshed : Refresher (State W) Resources
    refreshed = record {
      refresh = refresh_devices s host;
      publish = λ r st.
          let (e, w) = publish_refreshed services mode r st.world in (e, record st { world = w });
    }

-- HandleError: the cause with which the main context is cancelled, if it is.
unfoldable pub handle_error : (Error → Bool) → Bool → Error → Option Error
handle_error is_recoverable has_cancel e =
    if not (is_recoverable e) && has_cancel then some (wrap "fatal background error" [] e) else none
