-- ===== src/DeviceState/Start.antt =====
-- NewDeviceState of cmd/kube-ovn-dra-kubeletplugin/state.go, with NewCDIHandler and
-- CreateCommonSpecFile of cdi.go: what a plugin does before it serves claims.
pub mod Opened
pub mod Lifetime
use kube_ovn_dra_driver.Prelude.{
  String, ◌==◌, Option, none, some, List, [], ◌∷◌, Error, Result, ok, err, if◌then◌else◌,
  wrapping as wrap_error,
}
use kube_ovn_dra_driver.Exec
use kube_ovn_dra_driver.Exec.{Exec}
use kube_ovn_dra_driver.Exec.Sealed.{pure, lift, wrapping, ◌>>=◌, ◌>>◌}
use kube_ovn_dra_driver.Store.{NicStore}
use kube_ovn_dra_driver.Cdi.{CdiSpec, named_common_spec}
use kube_ovn_dra_driver.DeviceState.Host.{Resources, Settings, Host, State, allocatable_devices}
use kube_ovn_dra_driver.DeviceState.Actions.{restore_nics}
use kube_ovn_dra_driver.DeviceState.Devices.{call}

abbrev pub checkpoint_file : String
checkpoint_file = "checkpoint.json"

-- cdiapi.NewCache, os.Getenv("NODE_NAME"), NewCheckpointManager, AddToScheme and ListCheckpoints.
pub record Setup (W : Type 0) : Type 0 where
  pub new_cache : W → Option Error × W
  pub node_name : String
  pub new_manager : W → Option Error × W
  pub add_to_scheme : Option Error
  pub list_checkpoints : W → Result (List String)

abbrev pub returned : Option Error → Result (Unit {0})
returned none = ok tt
returned (some e) = err e

-- A call of the outside world before there is a state.
unfoldable pub act : {W : Type 0} → (W → Option Error × W) → Exec W (Unit {0})
act f w = let (e, w') = f w in (returned e, w')

-- A call that only reads.
unfoldable pub observe : {W A : Type 0} → (W → Result A) → Exec W A
observe f w = (f w, w)

module _ {W : Type 0} (setup : Setup W) (s : Settings) (host : Host W) where
  unfoldable pub write_named : CdiSpec × String → Exec W (Unit {0})
  unfolding act
  write_named (spec, name) = act (host.write_spec spec name)

  unfoldable pub create_common_spec_file : Exec W (Unit {0})
  unfolding named_common_spec write_named
  create_common_spec_file = lift (named_common_spec s.cdi setup.node_name) >>= write_named

  unfoldable pub new_cdi_handler : Exec W (Unit {0})
  new_cdi_handler = wrapping "unable to create a new CDI cache" [] (act setup.new_cache)

  -- Up to the checkpoint manager and the scheme: the devices that were enumerated.
  unfoldable pub prepare_host : Exec W Resources
  prepare_host = do
    resources ← wrapping "error enumerating all possible devices" [] (observe host.enumerate)
    wrapping "unable to create CDI handler" [] new_cdi_handler
    wrapping "unable to create CDI spec file for common edits" [] create_common_spec_file
    wrapping "unable to create checkpoint manager" [] (act setup.new_manager)
    wrapping "create config scheme" [] (lift (returned setup.add_to_scheme))
    pure resources

  abbrev pub initial : Resources → Option NicStore → W → State W
  initial resources store w = record {
    allocatable = allocatable_devices resources s.node_name;
    driver_resources = resources;
    nic_store = store;
    world = w;
  }

  -- The loop over the checkpoints, and what stands behind it.
  unfoldable pub open_checkpoint : List String → Exec (State W) (Unit {0})
  open_checkpoint [] st =
      Exec.wrapping "unable to sync to checkpoint" [] (call (host.create_checkpoint [])) st
  open_checkpoint (c ∷ cs) st =
      if c == checkpoint_file then restore_nics s host st else open_checkpoint cs st

  abbrev pub finished : Result (Unit {0}) × State W → Result (State W) × W
  finished (err e, st) = (err e, st.world)
  finished (ok u, st) = (ok st, st.world)

  -- From the state on: the checkpoints are listed, and one is opened or made.
  unfoldable pub with_state : State W → Result (State W) × W
  unfolding open_checkpoint
  with_state st = elim (setup.list_checkpoints st.world) [
    | err e ↦ (wrap_error "unable to list checkpoints" [] (err e), st.world)
    | ok names ↦ finished (open_checkpoint names st)
  ]

  abbrev pub started : Option NicStore → Result Resources × W → Result (State W) × W
  started store (err e, w) = (err e, w)
  started store (ok resources, w) = with_state (initial resources store w)

  unfoldable pub new_device_state : Option NicStore → W → Result (State W) × W
  unfolding prepare_host with_state
  new_device_state store w = started store (prepare_host w)
