-- ===== src/Witnesses/Restarts.antt =====
-- The restarts of the plugin at a concrete node, with one claim prepared.
use kube_ovn_dra_driver.Prelude.{
  String, none, some, List, [], ◌∷◌, ◌≡◌, refl, true, ok, ok-injective,
}
use kube_ovn_dra_driver.Store.{new_nic_store}
use kube_ovn_dra_driver.Cdi.{versioned, common_spec, named_common_spec}
use kube_ovn_dra_driver.Exec.Sealed.{pure, lift, wrapping, ◌>>=◌}
use kube_ovn_dra_driver.DeviceState.Host.{PreparedClaims, State, by_name, allocatable_devices}
use kube_ovn_dra_driver.DeviceState.Actions.Recorded.{found}
use kube_ovn_dra_driver.DeviceState.Actions.Restart.{prepared}
use kube_ovn_dra_driver.DeviceState.Start.{
  Setup, act, observe, write_named, create_common_spec_file, new_cdi_handler, prepare_host,
  open_checkpoint, with_state, new_device_state,
}
use kube_ovn_dra_driver.DeviceState.Start.Opened.{IsSetup, has_name}
use kube_ovn_dra_driver.DeviceState.Start.Lifetime.{Life, born, lives, restarts_keep_nics}
use kube_ovn_dra_driver.Witnesses.Data.{web_claim}
use kube_ovn_dra_driver.Witnesses.Plugin.{
  Disk, settings, host, host-IsHost, one_device, node_resources, fresh, after_prepare,
  prepared_once,
}

abbrev files : Disk → List String
files none = []
files (some p) = "checkpoint.json" ∷ []

abbrev pub setup : Setup Disk
setup = record {
  new_cache = λ w. (none, w);
  node_name = "node1";
  new_manager = λ w. (none, w);
  add_to_scheme = none;
  list_checkpoints = λ w. ok (files w);
}

pub setup-IsSetup : IsSetup setup host
setup-IsSetup = record { get-new_cache = λ w. refl; get-new_manager = λ w. refl; listed = listed }
  where
    listed :
        (w : Disk) (p : PreparedClaims) (names : List String)
        → host.get_checkpoint w ≡ ok p
        → ok (files w) ≡ ok names
        → has_name names ≡ true
    listed none p names c l = cc c
    listed (some q) p names c l = rw⁻¹ (ok-injective l) refl

first_start : new_device_state setup settings host (some new_nic_store) none ≡ (ok fresh, some [])
unfolding new_device_state prepare_host with_state open_checkpoint create_common_spec_file
    new_cdi_handler act observe write_named named_common_spec versioned common_spec by_name
    allocatable_devices pure lift wrapping ◌>>=◌
first_start = refl

one_claim : Life setup settings host after_prepare
one_claim =
    lives fresh after_prepare (born _ none (some []) fresh refl first_start)
      (prepared web_claim one_device fresh after_prepare prepared_once)

host_prepared :
    prepare_host setup settings host after_prepare.world ≡ (ok node_resources, after_prepare.world)
unfolding prepare_host create_common_spec_file new_cdi_handler act observe write_named
    named_common_spec versioned common_spec pure lift wrapping ◌>>=◌
host_prepared = refl

restarts_keep_nics_example :
    (st' : State Disk) × (new_device_state setup settings host
        (some new_nic_store)
        after_prepare.world
      ≡ (ok st', after_prepare.world))
    × ((pod claim iface : String)
        → found st'.nic_store pod claim iface ≡ found after_prepare.nic_store pod claim iface)
restarts_keep_nics_example =
    restarts_keep_nics setup settings host host-IsHost setup-IsSetup after_prepare node_resources
      after_prepare.world (files after_prepare.world) one_claim host_prepared refl
