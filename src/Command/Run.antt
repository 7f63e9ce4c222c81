-- ===== src/Command/Run.antt =====
-- Action of newApp and RunPlugin of cmd/kube-ovn-dra-kubeletplugin/main.go. The file system, and what
-- happens until the context is done, are parameters.
pub mod Sound
use kube_ovn_dra_driver.Prelude.{
  ℕ, Bool, true, false, not, String, ◌==◌, Option, none, some, List, [], ◌∷◌, Error, message,
  Result, ok, err, if◌then◌else◌,
}
use kube_ovn_dra_driver.Exec.{Exec, pure, fail, wrapping, ◌>>=◌, ◌>>◌}
use kube_ovn_dra_driver.Store.{NicStore, new_nic_store}
use kube_ovn_dra_driver.DeviceState.Host.{Settings, Host}
use kube_ovn_dra_driver.DeviceState.Start.{Setup, act}
use kube_ovn_dra_driver.Plugin.Lifecycle.{
  PublishMode, node, central, Services, Driver, new_driver, shutdown,
}
use kube_ovn_dra_driver.Plugin.Probe.{Grpc, with_probe}
use kube_ovn_dra_driver.Command.{Flags, named}

pub record Os (W : Type 0) : Type 0 where
  -- os.MkdirAll, and os.Stat with IsDir
  pub mkdir_all : String → W → Option Error × W
  pub stat : String → W → Result Bool
  pub is_not_exist : Error → Bool
  -- filepath.Join
  pub join : String → String → String

abbrev pub driver_plugin_path : {W : Type 0} → Os W → Flags → String
driver_plugin_path os f = os.join f.kubelet_plugins_directory_path f.driver_name

abbrev pub mode_of : String → PublishMode
mode_of mode = if mode == "central" then central else node

-- What the Config holds of the flags. `annotate` is what dynamicVMIAnnotator makes, in `host`.
abbrev pub settings_of : Settings → Flags → Settings
settings_of s f = record s {
  driver_name = f.driver_name;
  node_name = f.node_name;
  is_nic = f.profile == "nic";
  cdi = record s.cdi { driver_name = f.driver_name; class = f.profile };
}

abbrev pub host_of : {W : Type 0} → Host W → Flags → Host W
host_of host f = record host {
  annotate_vmi = if f.annotate_vmi_mac then host.annotate_vmi else none;
}

module _ {W : Type 0} (os : Os W) where
  -- The switch on os.Stat.
  root_found : String → Result Bool → Exec W (Unit {0})
  root_found root (err e) = if os.is_not_exist e then act (os.mkdir_all root) else fail e
  root_found root (ok true) = pure tt
  root_found root (ok false) = fail (message "path for cdi file generation is not a directory" [])

  unfoldable pub prepare_cdi_root : String → Exec W (Unit {0})
  unfolding root_found
  prepare_cdi_root root w = root_found root (os.stat root w) w

module _ {W : Type 0} (os : Os W) (g : Grpc W) (services : Services W) (s : Settings)
    (host : Host W) (setup : Setup W) (until_done : Driver W → Driver W) where
  abbrev pub services_of : Flags → Services W
  services_of f = with_probe g (driver_plugin_path os f) f services

  abbrev pub driver_of : Flags → W → Result (Driver W) × W
  driver_of f =
      new_driver (services_of f) (mode_of f.publish_mode) (settings_of s f) (host_of host f) setup
        (some new_nic_store)

  -- The driver works until the context is done, and is shut down.
  abbrev pub served : Flags → Driver W → Exec W (Unit {0})
  served f d w = (ok tt, shutdown (services_of f) (until_done d))

  unfoldable pub run_plugin : Flags → Exec W (Unit {0})
  unfolding prepare_cdi_root
  run_plugin f = do
    act (os.mkdir_all (driver_plugin_path os f))
    prepare_cdi_root os f.cdi_root
    d ← driver_of f
    served f d

  -- Action; the only valid profile is nic.
  unfoldable pub action : (new_client_sets : W → Option Error × W) → Flags → Exec W (Unit {0})
  unfolding run_plugin
  action new_client_sets f =
      wrapping "create client" [] (act new_client_sets)
      >> (if f.profile == "nic"
          then run_plugin (named f)
          else fail
              (message "invalid device profile %q, valid profiles are %q" (f.profile ∷ "nic" ∷ [])))
