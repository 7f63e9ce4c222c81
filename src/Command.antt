-- ===== src/Command.antt =====
-- The command line of the kubelet plugin: main, newApp and pluginFlags of
-- cmd/kube-ovn-dra-kubeletplugin/main.go, with runPublisherIfRequested of publisher.go. The library
-- that parses flags is a parameter.
pub mod Client
pub mod Run
pub mod Leader
use kube_ovn_dra_driver.Prelude.{
  ℕ, ◌-◌, ◌*◌, ◌^◌, Bool, true, false, not, ◌&&◌, String, ◌==◌, ◌<>◌, Option, none, some, List, [],
  ◌∷◌, Error, message, Result, ok, err, if◌then◌else◌,
}
use kube_ovn_dra_driver.Publisher.{slt64}
use kube_ovn_dra_driver.DeviceState.Start.{returned}
use kube_ovn_dra_driver.Exec.{Exec, pure, fail, ◌>>=◌, ◌>>◌}

-- A flag with the default that it is given, if any.
pub record Flag (A : Type 0) : Type 0 where
  pub name : String
  pub value : Option A
  pub required : Bool
  pub env : List String

-- What the library fills the destination of a flag with. An int and a duration, in nanoseconds, are
-- bit patterns below 2 ^ 64; a float is given by its bits.
pub record Values : Type 0 where
  pub text : Flag String → String
  pub int : Flag ℕ → ℕ
  pub float : Flag ℕ → ℕ
  pub duration : Flag ℕ → ℕ
  pub bool : Flag Bool → Bool

-- A flag that may be left out, and one that may not.
abbrev pub optional : {A : Type 0} → String → Option A → String → Flag A
optional name value env = record { name = name; value = value; required = false; env = env ∷ [] }

abbrev pub required_flag : {A : Type 0} → String → String → Flag A
required_flag name env = record { name = name; value = none; required = true; env = env ∷ [] }

pub record Flags : Type 0 where
  pub node_name : String
  pub cdi_root : String
  pub kubelet_registrar_directory_path : String
  pub kubelet_plugins_directory_path : String
  pub healthcheck_port : ℕ
  pub profile : String
  pub driver_name : String
  pub pod_uid : String
  pub publish_mode : String
  pub allocation_timeout : ℕ
  pub annotate_vmi_mac : Bool

-- annotation.WaitTimeout before it is set: 30 seconds.
abbrev pub default_wait_timeout : ℕ
default_wait_timeout = 30 * 10 ^ 9

-- pluginFlags, each flag with its destination. KubeletRegistryDir and KubeletPluginsDir are constants
-- of the kubelet.
unfoldable pub plugin_flags : (registry_dir plugins_dir : String) → Values → Flags
plugin_flags registry_dir plugins_dir v = record {
  node_name = v.text (required_flag "node-name" "NODE_NAME");
  cdi_root = v.text (optional "cdi-root" (some "/etc/cdi") "CDI_ROOT");
  kubelet_registrar_directory_path = v.text (
      optional "kubelet-registrar-directory-path" (some registry_dir)
        "KUBELET_REGISTRAR_DIRECTORY_PATH");
  kubelet_plugins_directory_path = v.text (
      optional "kubelet-plugins-directory-path" (some plugins_dir)
        "KUBELET_PLUGINS_DIRECTORY_PATH");
  healthcheck_port = v.int (optional "healthcheck-port" (some (2 ^ 64 - 1)) "HEALTHCHECK_PORT");
  profile = v.text (optional "device-profile" (some "nic") "DEVICE_PROFILE");
  driver_name = v.text (optional "driver-name" none "DRIVER_NAME");
  publish_mode = v.text (optional "publish-mode" (some "node") "PUBLISH_MODE");
  allocation_timeout =
      v.duration (optional "allocation-timeout" (some default_wait_timeout) "ALLOCATION_TIMEOUT");
  annotate_vmi_mac = v.bool (optional "annotate-vmi-mac" none "ANNOTATE_VMI_MAC");
  pod_uid = v.text (optional "pod-uid" none "POD_UID");
}

-- The variable annotation.WaitTimeout, with the rest of the world.
pub record Process (W : Type 0) : Type 0 where
  pub wait_timeout : ℕ
  pub world : W

-- A call of the world.
unfoldable pub call : {W : Type 0} → (W → Option Error × W) → Exec (Process W) (Unit {0})
call f p = let (e, w) = f p.world in (returned e, record p { world = w })

set_wait_timeout : {W : Type 0} → ℕ → Exec (Process W) (Unit {0})
set_wait_timeout t p = (ok tt, record p { wait_timeout = t })

-- Before of newApp: the checks, with loggingConfig.Apply. `print` is the text of a duration.
unfoldable pub before :
    {W : Type 0} (print : ℕ → String) (apply_logging : W → Option Error × W)
    → List String
    → Flags
    → Exec (Process W) (Unit {0})
unfolding set_wait_timeout call
before print apply_logging (arg ∷ args) f =
    fail (message "arguments not supported: %v" (arg ∷ args))
before print apply_logging [] f =
    if not (f.publish_mode == "node") && not (f.publish_mode == "central")
    then fail (message "invalid publish mode %q, valid modes are %q and %q" (f.publish_mode ∷ []))
    else if not (slt64 0 f.allocation_timeout)
    then fail
        (message "allocation timeout must be positive, got %s" (print f.allocation_timeout ∷ []))
    else set_wait_timeout f.allocation_timeout >> call apply_logging

-- The driver name that Action leaves in the flags.
abbrev pub named : Flags → Flags
named f = record f {
  driver_name = if f.driver_name == "" then f.profile <> ".kubeovn.io" else f.driver_name;
}

-- runPublisherIfRequested, over the App of the publisher: whether it started it, and its error.
-- `is_canceled` is errors.Is for context.Canceled.
module _ {W : Type 0} (is_canceled : Error → Bool)
    (run_publisher_app : List String → W → Option Error × W) where
  not_canceled : Option Error → Option Error
  not_canceled none = none
  not_canceled (some e) = if is_canceled e then none else some e

  unfoldable pub run_publisher_if_requested : List String → W → (Bool × Option Error) × W
  unfolding not_canceled
  run_publisher_if_requested [] w = ((false, none), w)
  run_publisher_if_requested (arg ∷ []) w = ((false, none), w)
  run_publisher_if_requested (arg ∷ command ∷ args) w =
      if not (command == "publisher")
      then ((false, none), w)
      else let (e, w') = run_publisher_app (arg ∷ args) w in ((true, not_canceled e), w')

  exit_code : Option Error → ℕ
  exit_code none = 0
  exit_code (some e) = 1

  or_plugin :
      (run_app : List String → W → Option Error × W)
      → List String
      → (Bool × Option Error) × W
      → ℕ × W
  unfolding exit_code
  or_plugin run_app args ((true, e), w) = (exit_code e, w)
  or_plugin run_app args ((false, e), w) = let (e', w') = run_app args w in (exit_code e', w')

  -- main, over the App of newApp: the exit code.
  unfoldable pub main : (run_app : List String → W → Option Error × W) → List String → W → ℕ × W
  unfolding run_publisher_if_requested or_plugin
  main run_app args w = or_plugin run_app args (run_publisher_if_requested args w)
