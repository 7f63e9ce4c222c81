-- ===== src/Plugin/Probe.antt =====
-- startHealthcheck and Stop of cmd/kube-ovn-dra-kubeletplugin/health.go: the sockets that the health
-- service connects to. net, path and gRPC are parameters.
use kube_ovn_dra_driver.Prelude.{
  ℕ, Bool, true, false, not, String, ◌==◌, ◌<>◌, Option, [], ◌∷◌, Error, ok, if◌then◌else◌,
}
use kube_ovn_dra_driver.Exec.{Exec, pure, wrapping, ◌>>◌}
use kube_ovn_dra_driver.Publisher.{slt64}
use kube_ovn_dra_driver.DeviceState.Start.{act}
use kube_ovn_dra_driver.Plugin.Lifecycle.{Services}
use kube_ovn_dra_driver.Command.{Flags}

pub record Grpc (W : Type 0) : Type 0 where
  -- net.JoinHostPort("", strconv.Itoa(port)), path.Join, and the URL of a socket
  pub address : ℕ → String
  pub join : String → String → String
  pub unix_url : String → String
  -- net.Listen("tcp", …), grpc.NewClient, and the goroutine that serves
  pub listen : String → W → Option Error × W
  pub new_client : String → W → Option Error × W
  pub serve : W → W
  -- GracefulStop and the wait for the goroutine
  pub graceful_stop : W → W
  pub wait : W → W

-- The UID of the pod is in the names of the sockets, if it is given.
abbrev pub registration_socket : {W : Type 0} → Grpc W → Flags → String
registration_socket g f = g.unix_url (
    g.join f.kubelet_registrar_directory_path (
      if not (f.pod_uid == "")
      then f.driver_name <> "-" <> f.pod_uid <> "-reg.sock"
      else f.driver_name <> "-reg.sock"))

abbrev pub dra_socket : {W : Type 0} → Grpc W → (plugin_path : String) → Flags → String
dra_socket g plugin_path f = g.unix_url (
    g.join plugin_path
      (if not (f.pod_uid == "") then "dra-" <> f.pod_uid <> ".sock" else "dra.sock"))

module _ {W : Type 0} (g : Grpc W) (plugin_path : String) where
  started : Exec W Bool
  started w = (ok true, g.serve w)

  -- Whether there is a health service.
  unfoldable pub start_healthcheck : Flags → Exec W Bool
  unfolding started
  start_healthcheck f = if slt64 f.healthcheck_port 0 then pure false else (do
    wrapping "failed to listen for healthcheck service at %s" (g.address f.healthcheck_port ∷ [])
        (act (g.listen (g.address f.healthcheck_port)))
    wrapping "connect to registration socket" [] (act (g.new_client (registration_socket g f)))
    wrapping "connect to DRA socket" [] (act (g.new_client (dra_socket g plugin_path f)))
    started)

-- Stop, with whether there is a server.
unfoldable pub stop_healthcheck : {W : Type 0} → Grpc W → Bool → W → W
stop_healthcheck g server w = g.wait (if server then g.graceful_stop w else w)

-- What NewDriver calls to start the health service, and Shutdown to stop one that was started.
abbrev pub with_probe :
    {W : Type 0} → Grpc W → (plugin_path : String) → Flags → Services W → Services W
with_probe g plugin_path f services = record services {
  start_healthcheck = start_healthcheck g plugin_path f;
  stop_healthcheck = stop_healthcheck g true;
}
