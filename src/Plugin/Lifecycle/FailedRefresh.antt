-- ===== src/Plugin/Lifecycle/FailedRefresh.antt =====
-- A refresh that fails in node mode: refreshDevicesLoop of
-- cmd/kube-ovn-dra-kubeletplugin/refresh.go with RefreshDevices of state.go.
use kube_ovn_dra_driver.DeviceState.Host.{Host}
