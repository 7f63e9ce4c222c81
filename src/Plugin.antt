-- ===== src/Plugin.antt =====
-- The plugin around DeviceState and the sandbox handler, in cmd/kube-ovn-dra-kubeletplugin: the NRI
-- plugin, the driver, and the events of the publisher.
pub mod Runtime
pub mod Driver
pub mod Connection
pub mod Health
pub mod Probe
pub mod Lifecycle
pub mod Events
pub mod Snapshot
pub mod Refresh
pub mod Owners
pub mod System
