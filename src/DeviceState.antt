-- ===== src/DeviceState.antt =====
-- DeviceState of cmd/kube-ovn-dra-kubeletplugin/state.go: how a claim is prepared and unprepared,
-- and what survives a restart of the plugin. The proofs stand in the modules below.
pub mod Filled
pub mod Host
pub mod Parts
pub mod Devices
pub mod Actions
pub mod Start
pub mod Checkpoint
