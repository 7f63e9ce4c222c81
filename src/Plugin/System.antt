-- ===== src/Plugin/System.antt =====
-- The plugin of cmd/kube-ovn-dra-kubeletplugin as a whole: DeviceState of state.go behind the driver
-- of driver.go, and the NRI plugin of nri.go, which share the NIC store. The kubelet, Kubernetes and
-- the container runtime call them in any order, and the plugin may be restarted.
pub mod SameNics
pub mod Prepared
pub mod Attached
use kube_ovn_dra_driver.Prelude.{String, Bool, Option, some, List, [], ◌≡◌, ◌≢◌, Error, Result, ok}
use kube_ovn_dra_driver.Store.{NicStore, new_nic_store}
use kube_ovn_dra_driver.Sandbox.Rollback.{Call, recording}
use kube_ovn_dra_driver.Claim.{ResourceClaim}
use kube_ovn_dra_driver.DeviceState.Host.{Settings, Host, State}
use kube_ovn_dra_driver.DeviceState.Actions.{refresh_devices}
use kube_ovn_dra_driver.DeviceState.Start.{Setup, new_device_state}
use kube_ovn_dra_driver.Plugin.Driver.{prepare_resource_claim, unprepare_resource_claim}
use kube_ovn_dra_driver.Plugin.Connection.{
  Connection, reconnecting, serving, longer, start_nri_plugin, Step,
}

-- The world of the NRI plugin is the calls of the attacher so far.
pub record System (W : Type 0) : Type 0 where
  pub state : State W
  pub nri : Connection (List Call)

-- The NRI plugin on the NIC store that it shares.
abbrev pub on_store : NicStore → Connection (List Call) → Connection (List Call)
on_store p c = record c { plugin = record c.plugin { store = p } }

module _ {W : Type 0} (setup : Setup W) (s : Settings) (host : Host W)
    (answer : List Call → Call → Option Error) (waits : Bool) where
  -- The claim `spared` is not unprepared. A claim at a time is prepared or unprepared, since
  -- DeviceState has a lock.
  pub data Moves (spared : String) : System W → System W → Type 0 where
    prepares :
        (t : System W) (claim : ResourceClaim)
        → Moves spared t (record t {
          state = (prepare_resource_claim s host (some t.nri.plugin.ready) claim t.state).1;
        })
    unprepares :
        (t : System W) (uid : String)
        → uid ≢ spared
        → Moves spared t (record t { state = (unprepare_resource_claim s host uid t.state).1 })
    refreshes :
        (t : System W) → Moves spared t (record t { state = (refresh_devices s host t.state).1 })
    -- A step of the connection, with the calls of the runtime and the ticks of retryFailed.
    connection :
        (t : System W) (p : NicStore) (d : Connection (List Call))
        → t.state.nic_store ≡ some p
        → Step (recording answer) waits (on_store p t.nri) d
        → Moves spared t
            (record { state = record t.state { nic_store = some d.plugin.store }; nri = d })
    reconnects :
        (t : System W)
        → t.nri.phase ≡ reconnecting
        → Moves spared t
            (record t { nri = record t.nri { phase = serving; backoff = longer t.nri.backoff } })
    -- The process ends at any time, and a new one starts.
    restarts :
        (t : System W) (st : State W) (w : W)
        → new_device_state setup s host (some new_nic_store) t.state.world ≡ (ok st, w)
        → Moves spared t
            (record { state = st; nri = start_nri_plugin new_nic_store t.nri.plugin.host })

  pub data Runs (spared : String) (t : System W) : System W → Type 0 where
    here : Runs spared t t
    next : {u v : System W} → Runs spared t u → Moves spared u v → Runs spared t v
