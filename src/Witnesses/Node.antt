-- ===== src/Witnesses/Node.antt =====
-- The properties of the plugin in node mode at a node that gets its first Subnet.
use kube_ovn_dra_driver.Prelude.{
  err, Bool, true, false, Option, none, some, List, [], empty_map, message, ok,
}
use kube_ovn_dra_driver.Store.{new_nic_store}
use kube_ovn_dra_driver.DeviceState.Host.{Resources, Settings, Host, State}
use kube_ovn_dra_driver.DeviceState.Start.{Setup}
use kube_ovn_dra_driver.Publisher.Device.{Device}
use kube_ovn_dra_driver.Plugin.Refresh.{Refresher, Phase, Loop, waiting, round}
use kube_ovn_dra_driver.Plugin.Lifecycle.{node, Services, Driver, refreshed}
use kube_ovn_dra_driver.Witnesses.Plugin.{settings, host, node_resources}

-- What the node has, and what the API server was told.
abbrev Api : Type 0
Api = Resources × Resources

abbrev is_some : Option (List Device) → Bool
is_some none = false
is_some (some ds) = true

abbrev has_node : Resources → Bool
has_node r = is_some (r "node1")

abbrev both : Bool → Bool → Bool
both true b = b
both false true = false
both false false = true

abbrev api_settings : Settings
api_settings = record settings { deep_equal = λ a b. both (has_node a) (has_node b) }

abbrev api_host : Host Api
api_host = record {
  get_checkpoint = λ w. ok [];
  create_checkpoint = λ p w. (none, w);
  write_spec = λ s name w. (none, w);
  remove_spec = λ name w. (none, w);
  enumerate = λ w. ok w.0;
  cluster = λ w. host.cluster none;
  subnet_mtu = λ s w. ok 1400;
  subnet_ovn_dhcp = λ s w. ok false;
  annotate_vmi = none;
}

abbrev setup : Setup Api
setup = record {
  new_cache = λ w. (none, w);
  node_name = "node1";
  new_manager = λ w. (none, w);
  add_to_scheme = none;
  list_checkpoints = λ w. ok [];
}

abbrev services : Services Api
services = record {
  start_helper = λ w. (none, w);
  start_healthcheck = λ w. (ok true, w);
  publish_resources = λ r w. (none, (w.0, r));
  watch_devices = λ w. (none, w);
  start_nri = λ w. (none, w);
  stop_nri = λ w. w;
  stop_healthcheck = λ w. w;
  stop_helper = λ w. w;
}

abbrev told : Api → Resources
told w = w.1

abbrev first_state : State Api
first_state = record {
  allocatable = empty_map;
  driver_resources = empty_map;
  nic_store = some new_nic_store;
  world = (empty_map, empty_map);
}

abbrev made : Driver Api
made = record { state = first_state; healthcheck = true; nri = true; nri_backs_ready = true }

-- The first Subnet of the node comes.
abbrev grown : State Api
grown = record first_state { world = (node_resources, empty_map) }

abbrev rested : Loop (State Api)
rested = record {
  phase = waiting;
  pending = false;
  world = round (refreshed services node api_settings api_host) grown;
}

-- An API server that does not answer.
abbrev failing : Services Api
failing = record services { publish_resources = λ r w. (some (message "timeout" []), w) }

-- A host whose Subnets cannot be listed.
abbrev blind_host : Host Api
blind_host = record api_host { enumerate = λ w. err (message "timeout" []) }

abbrev blind : Refresher (State Api) Resources
blind = refreshed services node api_settings blind_host

abbrev blind_loop : Phase → Loop (State Api)
blind_loop p = record { phase = p; pending = false; world = grown }
