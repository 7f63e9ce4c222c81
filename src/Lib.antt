-- ===== src/Lib.antt =====
-- Verification of the kube-ovn DRA driver: a kubelet plugin that gives pods secondary NICs on
-- kube-ovn Subnets through Dynamic Resource Allocation, and the publisher of these Subnets.
--
-- Parts and how they interact. The publisher (internal/publisher) turns Subnets into devices, whose
-- attributes the plugin reads back. For a claim on such a device, the kubelet calls Prepare of
-- DeviceState (cmd/kube-ovn-dra-kubeletplugin/state.go). It groups the results by config, waits for
-- the allocation that kube-ovn-controller writes to the pod (pkg/nicprepare, pkg/annotation), and
-- puts one Spec per NIC into the NIC store (pkg/plumbing/store.go), the CDI cache and the
-- checkpoint. The hooks of the container runtime (pkg/plumbing/nri.go) take the Specs of a pod from
-- the store and call the attacher (pkg/plumbing/plumbing.go) for each. NewDriver (driver.go) starts
-- all of this for the plugin: it restores the NICs of the last process from the checkpoint, publishes
-- the devices, watches the Subnets, and connects to the container runtime.
--
-- Which file models which part:
--   Prelude, Exec    shared types: lists, Go maps, errors and results; methods that change a state
--                    and can fail, where the changes before the failure stay
--   Store            NICStore of pkg/plumbing/store.go; a map is a function from text to Option
--   Sandbox          SandboxHandler of pkg/plumbing/nri.go, over any attacher and host state
--   Attach           Validate, Attach, Detach and Route.parse of pkg/plumbing/plumbing.go
--   Linux            pkg/plumbing/plumbing_linux.go: Links, Configure, Ovs, Servers and Bridge have its
--                    functions over a `Kernel` whose calls are a parameter; Plumber fills the
--                    interface Datapath of Attach with them. Trace is a kernel that records its
--                    calls and answers them by an oracle; Kept and the Frames modules say once what
--                    each function keeps of what the kernel's calls keep
--   Dhcp             pkg/plumbing/dhcp.go
--   Claim, Config    the claim types of Kubernetes, NicConfig of
--                    api/kube-ovn.io/resource/nic/v1alpha1/api.go, and the choice of a config in
--                    state.go
--   Annotation       pkg/annotation/annotation.go; the reads of the pod are a list, one for each
--                    poll before the deadline, so that its end is the deadline
--   NicPrepare       pkg/nicprepare/nicprepare.go
--   Publisher        internal/publisher/subnet.go, pools.go and held.go; an int64 is a bit pattern
--                    below 2 ^ 64 with the wrap-around written out; in Parse an unstructured object is
--                    given by what its accessors return, and a float64 by its bits
--   Cdi              cmd/kube-ovn-dra-kubeletplugin/cdi.go; its methods that write files are in
--                    DeviceState/Actions and DeviceState/Start
--   DeviceState      cmd/kube-ovn-dra-kubeletplugin/state.go: Host has the state and the interface of
--                    the outside, Parts the parts without effects, Devices prepareDevices,
--                    Actions the methods, Start NewDeviceState; Checkpoint is checkpoint.go, and
--                    Filled has vmi.go
--   Plugin           nri.go of cmd/kube-ovn-dra-kubeletplugin (Runtime, its connection as a step relation
--                    in Connection), driver.go (Driver, Lifecycle), health.go (Health, Probe), and the
--                    publisher: fullSubnets, snapshotter, publish and podOwners of publisher.go
--                    (Events, Snapshot, Refresh, Owners) and the loop of refresh.go as a step
--                    relation (Refresh); System puts the driver, DeviceState and the NRI plugin
--                    together, as the kubelet and the container runtime call them in any order
--   Profile          internal/profiles/nic/nic.go; WatchDevices is Watch
--   Webhook          admitResourceClaimParameters of cmd/kube-ovn-dra-webhook/main.go, the extraction
--                    of resource.go (Extract), serve and readAdmissionReview of main.go (Serve), its
--                    command and routes (App)
--   Command          the commands: main.go of cmd/kube-ovn-dra-kubeletplugin (Command, Run), the command
--                    of publisher.go with its leader election as a step relation (Leader), and
--                    pkg/flags/kubeclient.go (Client)
--   Witnesses        each result at a concrete input
--
-- Parameters: netlink, netns, the commands and the sockets of the node (Kernel), the functions of net,
-- netlink and strings on texts (Texts), the checkpoint manager, the CDI cache and the API server
-- (Host, with the laws IsHost), the decoders, the conversion between API versions and json.Marshal of
-- the webhook (Scheme, Server), the parsers of net and encoding/json, SHA-256, the order in which Go
-- meets the entries of a map (range and range' of Settings). The lock of DeviceState serializes its
-- methods, so they are functions on its state; the NICs of one claim, which the code resolves
-- concurrently, are resolved in the order of the items.
-- The kubelet gives the plugin claims with results of its driver only, so that a claim in the
-- checkpoint has devices; a list without any is nil in the code, which takes it for no entry.
-- What the start of the plugin calls is Setup and Services, the informers and DeepEqual of the watch
-- are Informers and Equality, json and the checksum of a checkpoint are Format, the gRPC clients of the
-- health check are Clients, and its server is Grpc. Whether stub.Run of NRI waits for the calls of the
-- plugin is the parameter `waits` of Connection, which no theorem fixes. The library that parses
-- flags is Values, the file system Os,
-- client-go Loader, the informers and the controller of the publisher Controllers.
--
-- Bounds: only the reader of DHCP option 121 in Dhcp/Routes takes fuel, one unit more than there are
-- routes; every other loop that ends is a recursion on a list or a text. The loops that last as long as
-- a process are step relations.
--
-- Not modelled: the locks, the loops inside client-go, net/http and gRPC, and the flags of the logging
-- library (pkg/flags/logging.go): calls of libraries.

pub mod Prelude
pub mod Store
pub mod Sandbox
pub mod Attach
pub mod Dhcp
pub mod Claim
pub mod Config
pub mod Annotation
pub mod NicPrepare
pub mod Publisher
pub mod Exec
pub mod Linux
pub mod Cdi
pub mod DeviceState
pub mod Plugin
pub mod Profile
pub mod Command
pub mod Webhook
mod Witnesses
