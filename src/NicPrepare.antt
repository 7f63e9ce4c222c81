-- ===== src/NicPrepare.antt =====
-- pkg/nicprepare/nicprepare.go: the pod that a claim is prepared for, and the kube-ovn allocation of
-- one of its NICs. encoding/json, net and the Kubernetes client are parameters.
pub mod Request
pub mod Sharing
pub mod DualStack
use Prim.Native.Char.{code}
use kube_ovn_dra_driver.Prelude.{
  ℕ, ◌+◌, String, ◌<>◌, ◌==◌, Bool, true, false, not, ◌&&◌, ◌||◌, Option, none, some, List, [], ◌∷◌,
  ◌++◌, Map, get_text, Error, message, wrap, Result, ok, err, ◌>>=◌, ◌>>◌, guard, wrapping,
  is_empty, any, if◌then◌else◌, nat_eq,
}
use kube_ovn_dra_driver.Store.{Route}
use kube_ovn_dra_driver.Claim.{DeviceResult, ConsumerRef, ResourceClaim}
use kube_ovn_dra_driver.Attach.Routes.{Ip, is_v4, IpNet, NetParsers}
use kube_ovn_dra_driver.Annotation.{
  Pod, Phase, succeeded, failed, AllocatedNic, wait_for_allocation,
}

-- What a read of a pod from the API gives.
pub data PodRead : Type 0 where
  found : Pod → PodRead
  not_found : PodRead
  read_error : Error → PodRead

pub record Consumers : Type 0 where
  pub consumers : List Pod
  pub on_node : List Pod
  pub refs : ℕ

abbrev pub is_finished : Phase → Bool
is_finished succeeded = true
is_finished failed = true
is_finished _ = false

abbrev pub is_pod_ref : ConsumerRef → Bool
is_pod_ref ref = ref.resource == "pods" && ref.api_group == ""

-- The consumer is there, is the one that the claim is reserved for, and has not finished.
abbrev pub is_live : ConsumerRef → Pod → Bool
is_live ref pod = pod.uid == ref.uid && not (is_finished pod.phase)

add_pod : String → ConsumerRef → Pod → Consumers → Consumers
add_pod node ref pod c =
    if is_live ref pod
    then record c {
      consumers = c.consumers ++ pod ∷ [];
      on_node = if pod.node_name == node then c.on_node ++ pod ∷ [] else c.on_node;
    }
    else c

-- The loop over ReservedFor; `get` reads a pod of the claim's namespace.
unfoldable pub gather :
    (String → PodRead) → String → String → List ConsumerRef → Consumers → Result Consumers
unfolding add_pod
gather get namespace node [] c = ok c
gather get namespace node (ref ∷ refs) c =
    if not (is_pod_ref ref)
    then gather get namespace node refs c
    else (let counted = record c { refs = c.refs + 1 } in
        elim (get ref.name) [
          | not_found ↦ gather get namespace node refs counted
          | read_error e ↦ err (wrap "get pod %s/%s" (namespace ∷ ref.name ∷ []) e)
          | found pod ↦ gather get namespace node refs (add_pod node ref pod counted)
        ])

abbrev pub vm_of : Pod → String
vm_of pod = get_text (pod.labels "vm.kubevirt.io/name")

-- The loop of checkSharedClaim: the first pod that is not of the VM.
unfoldable pub first_stranger : String → List Pod → Option Pod
first_stranger vm [] = none
first_stranger vm (pod ∷ pods) =
    if vm == "" || not (vm_of pod == vm) then some pod else first_stranger vm pods

unfoldable pub check_shared_claim : ResourceClaim → List Pod → Option Error
unfolding first_stranger
check_shared_claim claim (first ∷ second ∷ rest) =
    elim (first_stranger (vm_of first) (first ∷ second ∷ rest)) [
      | none ↦ none
      | some pod ↦ some (
          message
            "claim %s/%s is shared by pods %s and %s; a DRA NIC claim can only be shared by the virt-launcher pods of one KubeVirt VM (live migration), use one claim per pod"
            (claim.namespace ∷ claim.name ∷ first.name ∷ pod.name ∷ []))
    ]
check_shared_claim claim _ = none

pick_on_node : ResourceClaim → String → List Pod → Result Pod
pick_on_node claim node [] = err (
    message "claim %s/%s has no pod on node %s in ReservedFor"
      (claim.namespace ∷ claim.name ∷ node ∷ []))
pick_on_node claim node (pod ∷ []) = ok pod
pick_on_node claim node (pod ∷ other ∷ rest) = err (
    message
      "claim %s/%s is reserved for more than one pod on node %s (%s, %s); a DRA NIC is prepared once per node, use one claim per pod"
      (claim.namespace ∷ claim.name ∷ node ∷ pod.name ∷ other.name ∷ []))

unfoldable pub lookup_pod_for_claim : (String → PodRead) → ResourceClaim → String → Result Pod
unfolding pick_on_node
lookup_pod_for_claim get claim node =
    gather get claim.namespace node claim.reserved_for
      (record { consumers = []; on_node = []; refs = 0 })
    >>= λ c.
        if nat_eq c.refs 0
        then err
            (message "claim %s/%s has no pod in ReservedFor" (claim.namespace ∷ claim.name ∷ []))
        else elim (check_shared_claim claim c.consumers) [
          | some e ↦ err e
          | none ↦ pick_on_node claim node c.on_node
        ]

-- strings.Split(s, string(sep)) and strings.Cut(s, string(sep)).
unfoldable pub split : ℕ → String → List String
split sep String.[] = "" ∷ []
split sep (String.◌∷◌ c s) =
    let rest = split sep s in
    if nat_eq (code c) sep
    then "" ∷ rest
    else elim rest [ [] ↦ [] | part ∷ parts ↦ String.◌∷◌ c part ∷ parts ]

unfoldable pub cut_before : ℕ → String → String
cut_before sep String.[] = ""
cut_before sep (String.◌∷◌ c s) =
    let rest = cut_before sep s in if nat_eq (code c) sep then "" else String.◌∷◌ c rest

unfoldable pub has_char : ℕ → String → Bool
has_char sep String.[] = false
has_char sep (String.◌∷◌ c s) = nat_eq (code c) sep || has_char sep s

-- The addresses of a NIC, with the CIDR and the gateway of the first.
pub record Addresses : Type 0 where
  pub ips : List String
  pub cidr : String
  pub gateway : String

-- `decimal` prints a number, fmt's %d.
module _ (net : NetParsers) (decimal : ℕ → String) where
  unfoldable pub with_mask : String → String → String
  with_mask ip cidr =
      if ip == "" || has_char b'/' ip
      then ip
      else elim (net.parse_cidr cidr) [ none ↦ ip | some n ↦ ip <> ("/" <> decimal n.ones) ]

  abbrev pub family_is : Bool → String → Bool
  family_is v4 value = elim (net.parse_ip (cut_before b'/' value)) [
    | none ↦ false
    | some ip ↦ if v4 then is_v4 ip else not (is_v4 ip)
  ]

  unfoldable pub by_family : Bool → List String → String
  by_family v4 [] = ""
  by_family v4 (value ∷ values) = if family_is v4 value then value else by_family v4 values

  -- One round of the loop over the families.
  add_family : List String → List String → List String → Bool → Addresses → Addresses
  add_family ip_list cidrs gateways v4 a =
      let ip = by_family v4 ip_list in
      if ip == "" then a else record {
        ips = a.ips ++ with_mask ip (by_family v4 cidrs) ∷ [];
        cidr = if is_empty a.ips then by_family v4 cidrs else a.cidr;
        gateway = if is_empty a.ips then by_family v4 gateways else a.gateway;
      }

  unfoldable pub dual_stack_addresses : String → String → String → Addresses
  unfolding add_family
  dual_stack_addresses ip_list cidr_list gateway_list =
      let ips = split b',' ip_list in
      let cidrs = split b',' cidr_list in
      let gateways = split b',' gateway_list in
      let none_yet : Addresses = record { ips = []; cidr = ""; gateway = "" } in
      let a = add_family ips cidrs gateways false (add_family ips cidrs gateways true none_yet) in
      if is_empty a.ips then record a { ips = with_mask ip_list cidr_list ∷ [] } else a
