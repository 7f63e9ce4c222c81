-- ===== src/Annotation.antt =====
-- pkg/annotation/annotation.go: the allocation that kube-ovn-controller writes to the annotations of
-- a pod, and the poll that waits for it.
pub mod Waiting
use kube_ovn_dra_driver.Prelude.{
  String, ◌<>◌, ◌==◌, Bool, not, ◌||◌, Option, none, some, List, [], ◌∷◌, Map, get_text, Error,
  message, wrapping, Result, ok, err, if◌then◌else◌,
}

pub data Phase : Type 0 where
  pending running succeeded failed unknown : Phase

pub record Pod : Type 0 where
  pub name : String
  pub uid : String
  pub node_name : String
  pub phase : Phase
  pub labels : Map String
  pub annotations : Map String

pub record AllocatedNic : Type 0 where
  pub ip : String
  pub mac : String
  pub cidr : String
  pub gateway : String
  pub subnet_name : String
  pub vm_name : String
  pub provider : String
  pub routes : String

-- ann[fmt.Sprintf(template, provider)]
abbrev pub annotation : Pod → String → String → String
annotation pod provider suffix = get_text (pod.annotations (provider <> suffix))

unfoldable pub extract_allocation : Pod → String → Option AllocatedNic
extract_allocation pod provider =
    if not (annotation pod provider ".kubernetes.io/allocated" == "true")
    then none
    else if annotation pod provider ".kubernetes.io/ip_address" == ""
        || annotation pod provider ".kubernetes.io/mac_address" == ""
    then none
    else some (record {
      ip = annotation pod provider ".kubernetes.io/ip_address";
      mac = annotation pod provider ".kubernetes.io/mac_address";
      cidr = annotation pod provider ".kubernetes.io/cidr";
      gateway = annotation pod provider ".kubernetes.io/gateway";
      subnet_name = annotation pod provider ".kubernetes.io/logical_switch";
      vm_name = annotation pod provider ".kubernetes.io/virtualmachine";
      provider = provider;
      routes = annotation pod provider ".kubernetes.io/routes";
    })

-- The loop over the providers: the first one found wins.
unfoldable pub first_allocation : Pod → List String → Option AllocatedNic
first_allocation pod [] = none
first_allocation pod (provider ∷ rest) =
    let later = first_allocation pod rest in
    elim (extract_allocation pod provider) [ some nic ↦ some nic | none ↦ later ]

-- `reads` is what the reads of the pod give, one for each poll before the deadline.
unfoldable pub poll : List String → List (Result Pod) → Result AllocatedNic
unfolding first_allocation
poll providers [] = err (message "context deadline exceeded" [])
poll providers (read ∷ reads) =
    let later = poll providers reads in
    elim read [
      | err e ↦ err e
      | ok pod ↦ elim (first_allocation pod providers) [ some nic ↦ ok nic | none ↦ later ]
    ]

unfoldable pub wait_for_allocation :
    String → String → List String → List (Result Pod) → Result AllocatedNic
unfolding poll
wait_for_allocation namespace pod_name providers reads =
    wrapping "waiting for kube-ovn IPAM allocation for providers %q on pod %s/%s"
      (namespace ∷ pod_name ∷ providers) (poll providers reads)
