-- ===== src/Cdi.antt =====
-- cmd/kube-ovn-dra-kubeletplugin/cdi.go: the CDI specs of a claim and of the driver. The regular
-- expression, the names and versions of the CDI library and fmt's %t are parameters.
use kube_ovn_dra_driver.Prelude.{
  String, ◌<>◌, Bool, Option, none, some, List, [], ◌∷◌, map, Result, ok, wrapping, ◌>>=◌,
}
use kube_ovn_dra_driver.Store.{Spec}

-- drapbv1.Device
pub record ApiDevice : Type 0 where
  pub request_names : List String
  pub pool_name : String
  pub device_name : String
  pub cdi_device_ids : List String

-- profiles.PreparedDevice; the container edits are their environment variables.
pub record PreparedDevice : Type 0 where
  pub device : ApiDevice
  pub container_edits : Option (List String)
  pub admin_access : Bool
  pub nic : Option Spec

pub record CdiDevice : Type 0 where
  pub name : String
  pub env : List String

pub record CdiSpec : Type 0 where
  pub kind : String
  pub version : String
  pub devices : List CdiDevice

pub record CdiTools : Type 0 where
  -- MinimumRequiredVersion, GenerateTransientSpecName and GenerateNameForTransientSpec
  pub minimum_version : CdiSpec → Result String
  pub transient_name : String → String → String → String
  pub name_for_spec : CdiSpec → String → Result String
  pub qualified_name : String → String → String → String
  -- nonWord.ReplaceAllString(s, "-"), and the upper case of nonWord.ReplaceAllString(s, "_")
  pub dashed : String → String
  pub upper_word : String → String
  pub to_upper : String → String
  pub print_bool : Bool → String

pub record CdiHandler : Type 0 where
  pub tools : CdiTools
  pub driver_name : String
  pub class : String

abbrev pub vendor : CdiHandler → String
vendor cdi = "k8s." <> cdi.driver_name

abbrev pub kind : CdiHandler → String
kind cdi = vendor cdi <> ("/" <> cdi.class)

unfoldable pub claim_device_name : CdiHandler → String → String → String → String
claim_device_name cdi claim_uid request device =
    claim_uid <> ("-" <> (cdi.tools.dashed request <> ("-" <> device)))

unfoldable pub get_claim_devices : CdiHandler → String → String → String → List String
get_claim_devices cdi claim_uid request device =
    cdi.tools.qualified_name (vendor cdi) cdi.class "common"
    ∷ cdi.tools.qualified_name (vendor cdi) cdi.class
        (claim_device_name cdi claim_uid request device)
    ∷ []

abbrev pub first_request : List String → String
first_request [] = ""
first_request (r ∷ rs) = r

abbrev pub edits_of : Option (List String) → List String
edits_of none = []
edits_of (some env) = env

cdi_device : CdiHandler → String → PreparedDevice → CdiDevice
cdi_device cdi claim_uid d =
    let request = first_request d.device.request_names in
    let key = cdi.tools.upper_word (request <> ("_" <> d.device.device_name)) in
    record {
      name = claim_device_name cdi claim_uid request d.device.device_name;
      env =
          (cdi.tools.to_upper cdi.class
            <> ("_DEVICE_" <> (key <> ("_RESOURCE_CLAIM=" <> claim_uid))))
          ∷ ("DRA_ADMIN_ACCESS=" <> cdi.tools.print_bool d.admin_access)
          ∷ edits_of d.container_edits;
    }

-- The spec of CreateClaimSpecFile, before its version is set.
unfoldable pub claim_spec : CdiHandler → String → List PreparedDevice → CdiSpec
unfolding cdi_device
claim_spec cdi claim_uid devices = record {
  kind = kind cdi;
  version = "";
  devices = map (cdi_device cdi claim_uid) devices;
}

-- spec.Version = the least that its contents need.
unfoldable pub versioned : CdiTools → CdiSpec → Result CdiSpec
versioned tools spec =
    wrapping "failed to get minimum required CDI spec version" [] (tools.minimum_version spec)
    >>= λ version. ok (record spec { version = version })

unfoldable pub claim_spec_name : CdiHandler → String → String
claim_spec_name cdi claim_uid = cdi.tools.transient_name (vendor cdi) cdi.class claim_uid

-- The spec of CreateCommonSpecFile, before its version is set; `node_name` is the environment's
-- NODE_NAME.
unfoldable pub common_spec : CdiHandler → String → CdiSpec
common_spec cdi node_name = record {
  kind = kind cdi;
  version = "";
  devices =
      record {
        name = "common";
        env =
            ("KUBERNETES_NODE_NAME=" <> node_name)
            ∷ ("DRA_RESOURCE_DRIVER_NAME=" <> cdi.driver_name)
            ∷ [];
      }
      ∷ [];
}

-- The common spec with its version, and its name.
unfoldable pub named_common_spec : CdiHandler → String → Result (CdiSpec × String)
unfolding versioned common_spec
named_common_spec cdi node_name = versioned cdi.tools (common_spec cdi node_name) >>= λ spec.
    wrapping "failed to generate Spec name" [] (cdi.tools.name_for_spec spec "common") >>= λ name.
    ok (spec, name)
