-- ===== src/Command/Client.antt =====
-- pkg/flags/kubeclient.go: the clients of the API server that the commands make. client-go is the
-- record Loader.
use kube_ovn_dra_driver.Prelude.{
  ℕ, String, ◌==◌, none, some, [], Result, ok, wrapping, ◌>>=◌, if◌then◌else◌,
}
use kube_ovn_dra_driver.Command.{Values, optional}

-- The float64 of QPS is given by its bits.
pub record KubeClientConfig : Type 0 where
  pub kube_config : String
  pub kube_api_qps : ℕ
  pub kube_api_burst : ℕ

-- The parts of rest.Config that the code sets, over those that client-go fills in.
pub record RestConfig (C : Type 0) : Type 0 where
  pub base : C
  pub qps : ℕ
  pub burst : ℕ

pub record Loader (C Core Dynamic : Type 0) : Type 0 where
  -- rest.InClusterConfig and clientcmd.BuildConfigFromFlags("", path)
  pub in_cluster_config : Result (RestConfig C)
  pub build_config_from_flags : String → Result (RestConfig C)
  -- the conversion of a float64 to a float32
  pub float32 : ℕ → ℕ
  -- coreclientset.NewForConfig and dynamic.NewForConfig
  pub new_core : RestConfig C → Result Core
  pub new_dynamic : RestConfig C → Result Dynamic

-- KubeClientConfig.Flags; `five` has the bits of the default 5 of a float.
unfoldable pub client_flags : (five : ℕ) → Values → KubeClientConfig
client_flags five v = record {
  kube_config = v.text (optional "kubeconfig" none "KUBECONFIG");
  kube_api_qps = v.float (optional "kube-api-qps" (some five) "KUBE_API_QPS");
  kube_api_burst = v.int (optional "kube-api-burst" (some 10) "KUBE_API_BURST");
}

module _ {C Core Dynamic : Type 0} (l : Loader C Core Dynamic) where
  load_config : KubeClientConfig → Result (RestConfig C)
  load_config k =
      if k.kube_config == ""
      then wrapping "create in-cluster client configuration" [] l.in_cluster_config
      else wrapping "create out-of-cluster client configuration" []
          (l.build_config_from_flags k.kube_config)

  unfoldable pub new_client_set_config : KubeClientConfig → Result (RestConfig C)
  unfolding load_config
  new_client_set_config k = do
    config ← load_config k
    ok (record config { qps = l.float32 k.kube_api_qps; burst = k.kube_api_burst })

  unfoldable pub new_client_sets : KubeClientConfig → Result (Core × Dynamic)
  unfolding new_client_set_config
  new_client_sets k = do
    config ← wrapping "create client configuration" [] (new_client_set_config k)
    core ← wrapping "create core client" [] (l.new_core config)
    dynamic ← wrapping "create dynamic client" [] (l.new_dynamic config)
    ok (core, dynamic)
