-- ===== src/Dhcp.antt =====
-- pkg/plumbing/dhcp.go: the options and the answers of the single-client DHCP server of a VM's NIC.
pub mod Routes
use kube_ovn_dra_driver.Prelude.{
  ℕ, zero, suc, ◌+◌, ◌-◌, ◌/◌, ◌%◌, String, ◌==◌, Bool, true, false, not, ◌&&◌, Option, none, some,
  List, [], ◌∷◌, ◌++◌, Error, message, Result, ok, err, ◌>>=◌, wrapping, take, if◌then◌else◌, leb,
  ltb, is_empty, nat_eq, ◌*◌,
}
use kube_ovn_dra_driver.Store.{Route, Spec}
use kube_ovn_dra_driver.Attach.Routes.{Ip, v4, v6, IpNet, NetParsers, parse}

-- The bytes appended for one route: width, the significant octets, the gateway or zeros. The slice
-- `ip4[:octets]` of more than four bytes panics: an IPv4-mapped IPv6 network has a mask of 128 bits.
-- The panic, which no caller recovers, is an error here.
unfoldable pub route_bytes : IpNet → Option Ip → Result (List ℕ)
route_bytes dst gw = elim dst.ip [
  | v6 bs ↦ ok []
  | v4 a b c d ↦
      if ltb 4 ((dst.ones - 1) / 8 + 1)
      then err (message "runtime error: slice bounds out of range" [])
      else ok (
          (dst.ones % 256)
          ∷ (take ((dst.ones - 1) / 8 + 1) (a ∷ b ∷ c ∷ d ∷ []) ++ elim gw [
            | none ↦ 0 ∷ 0 ∷ 0 ∷ 0 ∷ []
            | some ip ↦ elim ip [ v4 p q r s ↦ p ∷ q ∷ r ∷ s ∷ [] | v6 bs ↦ 0 ∷ 0 ∷ 0 ∷ 0 ∷ [] ]
          ]))
]

-- The DHCP options that the server sends.
pub record DhcpOptions : Type 0 where
  pub subnet_mask : Option (List ℕ)
  pub router : Option (Option Ip)
  pub interface_mtu : Option (List ℕ)
  pub classless_routes : Option (List ℕ)

-- gw.To4(): nil for an IPv6 address.
abbrev pub to4 : Ip → Option Ip
to4 (v4 a b c d) = some (v4 a b c d)
to4 (v6 bs) = none

module _ (net : NetParsers) where
  unfoldable pub classless_static_routes : List Route → String → Result (List ℕ)
  classless_static_routes [] gateway = ok []
  classless_static_routes (r ∷ rs) gateway =
      wrapping "plumbing: route for DHCP options" [] (parse net r gateway) >>= λ (dst, gw).
      route_bytes dst gw >>= λ bytes.
      classless_static_routes rs gateway >>= λ rest. ok (bytes ++ rest)

  router_option : String → Result (Option (Option Ip))
  router_option gateway = if gateway == "" then ok none else elim (net.parse_ip gateway) [
    | none ↦ err (message "plumbing: parse Spec.Gateway %q for DHCP options" (gateway ∷ []))
    | some gw ↦ ok (some (to4 gw))
  ]

  unfoldable pub vmi_dhcp_options : Spec → List ℕ → Result DhcpOptions
  unfolding router_option
  vmi_dhcp_options spec mask = do
    router ← router_option spec.gateway
    routes ← classless_static_routes spec.routes spec.gateway
    ok (record {
      subnet_mask = if is_empty mask then none else some mask;
      router = router;
      interface_mtu =
          if ltb 0 spec.mtu && leb spec.mtu 65535
          then some (spec.mtu / 256 ∷ spec.mtu % 256 ∷ [])
          else none;
      classless_routes = if is_empty routes then none else some routes;
    })

pub data MessageType : Type 0 where
  discover request offer ack : MessageType
  other : ℕ → MessageType

pub record Handler : Type 0 where
  pub server_ip : Ip
  pub client_ip : Ip
  pub client_mac : List ℕ
  pub options : DhcpOptions

-- dhcp.ReplyPacket's arguments; the lease is dhcpInfiniteLease in seconds.
pub record Reply : Type 0 where
  pub kind : MessageType
  pub server : Ip
  pub lease_ip : Ip
  pub lease_seconds : ℕ
  pub options : DhcpOptions

abbrev pub bytes_equal : List ℕ → List ℕ → Bool
bytes_equal [] [] = true
bytes_equal (x ∷ xs) (y ∷ ys) = nat_eq x y && bytes_equal xs ys
bytes_equal _ _ = false

reply : Handler → MessageType → Option Reply
reply h kind = some (record {
  kind = kind;
  server = h.server_ip;
  lease_ip = h.client_ip;
  lease_seconds = 999 * 24 * 3600;
  options = h.options;
})

unfoldable pub serve_dhcp : Handler → List ℕ → MessageType → Option Reply
unfolding reply
serve_dhcp h ch_addr msg =
    if not (is_empty h.client_mac) && not (bytes_equal ch_addr h.client_mac)
    then none
    else elim msg [ discover ↦ reply h offer | request ↦ reply h ack | _ ↦ none ]
