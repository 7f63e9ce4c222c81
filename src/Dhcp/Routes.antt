-- ===== src/Dhcp/Routes.antt =====
-- DHCP option 121 as a client reads it (RFC 3442), against what pkg/plumbing/dhcp.go writes.
use mathlib.Core.List.{append_assoc}
use kube_ovn_dra_driver.Prelude.{
  ℕ, zero, suc, ◌+◌, ◌-◌, ◌/◌, ◌%◌, ◌≤◌, ◌<◌, String, Option, none, some, List, [], ◌∷◌, ◌++◌, ◌≡◌,
  ◌≢◌, refl, ◌⊎◌, inl, inr, arith, ok, err, wrapping, >>=-eq-ok, wrapping-eq-ok, ok-injective, take,
  true, false, if◌then◌else◌, length, sym, ◌∙◌, ltb, Bool-cases,
}
use kube_ovn_dra_driver.Store.{Route}
use kube_ovn_dra_driver.Attach.Routes.{
  Ip, v4, v6, is_v4, IpNet, NetParsers, parse, parse_is_safe, GatewayFits,
}
use kube_ovn_dra_driver.Dhcp.{route_bytes, classless_static_routes}

-- A route as a client takes it: the width, the four bytes of the network, the gateway.
abbrev pub ClientRoute : Type 0
ClientRoute = ℕ × Ip × Ip

gateway_of : ℕ → Ip → List ℕ → Option (ClientRoute × List ℕ)
gateway_of w ip (p ∷ q ∷ r ∷ s ∷ rest) = some ((w, ip, v4 p q r s), rest)
gateway_of w ip _ = none

-- The significant octets of the network, as many as the width takes; the others are zero.
octets : ℕ → ℕ → List ℕ → Option (ClientRoute × List ℕ)
octets zero w rest = gateway_of w (v4 0 0 0 0) rest
octets (suc zero) w (a ∷ rest) = gateway_of w (v4 a 0 0 0) rest
octets (suc (suc zero)) w (a ∷ b ∷ rest) = gateway_of w (v4 a b 0 0) rest
octets (suc (suc (suc zero))) w (a ∷ b ∷ c ∷ rest) = gateway_of w (v4 a b c 0) rest
octets (suc (suc (suc (suc zero)))) w (a ∷ b ∷ c ∷ d ∷ rest) = gateway_of w (v4 a b c d) rest
octets _ w rest = none

-- One destination descriptor: ⌈width / 8⌉ octets behind the width.
pub read_route : List ℕ → Option (ClientRoute × List ℕ)
read_route [] = none
read_route (w ∷ rest) = octets ((w + 7) / 8) w rest

-- Every descriptor of the option, with fuel for one byte each.
pub read_routes : ℕ → List ℕ → Option (List ClientRoute)
read_routes zero bytes = none
read_routes (suc fuel) [] = some []
read_routes (suc fuel) (b ∷ bytes) = elim (read_route (b ∷ bytes)) [
  | none ↦ none
  | some (r, rest) ↦ elim (read_routes fuel rest) [ none ↦ none | some rs ↦ some (r ∷ rs) ]
]

-- The bytes of an IPv4 network beyond its mask are zero.
abbrev pub IsMasked : IpNet → Type 0
IsMasked n = elim n.ip [
  | v6 bs ↦ Unit {0}
  | v4 a b c d ↦ (n.ones ≤ 8 → b ≡ 0) × (n.ones ≤ 16 → c ≡ 0) × (n.ones ≤ 24 → d ≡ 0)
]

abbrev pub gateway_or_zero : Option Ip → Ip
gateway_or_zero none = v4 0 0 0 0
gateway_or_zero (some ip) = ip

width_cases :
    (w : ℕ)
    → 0 < w
    → w ≤ 32
    → ((w ≤ 8) × ((w - 1) / 8 ≡ 0) × ((w + 7) / 8 ≡ 1))
      ⊎ (((w ≤ 16) × ((w - 1) / 8 ≡ 1) × ((w + 7) / 8 ≡ 2))
          ⊎ (((w ≤ 24) × ((w - 1) / 8 ≡ 2) × ((w + 7) / 8 ≡ 3))
              ⊎ (((w - 1) / 8 ≡ 3) × ((w + 7) / 8 ≡ 4))))
width_cases w p q = ground arith

gateway_bytes : Option Ip → List ℕ
gateway_bytes none = 0 ∷ 0 ∷ 0 ∷ 0 ∷ []
gateway_bytes (some (v4 p q r s)) = p ∷ q ∷ r ∷ s ∷ []
gateway_bytes (some (v6 bs)) = 0 ∷ 0 ∷ 0 ∷ 0 ∷ []

gateway_of-bytes :
    (w : ℕ) (n : IpNet) (gw : Option Ip) (rest : List ℕ)
    → is_v4 n.ip ≡ true
    → GatewayFits n gw
    → gateway_of w n.ip (gateway_bytes gw ++ rest) ≡ some ((w, n.ip, gateway_or_zero gw), rest)
unfolding gateway_of gateway_bytes
gateway_of-bytes w n none rest v f = refl
gateway_of-bytes w n (some (v4 p q r s)) rest v f = refl
gateway_of-bytes w n (some (v6 bs)) rest v f = ground arith

read-octets :
    (a b c d w : ℕ) (tail : List ℕ)
    → 0 < w
    → w ≤ 32
    → IsMasked (record { ip = v4 a b c d; ones = w })
    → octets ((w + 7) / 8) w (take ((w - 1) / 8 + 1) (a ∷ b ∷ c ∷ d ∷ []) ++ tail)
      ≡ gateway_of w (v4 a b c d) tail
unfolding octets
read-octets a b c d w tail p small m = elim (width_cases w p small) [
  | inl (le, e, e') ↦ rw (e, e', m.0 le, m.1 (omega arith), m.2 (omega arith))
  | inr (inl (le, e, e')) ↦ rw (e, e', m.1 le, m.2 (omega arith))
  | inr (inr (inl (le, e, e'))) ↦ rw (e, e', m.2 le)
  | inr (inr (inr (e, e'))) ↦ rw (e, e')
]

route_bytes_lem :
    (a b c d w : ℕ) (gw : Option Ip)
    → w ≤ 32
    → route_bytes (record { ip = v4 a b c d; ones = w }) gw
      ≡ ok (w ∷ (take ((w - 1) / 8 + 1) (a ∷ b ∷ c ∷ d ∷ []) ++ gateway_bytes gw))
unfolding route_bytes gateway_bytes
route_bytes_lem a b c d w gw h =
    let e : w % 256 ≡ w = omega arith in
    let f : ltb 4 ((w - 1) / 8 + 1) ≡ false = ground arith in
    elim gw [
      | none ↦ rw (e, f, route_bytes) refl
      | some ip ↦ elim ip [
        | v4 p q r s ↦ rw (e, f, route_bytes) refl
        | v6 bs ↦ rw (e, f, route_bytes) refl
      ]
    ]

-- The code gets past the slice only where the mask has at most 32 bits.
route_bytes-small :
    (a b c d w : ℕ) (gw : Option Ip) (here : List ℕ)
    → route_bytes (record { ip = v4 a b c d; ones = w }) gw ≡ ok here
    → w ≤ 32
unfolding route_bytes
route_bytes-small a b c d w gw here h = elim (Bool-cases (ltb 4 ((w - 1) / 8 + 1))) [
  | inl t ↦ let x = rw t at h in cc x
  | inr f ↦ ground (arith, f)
]

client_route : IpNet → Option Ip → List ClientRoute
client_route n gw = if is_v4 n.ip then (n.ones, n.ip, gateway_or_zero gw) ∷ [] else []

read_routes-route_bytes :
    (ip : Ip) (w : ℕ) (gw : Option Ip) (here bytes : List ℕ) (rs : List ClientRoute) (fuel : ℕ)
    → let n : IpNet = record { ip = ip; ones = w } in
      w ≢ 0
      → IsMasked n
      → GatewayFits n gw
      → route_bytes n gw ≡ ok here
      → ((f : ℕ) → fuel ≤ f → read_routes f bytes ≡ some rs)
      → read_routes (suc fuel) (here ++ bytes) ≡ some (client_route n gw ++ rs)
unfolding read_routes client_route
read_routes-route_bytes (v6 bs) w gw here bytes rs fuel nz m f made ih =
    unfold route_bytes in rw (← ok-injective made) (ih (suc fuel) (omega arith))
read_routes-route_bytes (v4 a b c d) w gw here bytes rs fuel nz m f made ih =
    let small = route_bytes-small a b c d w gw here made in
    let is = ok-injective (sym made ∙ route_bytes_lem a b c d w gw small) in
    rw (is, read_routes)
      (unfold read_route in
        simp (
          append_assoc,
          read-octets a b c d w (gateway_bytes gw ++ bytes) (omega arith) small m,
          gateway_of-bytes w (record { ip = v4 a b c d; ones = w }) gw bytes refl f,
          ih fuel (omega arith),
        ))

-- What a client should get: the IPv4 routes that parse, with their gateways.
pub client_routes : NetParsers → List Route → String → List ClientRoute
client_routes net [] gateway = []
client_routes net (r ∷ rs) gateway = elim (parse net r gateway) [
  | err e ↦ client_routes net rs gateway
  | ok (n, gw) ↦ client_route n gw ++ client_routes net rs gateway
]

-- Option 121 round trip: where net.ParseCIDR clears the bytes beyond the mask and the option is made
-- without an error or a panic, a client with more fuel than there are routes that reads the option as
-- RFC 3442 says gets exactly the IPv4 routes of the NIC, in order, each with its width, network and
-- gateway (0.0.0.0 for an on-link route).
pub classless_static_routes_round_trip :
    (net : NetParsers) (rs : List Route) (gateway : String) (bytes : List ℕ) (fuel : ℕ)
    → ((s : String) (n : IpNet) → net.parse_cidr s ≡ some n → IsMasked n)
    → classless_static_routes net rs gateway ≡ ok bytes
    → length rs < fuel
    → read_routes fuel bytes ≡ some (client_routes net rs gateway)
unfolding classless_static_routes client_routes read_routes
classless_static_routes_round_trip net rs gateway bytes zero masked e h = absurd (omega arith)
classless_static_routes_round_trip net [] gateway bytes (suc fuel) masked e h =
    rw (← ok-injective e) refl
classless_static_routes_round_trip net (r ∷ rs) gateway bytes (suc fuel) masked e h =
    let ((n, gw), parsed, e₁) = >>=-eq-ok (wrapping _ [] (parse net r gateway)) _ e in
    let (here, made, e₃) = >>=-eq-ok (route_bytes n gw) _ e₁ in
    let (rest, more, e₂) = >>=-eq-ok (classless_static_routes net rs gateway) _ e₃ in
    let p : parse net r gateway ≡ ok (n, gw) = wrapping-eq-ok _ [] (parse net r gateway) parsed in
    let safe = parse_is_safe net r gateway n gw p in
    rw (p, client_routes, ← ok-injective e₂)
      (read_routes-route_bytes n.ip n.ones gw here rest _ fuel safe.0
        (masked r.destination n safe.1) safe.2 made
        (λ f le.
          classless_static_routes_round_trip net rs gateway rest f masked more (omega arith)))
