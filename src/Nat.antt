-- ===== src/Nat.antt =====
-- engine/internal/nat/nat.go: the external endpoint and the addresses of the local network. What
-- `net.ParseIP` and `IP.String` do are parameters.
pub mod Public
use syncy.Base.{
  ℕ, ◌+◌, ◌/◌, ◌%◌, ◌^◌, Bytes, Bool, true, false, not, List, [], ◌∷◌, ◌++◌, ◌==◌, ◌&&◌, ◌||◌,
  nat_eq, list_eq, Option, none, some, if◌then◌else◌, str, leb, length, drop, take, replicate,
}
use syncy.Versioning.{itoa}

-- `net.IP`: 4 bytes or 16.
abbrev pub Ip : Type 0
Ip = Bytes

abbrev pub mapped_prefix : Bytes
mapped_prefix = 0 ∷ 0 ∷ 0 ∷ 0 ∷ 0 ∷ 0 ∷ 0 ∷ 0 ∷ 0 ∷ 0 ∷ 255 ∷ 255 ∷ []

-- `IP.To4`
unfoldable pub to4 : Ip → Option Ip
to4 ip =
    if length ip == 4
    then some ip
    else if (length ip == 16) && (take 12 ip == mapped_prefix)
    then some (drop 12 ip)
    else none

abbrev pub ip_byte : ℕ → Ip → ℕ
ip_byte i ip = elim (drop i ip) [ [] ↦ 0 | b ∷ bs ↦ b ]

-- A test on the four bytes of an address, or on the sixteen.
abbrev pub by_version : Option Ip → (Ip → Bool) → Bool → Bool
by_version (some v4) test4 test6 = test4 v4
by_version none test4 test6 = test6

unfoldable pub is_unspecified : Ip → Bool
unfolding to4
is_unspecified ip = by_version (to4 ip) (λ v. v == 0 ∷ 0 ∷ 0 ∷ 0 ∷ []) (ip == replicate 16 0)

unfoldable pub is_loopback : Ip → Bool
unfolding to4
is_loopback ip = by_version (to4 ip) (λ v. ip_byte 0 v == 127) (ip == replicate 15 0 ++ 1 ∷ [])

unfoldable pub is_private : Ip → Bool
unfolding to4
is_private ip =
    by_version (to4 ip)
      (λ v.
        (ip_byte 0 v == 10)
        || ((ip_byte 0 v == 172) && (ip_byte 1 v / 16 == 1))
        || ((ip_byte 0 v == 192) && (ip_byte 1 v == 168)))
      ((length ip == 16) && (ip_byte 0 ip / 2 == 126))

unfoldable pub is_link_local_multicast : Ip → Bool
unfolding to4
is_link_local_multicast ip =
    by_version (to4 ip) (λ v. (ip_byte 0 v == 224) && (ip_byte 1 v == 0) && (ip_byte 2 v == 0))
      ((length ip == 16) && (ip_byte 0 ip == 255) && (ip_byte 1 ip % 16 == 2))

unfoldable pub is_link_local_unicast : Ip → Bool
unfolding to4
is_link_local_unicast ip =
    by_version (to4 ip) (λ v. (ip_byte 0 v == 169) && (ip_byte 1 v == 254))
      ((length ip == 16) && (ip_byte 0 ip == 254) && (ip_byte 1 ip / 64 == 2))

unfoldable pub is_multicast : Ip → Bool
unfolding to4
is_multicast ip =
    by_version (to4 ip) (λ v. ip_byte 0 v / 16 == 14) ((length ip == 16) && (ip_byte 0 ip == 255))

unfoldable pub is_broadcast : Ip → Bool
unfolding to4
is_broadcast ip = by_version (to4 ip) (λ v. v == 255 ∷ 255 ∷ 255 ∷ 255 ∷ []) false

unfoldable pub is_global_unicast : Ip → Bool
unfolding is_broadcast is_unspecified is_loopback is_multicast is_link_local_unicast
is_global_unicast ip =
    ((length ip == 4) || (length ip == 16))
    && not (is_broadcast ip)
    && not (is_unspecified ip)
    && not (is_loopback ip)
    && not (is_multicast ip)
    && not (is_link_local_unicast ip)

-- The test of the carrier's shared addresses in `publicIP`.
abbrev pub shared_range : Option Ip → Bool
shared_range none = false
shared_range (some v) = (ip_byte 0 v == 100) && (leb 64 (ip_byte 1 v) && leb (ip_byte 1 v) 127)

-- `publicIP`, of an address that may be nil.
unfoldable pub public_ip : Option Ip → Bool
unfolding is_loopback is_private is_link_local_unicast is_link_local_multicast is_unspecified to4
public_ip none = false
public_ip (some ip) =
    if is_loopback ip
      || is_private ip
      || is_link_local_unicast ip
      || is_link_local_multicast ip
      || is_unspecified ip
    then false
    else not (shared_range (to4 ip))

-- `net.JoinHostPort`
abbrev pub has_colon : Bytes → Bool
has_colon [] = false
has_colon (c ∷ s) = (c == b':') || (c == b'%') || has_colon s

-- `Endpoint`
unfoldable pub endpoint : Bytes → ℕ → Bytes
unfolding itoa
endpoint host port =
    if has_colon host then b'[' ∷ host ++ (str "]:" ++ itoa port) else host ++ b':' ∷ itoa port

-- A router that speaks UPnP: the external address it reports, the local address it is reached
-- from, and whether it takes the mapping of a port for a local address.
pub record Igd : Type 0 where
  pub external : Option Bytes
  pub local_addr : Option Ip
  pub maps : ℕ → Bytes → Bool

-- A router that speaks NAT-PMP: the four bytes it reports, and the port it maps to.
pub record Pmp : Type 0 where
  pub external : Option Ip
  pub maps : ℕ → Option ℕ

module _ (parse_ip : Bytes → Option Ip) (print_ip : Ip → Bytes) where
  abbrev pub mapped : Igd → Ip → Option Ip → ℕ → Option Bytes → Option Bytes
  mapped c ip none port rest = rest
  mapped c ip (some addr) port rest =
      if c.maps (port % 2 ^ 16) (print_ip addr) then some (endpoint (print_ip ip) port) else rest

  abbrev pub usable : Igd → Option Ip → ℕ → Option Bytes → Option Bytes
  usable c none port rest = rest
  usable c (some ip) port rest =
      if not (public_ip (some ip)) then rest else mapped c ip c.local_addr port rest

  abbrev pub reported : Igd → Option Bytes → ℕ → Option Bytes → Option Bytes
  reported c none port rest = rest
  reported c (some ext) port rest = usable c (parse_ip ext) port rest

  unfoldable pub upnp_endpoint : List Igd → ℕ → Option Bytes
  unfolding public_ip endpoint
  upnp_endpoint [] port = none
  upnp_endpoint (c ∷ cs) port = reported c c.external port (upnp_endpoint cs port)

  abbrev pub pmp_mapped : Ip → Option ℕ → Option Bytes
  pmp_mapped ip none = none
  pmp_mapped ip (some port) = some (endpoint (print_ip ip) port)

  abbrev pub pmp_reported : Pmp → ℕ → Option Ip → Option Bytes
  pmp_reported c port none = none
  pmp_reported c port (some ip) =
      if not (public_ip (some ip)) then none else pmp_mapped ip (c.maps port)

  unfoldable pub pmp_endpoint : Option Pmp → ℕ → Option Bytes
  unfolding public_ip endpoint
  pmp_endpoint none port = none
  pmp_endpoint (some c) port = pmp_reported c port c.external

  abbrev pub first_of : Option Bytes → Option Bytes → Option Bytes
  first_of (some ep) other = some ep
  first_of none other = other

  -- `ExternalEndpoint`
  unfoldable pub external_endpoint : List Igd → Option Pmp → ℕ → Option Bytes
  unfolding upnp_endpoint pmp_endpoint
  external_endpoint igds pmp port = first_of (upnp_endpoint igds port) (pmp_endpoint pmp port)

  -- `filterLANIPs`; an address that is not an `IPNet` is none.
  abbrev pub lan_text : Ip → Option Ip → List Bytes → List Bytes
  lan_text ip (some v4) rest = print_ip v4 ∷ rest
  lan_text ip none rest = if is_global_unicast ip then print_ip ip ∷ rest else rest

  abbrev pub add_lan : Option Ip → List Bytes → List Bytes
  add_lan none rest = rest
  add_lan (some ip) rest =
      if is_loopback ip
        || is_link_local_unicast ip
        || is_link_local_multicast ip
        || is_unspecified ip
      then rest
      else lan_text ip (to4 ip) rest

  unfoldable pub filter_lan_ips : List (Option Ip) → List Bytes
  unfolding is_loopback is_link_local_unicast is_link_local_multicast is_unspecified
      is_global_unicast to4
  filter_lan_ips [] = []
  filter_lan_ips (a ∷ as') = add_lan a (filter_lan_ips as')
