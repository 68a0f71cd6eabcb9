-- ===== src/Examples/Reach.antt =====
-- A router that maps a port, a public address, and a tick of the dialing loop.
use syncy.Base.{
  ℕ, Bytes, Bool, true, false, List, [], ◌∷◌, ◌++◌, ◌≡◌, refl, Option, none, some, str, All, nat_eq,
  list_eq,
}
use syncy.Core.{Device, DiscoverySettings, zero_time}
use syncy.Daemon.Dialing.{Allowed, remote_tick, remote_tick-Allowed}
use syncy.Nat.{Ip, Igd, to4, public_ip, external_endpoint}
use syncy.Nat.Public.{Announced, Unlisted, external_endpoint-Announced, public_ip-Unlisted}

abbrev parse_ip : Bytes → Option Ip
parse_ip text = some (93 ∷ 184 ∷ 216 ∷ 34 ∷ [])

abbrev print_ip : Ip → Bytes
print_ip ip = str "93.184.216.34"

abbrev router : Igd
router = record {
  external = some (str "93.184.216.34");
  local_addr = some (192 ∷ 168 ∷ 1 ∷ 2 ∷ []);
  maps = λ port host. true;
}

external_endpoint-Announced_example :
    Announced parse_ip print_ip (external_endpoint parse_ip print_ip (router ∷ []) none 22067)
external_endpoint-Announced_example =
    external_endpoint-Announced parse_ip print_ip (router ∷ []) none 22067

abbrev address : Ip
address = 93 ∷ 184 ∷ 216 ∷ 34 ∷ []

address-to4 : to4 address ≡ some address
unfolding to4 syncy.Base.ℕ_discrete
address-to4 = refl

address-public_ip : public_ip (some address) ≡ true
unfolding public_ip syncy.Base.ℕ_discrete list_eq
address-public_ip = refl

public_ip-Unlisted_example :
    (public_ip (some address) ≡ true → Unlisted 93 184 216 34)
    × (Unlisted 93 184 216 34 → public_ip (some address) ≡ true)
public_ip-Unlisted_example = public_ip-Unlisted address 93 184 216 34 address-to4

-- Multicast on the link and the unspecified address are refused.
link_multicast : public_ip (some (224 ∷ 0 ∷ 0 ∷ 251 ∷ [])) ≡ false
unfolding public_ip syncy.Base.ℕ_discrete list_eq
link_multicast = refl

abbrev device : Bytes → Bool → Bool → Device
device id trusted pending = record {
  id = id;
  name = id;
  trusted = trusted;
  pending_outgoing = pending;
  endpoints = str "93.184.216.34:22067" ∷ [];
  last_seen = zero_time;
  added_at = zero_time;
}

abbrev settings : DiscoverySettings
settings = record { local = true; internet = true }

abbrev devices : List Device
devices =
    device (str "A") true false
    ∷ device (str "B") true false
    ∷ device (str "C") false true
    ∷ device (str "D") false false
    ∷ []

remote_tick-Allowed_example :
    All
      (Allowed (str "A") settings devices)
      (remote_tick (str "A") settings devices (λ id. false)).0
remote_tick-Allowed_example = remote_tick-Allowed (str "A") settings devices (λ id. false)
