-- ===== src/Bgp/Family.antt =====
-- sartd/src/bgp/src/family.rs: address families and their numbers.
pub mod RoundTrip
mod Tests
use Prim.Native.String.{String}
use sart.Common.{
  ◌≡◌, ◌↔◌, refl, ℕ, ◌+◌, ◌*◌, ◌/◌, ◌%◌, ◌^◌, Bool, true, false, ◌==◌, if◌then◌else◌, Outcome, ok,
  err, ◌>>=◌, Eq,
}

pub data Afi : Type 0 where
  ipv4 ipv6 : Afi

pub data Safi : Type 0 where
  unicast multicast : Safi

pub record AddressFamily : Type 0 where
  pub afi : Afi
  pub safi : Safi

unfoldable pub afi_try_from : ℕ → Outcome String Afi
afi_try_from value =
    if value == 1 then ok Afi.ipv4 else if value == 2 then ok Afi.ipv6 else err "invalid AFI"

unfoldable pub afi_number : Afi → ℕ
afi_number Afi.ipv4 = 1
afi_number Afi.ipv6 = 2

unfoldable pub afi_inet : Afi → ℕ
afi_inet Afi.ipv4 = 2
afi_inet Afi.ipv6 = 10

unfoldable pub safi_try_from : ℕ → Outcome String Safi
safi_try_from value =
    if value == 1
    then ok Safi.unicast
    else if value == 2
    then ok Safi.multicast
    else err "unsupported SAFI number"

unfoldable pub safi_number : Safi → ℕ
safi_number Safi.unicast = 1
safi_number Safi.multicast = 2

unfoldable pub safi_inet : Safi → ℕ
safi_inet Safi.unicast = 1
safi_inet Safi.multicast = 5

-- `AddressFamily::new`
unfoldable pub family_new : ℕ → ℕ → Outcome String AddressFamily
unfolding afi_try_from safi_try_from
family_new afi safi = do
  a ← afi_try_from afi
  s ← safi_try_from safi
  ok (record { afi = a; safi = s })

abbrev pub ipv4_unicast : AddressFamily
ipv4_unicast = record { afi = Afi.ipv4; safi = Safi.unicast }

abbrev pub ipv6_unicast : AddressFamily
ipv6_unicast = record { afi = Afi.ipv6; safi = Safi.unicast }

-- `TryFrom<u32>`: the upper half is the AFI, the lowest byte the SAFI.
unfoldable pub family_try_from : ℕ → Outcome String AddressFamily
unfolding afi_try_from safi_try_from
family_try_from value = do
  a ← afi_try_from (value / 2 ^ 16 % 2 ^ 16)
  s ← safi_try_from (value % 2 ^ 8)
  ok (record { afi = a; safi = s })

-- `From<AddressFamily> for u32`
unfoldable pub family_number : AddressFamily → ℕ
unfolding afi_number safi_number
family_number f = (afi_number f.afi * 2 ^ 16 + safi_number f.safi) % 2 ^ 32

Afi-discrete : Discrete Afi
Afi-discrete = hlevel

unfoldable pub afi_eq : Afi → Afi → Bool
afi_eq Afi.ipv4 Afi.ipv4 = true
afi_eq Afi.ipv4 Afi.ipv6 = false
afi_eq Afi.ipv6 Afi.ipv4 = false
afi_eq Afi.ipv6 Afi.ipv6 = true

pub afi_eq_iff : (a b : Afi) → (afi_eq a b ≡ true) ↔ (a ≡ b)
unfolding afi_eq
afi_eq_iff Afi.ipv4 Afi.ipv4 = (λ _. refl, λ _. refl)
afi_eq_iff Afi.ipv4 Afi.ipv6 = (λ e. cc, λ e. cc)
afi_eq_iff Afi.ipv6 Afi.ipv4 = (λ e. cc, λ e. cc)
afi_eq_iff Afi.ipv6 Afi.ipv6 = (λ _. refl, λ _. refl)
