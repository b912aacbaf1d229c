-- ===== src/Bgp/Family/RoundTrip.antt =====
-- The numbers of address families, there and back.
use sart.Common.{ℕ, ◌≡◌, refl, ok, arith}
use sart.Bgp.Family.{
  Afi, Safi, AddressFamily, afi_number, safi_number, family_new, family_try_from, family_number,
}

-- A family comes back from its `u32`, and from the pair of numbers that stand in a packet.
pub family_try_from-family_number :
    (f : AddressFamily)
    → (family_try_from (family_number f) ≡ ok f)
      × (family_new (afi_number f.afi) (safi_number f.safi) ≡ ok f)
unfolding family_try_from family_number family_new
family_try_from-family_number f = go f.afi f.safi
  where
    go :
        (a : Afi) (s : Safi)
        → let f : AddressFamily = record { afi = a; safi = s } in
          (family_try_from (family_number f) ≡ ok f)
          × (family_new (afi_number a) (safi_number s) ≡ ok f)
    go Afi.ipv4 Safi.unicast = (refl, refl)
    go Afi.ipv4 Safi.multicast = (refl, refl)
    go Afi.ipv6 Safi.unicast = (refl, refl)
    go Afi.ipv6 Safi.multicast = (refl, refl)

-- A pair of numbers is accepted only as the numbers of the family that it gives.
pub family_new-numbers :
    (afi safi : ℕ) (f : AddressFamily)
    → family_new afi safi ≡ ok f
    → (afi ≡ afi_number f.afi) × (safi ≡ safi_number f.safi)
unfolding family_new afi_number safi_number
family_new-numbers afi safi f h = ground arith
