-- ===== src/Net/Equality.antt =====
-- Addresses compared by `==`, as `IpAddr` derives it.
use sart.Common.{ℕ, ◌≡◌, refl, Bool, true, false, List, [], ◌∷◌, Eq, ◌==◌, ◌&&◌, ◌↔◌, arith}
use sart.Net.{Ipv4Addr, IpAddr}

unfoldable pub octets_eq : List ℕ → List ℕ → Bool
octets_eq [] [] = true
octets_eq (x ∷ xs) (y ∷ ys) = x == y && octets_eq xs ys
octets_eq _ _ = false

octets_eq_iff : (xs ys : List ℕ) → (octets_eq xs ys ≡ true) ↔ (xs ≡ ys)
unfolding octets_eq
octets_eq_iff [] [] = (λ _. refl, λ _. refl)
octets_eq_iff [] (y ∷ ys) = ground arith
octets_eq_iff (x ∷ xs) [] = ground arith
octets_eq_iff (x ∷ xs) (y ∷ ys) = ground (arith, octets_eq_iff xs ys)

abbrev pub ipv4_eq : Ipv4Addr → Ipv4Addr → Bool
ipv4_eq x y = x.a == y.a && x.b == y.b && x.c == y.c && x.d == y.d

abbrev pub addr_eq : IpAddr → IpAddr → Bool
addr_eq (IpAddr.v4 x) (IpAddr.v4 y) = ipv4_eq x y
addr_eq (IpAddr.v4 x) (IpAddr.v6 y) = false
addr_eq (IpAddr.v6 x) (IpAddr.v4 y) = false
addr_eq (IpAddr.v6 x) (IpAddr.v6 y) = octets_eq x.octets y.octets

pub addr_eq_iff : (x y : IpAddr) → (addr_eq x y ≡ true) ↔ (x ≡ y)
addr_eq_iff (IpAddr.v4 x) (IpAddr.v4 y) = ground arith
addr_eq_iff (IpAddr.v4 x) (IpAddr.v6 y) = ground arith
addr_eq_iff (IpAddr.v6 x) (IpAddr.v4 y) = ground arith
addr_eq_iff (IpAddr.v6 x) (IpAddr.v6 y) = ground (arith, octets_eq_iff x.octets y.octets)

pub ipv4_eq_iff : (x y : Ipv4Addr) → (ipv4_eq x y ≡ true) ↔ (x ≡ y)
ipv4_eq_iff x y = ground arith

instance abbrev pub addr-Eq : Eq IpAddr
addr-Eq = record { beq = addr_eq; beq_iff = addr_eq_iff }

instance abbrev pub ipv4-Eq : Eq Ipv4Addr
ipv4-Eq = record { beq = ipv4_eq; beq_iff = ipv4_eq_iff }
