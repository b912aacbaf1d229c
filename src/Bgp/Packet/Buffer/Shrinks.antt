-- ===== src/Bgp/Packet/Buffer/Shrinks.antt =====
-- What the readers leave of a buffer.
use sart.Common.{
  ℕ, zero, suc, ◌+◌, ◌*◌, ◌≤◌, ◌≡◌, List, [], ◌∷◌, length, Always, bind-Always, Always-map, arith,
}
use sart.Bgp.Packet.Buffer.{Reader, get_be, read_times}

-- No more bytes than before.
abbrev pub Keeps : {E A : Type 0} → Reader E A → Type 0
Keeps read = (d : List ℕ) → Always (λ r. length r.1 ≤ length d) (read d)

pub get_be_shrinks :
    (E : Type 0) (k acc : ℕ) (d : List ℕ)
    → Always (λ r. length r.1 + k ≡ length d) (get_be {E = E} k acc d)
unfolding get_be
get_be_shrinks E zero acc d = omega arith
get_be_shrinks E (suc k) acc [] = tt
get_be_shrinks E (suc k) acc (x ∷ d) =
    Always-map (λ r. length r.1 + k ≡ length d) (λ r. length r.1 + suc k ≡ suc (length d))
      (get_be k (acc * 256 + x) d) (get_be_shrinks E k (acc * 256 + x) d) (λ r h. omega (arith, h))

pub read_times-Keeps :
    {E A : Type 0} (read : Reader E A) (n : ℕ) → Keeps read → Keeps (read_times n read)
unfolding read_times
read_times-Keeps read zero h d = omega arith
read_times-Keeps read (suc n) h d =
    bind-Always (λ r. length r.1 ≤ length d) (λ r. length r.1 ≤ length d) (read d) _ (h d)
      (λ r l.
        bind-Always (λ s. length s.1 ≤ length r.1) (λ s. length s.1 ≤ length d)
          (read_times n read r.1) _ (read_times-Keeps read n h r.1) (λ s k. omega (arith, l, k)))
