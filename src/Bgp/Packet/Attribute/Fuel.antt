-- ===== src/Bgp/Packet/Attribute/Fuel.antt =====
-- The reading loops end: each round takes bytes off the buffer, so the fuel that they are given, one more
-- than the number of bytes, does not run out.
use sart.Common.{
  ℕ, zero, suc, ◌+◌, ◌<◌, ◌≤◌, ◌≡◌, Bool, true, false, Option, none, some, List, [], ◌∷◌, length,
  ok_or, Always, bind-Always, Always-map, ok-Always, arith,
}
use sart.Bgp.Error.{Error}
use sart.Bgp.Family.{Afi, AddressFamily}
use sart.Bgp.Packet.Attribute.Decode.{get_asn, decode_segment}
use sart.Bgp.Packet.Buffer.{get_be, read_while, read_times}
use sart.Bgp.Packet.Buffer.Loops.{Runs, read_while-Runs}
use sart.Bgp.Packet.Buffer.Shrinks.{Keeps, get_be_shrinks, read_times-Keeps}
use sart.Bgp.Packet.Prefix.{
  WireOps, fill, prefix_bytes_len, from_octets4, get_path_id, decode_net, decode_prefix,
}

-- A buffer that a reader leaves has at least `k` bytes less.
abbrev Takes : {A : Type 0} → ℕ → List ℕ → A × List ℕ → Type 0
Takes k d r = k + length r.1 ≤ length d

get_be-Takes : (k : ℕ) (d : List ℕ) → Always (Takes k d) (get_be {E = Error} k 0 d)
get_be-Takes k d =
    Always-map (λ r. length r.1 + k ≡ length d) (Takes k d) (get_be k 0 d)
      (get_be_shrinks Error k 0 d) (λ r h. omega (arith, h))

get_asn-Keeps : (as4_enabled : Bool) → Keeps (get_asn as4_enabled)
unfolding get_asn
get_asn-Keeps true d =
    Always-map (Takes 4 d) (λ r. length r.1 ≤ length d) (get_be 4 0 d) (get_be-Takes 4 d)
      (λ r h. omega (arith, h))
get_asn-Keeps false d =
    Always-map (Takes 2 d) (λ r. length r.1 ≤ length d) (get_be 2 0 d) (get_be-Takes 2 d)
      (λ r h. omega (arith, h))

decode_segment-Takes :
    (as4_enabled : Bool) (d : List ℕ) → Always (Takes 2 d) (decode_segment as4_enabled d)
unfolding decode_segment
decode_segment-Takes as4_enabled d =
    bind-Always (Takes 1 d) (Takes 2 d) (get_be 1 0 d) _ (get_be-Takes 1 d) (λ t ht.
      bind-Always (Takes 1 t.1) (Takes 2 d) (get_be 1 0 t.1) _ (get_be-Takes 1 t.1) (λ n hn.
        bind-Always (λ s. length s.1 ≤ length n.1) (Takes 2 d)
          (read_times n.0 (get_asn as4_enabled) n.1) _
          (read_times-Keeps (get_asn as4_enabled) n.0 (get_asn-Keeps as4_enabled) n.1)
          (λ s hs. omega (arith, ht, hn, hs))))

fill-Takes : (room count : ℕ) (d : List ℕ) → Always (Takes 0 d) (fill {E = Error} room count d)
unfolding fill
fill-Takes room zero d = omega arith
fill-Takes zero (suc count) d = tt
fill-Takes (suc room) (suc count) [] = tt
fill-Takes (suc room) (suc count) (x ∷ d) =
    bind-Always (Takes 0 d) (Takes 0 (x ∷ d)) (fill room count d) _ (fill-Takes room count d)
      (λ r h. omega (arith, h))

ok_or-Always : {A : Type 0} (e : Error) (o : Option A) → Always (λ _. Unit {0}) (ok_or e o)
ok_or-Always e none = tt
ok_or-Always e (some a) = tt

module _ {N4 N6 : Type 0} (net : WireOps N4 N6) where
  decode_net-Takes : (afi : Afi) (l : ℕ) (d : List ℕ) → Always (Takes 0 d) (decode_net net afi l d)
  unfolding decode_net
  decode_net-Takes Afi.ipv4 l d =
      bind-Always (Takes 0 d) (Takes 0 d) (fill 4 (prefix_bytes_len l) d) _
        (fill-Takes 4 (prefix_bytes_len l) d)
        (λ r h.
          bind-Always (λ _. Unit) (Takes 0 d) (ok_or _ (net.new4 (from_octets4 r.0) l)) _
            (ok_or-Always _ _) (λ n _. h))
  decode_net-Takes Afi.ipv6 l d =
      bind-Always (Takes 0 d) (Takes 0 d) (fill 16 (prefix_bytes_len l) d) _
        (fill-Takes 16 (prefix_bytes_len l) d)
        (λ r h.
          bind-Always (λ _. Unit) (Takes 0 d) (ok_or _ (net.new6 (record { octets = r.0 }) l)) _
            (ok_or-Always _ _) (λ n _. h))

  get_path_id-Takes :
      (add_path_enabled : Bool) (d : List ℕ) → Always (Takes 0 d) (get_path_id add_path_enabled d)
  get_path_id-Takes true d =
      bind-Always (Takes 4 d) (Takes 0 d) (get_be 4 0 d) _ (get_be-Takes 4 d)
        (λ r h. omega (arith, h))
  get_path_id-Takes false d = omega arith

  decode_prefix-Takes :
      (family : AddressFamily) (add_path_enabled : Bool) (d : List ℕ)
      → Always (Takes 1 d) (decode_prefix net family add_path_enabled d)
  unfolding decode_prefix
  decode_prefix-Takes family add_path_enabled d =
      bind-Always (Takes 0 d) (Takes 1 d) (get_path_id add_path_enabled d) _
        (get_path_id-Takes add_path_enabled d)
        (λ p hp.
          bind-Always (Takes 1 p.1) (Takes 1 d) (get_be 1 0 p.1) _ (get_be-Takes 1 p.1) (λ l hl.
            bind-Always (Takes 0 l.1) (Takes 1 d) (decode_net net family.afi l.0 l.1) _
              (decode_net-Takes family.afi l.0 l.1) (λ n hn. omega (arith, hp, hl, hn))))

  -- The loops over AS segments and over prefixes end, whatever their condition and the bytes: with
  -- a fuel above the number of bytes, the result is that of a run of the loop without fuel, which
  -- goes from round to round until the condition is false, or the reading of a part fails or
  -- panics.
  pub read_while_ends :
      (more : ℕ → Bool) (as4_enabled : Bool) (family : AddressFamily) (add_path_enabled : Bool)
      (d : List ℕ) (f : ℕ)
      → length d < f
      → Runs more (decode_segment as4_enabled) d (read_while more (decode_segment as4_enabled) f d)
        × Runs more
            (decode_prefix net family add_path_enabled)
            d
            (read_while more (decode_prefix net family add_path_enabled) f d)
  read_while_ends more as4_enabled family add_path_enabled d f h = (
    read_while-Runs more (decode_segment as4_enabled)
        (λ d r a e.
          let t =
            ok-Always (Takes 2 d) (decode_segment as4_enabled d) (a, r)
              (decode_segment-Takes as4_enabled d) e in
          omega (arith, t))
        f d h,
    read_while-Runs more (decode_prefix net family add_path_enabled)
        (λ d r a e.
          let t =
            ok-Always (Takes 1 d) (decode_prefix net family add_path_enabled d) (a, r)
              (decode_prefix-Takes family add_path_enabled d) e in
          omega (arith, t))
        f d h,
  )
