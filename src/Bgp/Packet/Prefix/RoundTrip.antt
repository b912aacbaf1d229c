-- ===== src/Bgp/Packet/Prefix/RoundTrip.antt =====
-- Prefixes that were written are read back, and lengths that no address has end in a panic.
use sart.Common.{
  ℕ, zero, suc, ◌+◌, ◌*◌, ◌^◌, ◌≤◌, ◌<◌, ◌≡◌, refl, ap, ◌∙◌, subst, Bool, true, false, Option, none,
  some, List, [], ◌∷◌, ◌++◌, length, length-append, replicate, Outcome, ok, panic, ◌>>=◌,
  bind_assoc, arith,
}
use mathlib.Core.List.{append_assoc}
use sart.Net.{IpNet}
use sart.Bgp.Error.{Error}
use sart.Bgp.Family.{Afi, AddressFamily}
use sart.Bgp.Packet.Attribute.{Prefix}
use sart.Bgp.Packet.Buffer.{get_be, put, take_bytes}
use sart.Bgp.Packet.Buffer.RoundTrip.{get_be-put, length-be_bytes}
use sart.Bgp.Packet.Prefix.{
  WireOps, WireLaws, prefix_bytes_len, fill, octets4, decode_net, decode_prefix, net_bytes,
  encode_prefix, prefix_len, net_len, id_len, path_id_bytes,
}

-- The octets with zeros behind the first `count`.
abbrev pub trim : ℕ → List ℕ → List ℕ
trim zero os = replicate (length os) 0
trim (suc n) [] = []
trim (suc n) (x ∷ os) = x ∷ trim n os

fill-take_bytes :
    {E : Type 0} (count : ℕ) (os rest : List ℕ)
    → count ≤ length os
    → fill {E = E} (length os) count ((take_bytes count os).0 ++ rest) ≡ ok (trim count os, rest)
unfolding fill take_bytes
fill-take_bytes zero os rest h = refl
fill-take_bytes (suc n) [] rest h = absurd (omega arith)
fill-take_bytes {E} (suc n) (x ∷ os) rest h =
    rw (fill-take_bytes {E = E} n os rest (omega arith)) refl

-- The same, for the number of octets.
fill_room :
    {E : Type 0} (room count : ℕ) (os rest : List ℕ)
    → length os ≡ room
    → count ≤ room
    → trim count os ≡ os
    → fill {E = E} room count ((take_bytes count os).0 ++ rest) ≡ ok (os, rest)
fill_room {E} room count os rest size h t =
    subst (λ j. fill {E = E} j count ((take_bytes count os).0 ++ rest) ≡ ok (trim count os, rest))
      size (fill-take_bytes count os rest (omega (arith, size, h)))
    ∙ ap (λ o. ok (o, rest)) t

length-take_bytes :
    (count : ℕ) (os : List ℕ) → count ≤ length os → length (take_bytes count os).0 ≡ count
unfolding take_bytes
length-take_bytes zero os h = refl
length-take_bytes (suc n) [] h = absurd (omega arith)
length-take_bytes (suc n) (x ∷ os) h = ap suc (length-take_bytes n os (omega arith))

fill_past :
    {E : Type 0} (room count : ℕ) (d : List ℕ) → room < count → fill {E = E} room count d ≡ panic
unfolding fill
fill_past room zero d h = absurd (omega arith)
fill_past zero (suc count) d h = refl
fill_past (suc room) (suc count) [] h = refl
fill_past {E} (suc room) (suc count) (x ∷ d) h =
    rw (fill_past {E = E} room count d (omega arith)) refl

bytes_len-le : (n k : ℕ) → n ≤ 8 * k → prefix_bytes_len n ≤ k
unfolding prefix_bytes_len
bytes_len-le n k h = ground arith

bytes_len-gt : (n k : ℕ) → 8 * k < n → k < prefix_bytes_len n
unfolding prefix_bytes_len
bytes_len-gt n k h = ground arith

module _ {N4 N6 : Type 0} (net : WireOps N4 N6) (laws : WireLaws net) where
  -- The network is of the family, and its address has no bits behind the bytes that are written.
  abbrev pub IsSendable : Afi → IpNet N4 N6 → Type 0
  IsSendable Afi.ipv4 (IpNet.v4 n) =
      trim (prefix_bytes_len (net.len4 n)) (octets4 (net.addr4 n)) ≡ octets4 (net.addr4 n)
  IsSendable Afi.ipv6 (IpNet.v6 n) =
      trim (prefix_bytes_len (net.len6 n)) (net.addr6 n).octets ≡ (net.addr6 n).octets
  IsSendable Afi.ipv4 (IpNet.v6 n) = ⊥
  IsSendable Afi.ipv6 (IpNet.v4 n) = ⊥

  -- An identifier is there exactly if it is expected, and has four bytes.
  abbrev pub IsPathId : Bool → Option ℕ → Type 0
  IsPathId true (some id) = id < 2 ^ 32
  IsPathId false none = Unit {0}
  IsPathId true none = ⊥
  IsPathId false (some id) = ⊥

  decode_net-net_bytes :
      (afi : Afi) (n : IpNet N4 N6) (rest : List ℕ)
      → IsSendable afi n
      → (get_be 1 0 (net_bytes net n ++ rest) >>= λ l. decode_net net afi l.0 l.1) ≡ ok (n, rest)
  unfolding decode_net net_bytes
  decode_net-net_bytes Afi.ipv4 (IpNet.v4 n) rest h =
      let count = prefix_bytes_len (net.len4 n) in
      let le = laws.len4-le n in
      rw
        (
          append_assoc (put 1 (net.len4 n)) (take_bytes count (octets4 (net.addr4 n))).0 rest,
          get_be-put {E = Error} 1 (net.len4 n)
              ((take_bytes count (octets4 (net.addr4 n))).0 ++ rest) (omega (arith, le)),
          decode_net,
          fill_room {E = Error} 4 count (octets4 (net.addr4 n)) rest refl
              (bytes_len-le (net.len4 n) 4 le) h,
          laws.new4-addr4 n,
        )
        refl
  decode_net-net_bytes Afi.ipv6 (IpNet.v6 n) rest h =
      let count = prefix_bytes_len (net.len6 n) in
      let le = laws.len6-le n in
      rw
        (
          append_assoc (put 1 (net.len6 n)) (take_bytes count (net.addr6 n).octets).0 rest,
          get_be-put {E = Error} 1 (net.len6 n) ((take_bytes count (net.addr6 n).octets).0 ++ rest)
              (omega (arith, le)),
          decode_net,
          fill_room {E = Error} 16 count (net.addr6 n).octets rest (laws.addr6-IsIpv6 n).sixteen
              (bytes_len-le (net.len6 n) 16 le) h,
          laws.new6-addr6 n,
        )
        refl
  decode_net-net_bytes Afi.ipv4 (IpNet.v6 n) rest h = absurd h
  decode_net-net_bytes Afi.ipv6 (IpNet.v4 n) rest h = absurd h

  abbrev read_prefix :
      IpNet N4 N6 → Option ℕ → List ℕ → Outcome Error (Prefix (IpNet N4 N6) × List ℕ)
  read_prefix n id rest = ok (record { inner = n; path_id = id }, rest)

  -- The network behind an identifier that was read.
  net_behind :
      (family : AddressFamily) (n : IpNet N4 N6) (id : Option ℕ) (rest : List ℕ)
      → IsSendable family.afi n
      → (get_be 1 0 (net_bytes net n ++ rest) >>= λ l.
          decode_net net family.afi l.0 l.1 >>= λ m. read_prefix m.0 id m.1)
        ≡ read_prefix n id rest
  net_behind family n id rest s =
      bind_assoc (get_be 1 0 (net_bytes net n ++ rest)) (λ l. decode_net net family.afi l.0 l.1)
        (λ m. read_prefix m.0 id m.1)
      ∙ rw (decode_net-net_bytes family.afi n rest s) refl

  parts :
      (family : AddressFamily) (add_path_enabled : Bool) (n : IpNet N4 N6) (id : Option ℕ)
      (rest : List ℕ)
      → IsSendable family.afi n
      → IsPathId add_path_enabled id
      → decode_prefix net family add_path_enabled
          (encode_prefix net (record { inner = n; path_id = id }) ++ rest)
        ≡ ok (record { inner = n; path_id = id }, rest)
  unfolding decode_prefix encode_prefix
  parts family true n (some id) rest s i =
      rw
        (
          append_assoc (put 4 id) (net_bytes net n) rest,
          get_be-put {E = Error} 4 id (net_bytes net n ++ rest) i,
        )
        (net_behind family n (some id) rest s)
  parts family false n none rest s i = net_behind family n none rest s
  parts family true n none rest s i = absurd i
  parts family false n (some id) rest s i = absurd i

  -- A prefix is read back from the bytes that it is written to, with what follows it: for the family
  -- of its network, the setting of path identifiers that it was made for, and a network without bits
  -- behind the bytes that its length counts.
  pub decode_prefix-encode_prefix :
      (family : AddressFamily) (add_path_enabled : Bool) (p : Prefix (IpNet N4 N6)) (rest : List ℕ)
      → IsSendable family.afi p.inner
      → IsPathId add_path_enabled p.path_id
      → decode_prefix net family add_path_enabled (encode_prefix net p ++ rest) ≡ ok (p, rest)
  decode_prefix-encode_prefix family add_path_enabled p rest s i =
      parts family add_path_enabled p.inner p.path_id rest s i

  length-net_bytes :
      (n : IpNet N4 N6) → length (net_bytes net n) ≡ 1 + prefix_bytes_len (net_len net n)
  unfolding net_bytes
  length-net_bytes (IpNet.v4 n) =
      let octets = (take_bytes (prefix_bytes_len (net.len4 n)) (octets4 (net.addr4 n))).0 in
      let le = bytes_len-le (net.len4 n) 4 (laws.len4-le n) in
      omega (
        arith,
        length-append (put 1 (net.len4 n)) octets,
        length-be_bytes 1 (net.len4 n) [],
        length-take_bytes (prefix_bytes_len (net.len4 n)) (octets4 (net.addr4 n)) le,
      )
  length-net_bytes (IpNet.v6 n) =
      let octets = (take_bytes (prefix_bytes_len (net.len6 n)) (net.addr6 n).octets).0 in
      let le = bytes_len-le (net.len6 n) 16 (laws.len6-le n) in
      let sixteen = (laws.addr6-IsIpv6 n).sixteen in
      omega (
        arith,
        length-append (put 1 (net.len6 n)) octets,
        length-be_bytes 1 (net.len6 n) [],
        length-take_bytes (prefix_bytes_len (net.len6 n)) (net.addr6 n).octets
            (omega (arith, le, sixteen)),
      )

  length-id_bytes :
      (id : Option ℕ) (n : ℕ) → length (path_id_bytes id) + (1 + n) ≡ id_len net id + n
  length-id_bytes none n = omega arith
  length-id_bytes (some id) n = omega (arith, length-be_bytes 4 id [])

  -- The length that a prefix states is the number of bytes that it is written to.
  pub length-encode_prefix :
      (p : Prefix (IpNet N4 N6)) → length (encode_prefix net p) ≡ prefix_len net p
  unfolding encode_prefix prefix_len
  length-encode_prefix p =
      length-append (path_id_bytes p.path_id) (net_bytes net p.inner)
      ∙ rw (length-net_bytes p.inner)
          (length-id_bytes p.path_id (prefix_bytes_len (net_len net p.inner)))

  id_len_pos : (id : Option ℕ) → 0 < id_len net id
  id_len_pos none = omega arith
  id_len_pos (some id) = omega arith

  pub encode_prefix_pos : (p : Prefix (IpNet N4 N6)) → 0 < length (encode_prefix net p)
  unfolding prefix_len
  encode_prefix_pos p = omega (arith, length-encode_prefix p, id_len_pos p.path_id)

  abbrev pub max_len : Afi → ℕ
  max_len Afi.ipv4 = 32
  max_len Afi.ipv6 = 128

  decode_net_past :
      (afi : Afi) (l : ℕ) (d : List ℕ) → max_len afi < l → decode_net net afi l d ≡ panic
  unfolding decode_net
  decode_net_past Afi.ipv4 l d h =
      rw (fill_past {E = Error} 4 (prefix_bytes_len l) d (bytes_len-gt l 4 h)) refl
  decode_net_past Afi.ipv6 l d h =
      rw (fill_past {E = Error} 16 (prefix_bytes_len l) d (bytes_len-gt l 16 h)) refl

  -- A length byte above that of the family's addresses ends the decoding in a panic, whatever follows.
  pub decode_prefix_past :
      (family : AddressFamily) (l : ℕ) (d : List ℕ)
      → max_len family.afi < l
      → decode_prefix net family false (l ∷ d) ≡ panic
  unfolding decode_prefix get_be
  decode_prefix_past family l d h =
      rw (decode_net_past family.afi (0 + l) d (omega (arith, h))) refl
