-- ===== src/Bgp/Path/Builder/Merge.antt =====
-- `build` against `attributes`: the AS path that a peer without four-byte numbers gets, read back.
use sart.Common.{
  ℕ, suc, ◌+◌, ◌<◌, ◌≡◌, ◌≢◌, refl, sym, ap, ◌∙◌, true, false, some, List, [], ◌∷◌, if◌then◌else◌,
  not, ◌||◌, ltb, length, get_elem?, All, ok, arith, Bool-cases, inl, inr, ne→==,
}
use sart.Net.{Ipv4Addr, IpAddr}
use sart.Bgp.Packet.Attribute.{
  Attribute, Prefix, as_trans, as_2bytes_limit, new_as_path, new_as4_path, path_segments,
  is_optional, is_transitive, is_recognized, get_base,
}
use sart.Bgp.Path.{BgpPath, no_asns, filter_as4, filter_as2, trans_as4, as_attributes}
use sart.Bgp.Path.Builder.{
  PathBuilder, merge, builder, with_attr, read_attr, with_segments, with_segment, with_nlri,
  path_of, build,
}

-- The numbers that need four bytes stand in the second list from index `i` on.
abbrev FoundFrom : List ℕ → ℕ → List ℕ → Type 0
FoundFrom as4 i ns = (j : ℕ) → j < length ns → get_elem? as4 (i + j) ≡ get_elem? ns j

merge_from :
    (as4 seq : List ℕ) (i : ℕ)
    → All (λ n. n ≢ as_trans) seq
    → FoundFrom as4 i (filter_as4 seq)
    → merge as4 i (trans_as4 seq) ≡ ok (i + length (filter_as4 seq), seq)
unfolding merge filter_as4 trans_as4
merge_from as4 [] i h f = ap (λ n. ok (n, [])) (omega arith)
merge_from as4 (n ∷ ns) i h f = elim (Bool-cases (ltb as_2bytes_limit n)) [
  | inl long ↦ rw long (
      let f' = rw long at f in
      let here : get_elem? as4 i ≡ some n = ap (get_elem? as4) (omega arith) ∙ f' 0 (omega arith) in
      let rest =
        merge_from as4 ns (i + 1) h.1
          (λ j l. ap (get_elem? as4) (omega arith) ∙ f' (suc j) (omega arith)) in
      rw (here, rest) (ap (λ k. ok (k, n ∷ ns)) (omega arith)))
  | inr short ↦
      rw (short, ne→== n as_trans h.0)
        (let rest = merge_from as4 ns i h.1 (rw short at f) in rw rest refl)
]

-- An AS path that is split for a peer without four-byte numbers, into the list with AS_TRANS in
-- place of the long numbers and the list of the long numbers, is merged to the same path, if
-- AS_TRANS is not one of its numbers. The merge takes every long number.
pub merge-trans_as4 :
    (seq : List ℕ)
    → All (λ n. n ≢ as_trans) seq
    → merge (filter_as4 seq) 0 (trans_as4 seq) ≡ ok (length (filter_as4 seq), seq)
merge-trans_as4 seq h =
    merge_from (filter_as4 seq) seq 0 h (λ j l. ap (get_elem? (filter_as4 seq)) (omega arith))
    ∙ ap (λ k. ok (k, seq)) (omega arith)

module _ {N : Type 0} where
  -- The attributes of a message, one after the other.
  abbrev pub with_attrs : PathBuilder N → List (Attribute N) → PathBuilder N
  with_attrs b [] = b
  with_attrs b (attr ∷ attrs) = with_attrs (with_attr b attr) attrs

  -- What a builder holds of an AS path that was split.
  record Holds (b : PathBuilder N) (seq : List ℕ) : Type 0 where
    sequence : b.as_sequence ≡ trans_as4 seq
    no_set : b.as_set ≡ []
    long : b.as4_sequence ≡ filter_as4 seq
    no_nlri : b.nlri ≡ []

  read_two :
      (b : PathBuilder N) (seq four : List ℕ)
      → b.as_sequence ≡ []
      → b.as_set ≡ []
      → b.as4_sequence ≡ []
      → b.nlri ≡ []
      → filter_as4 seq ≡ four
      → Holds
          (with_attrs b (
            new_as_path (trans_as4 seq) [] true
            ∷ (if not (no_asns four) || false then new_as4_path four [] true ∷ [] else [])))
          seq
  unfolding with_attr read_attr with_segments with_segment new_as_path new_as4_path path_segments
      is_optional is_transitive is_recognized get_base
  read_two b seq [] s t f n e = record {
    sequence = rw s refl;
    no_set = t;
    long = f ∙ sym e;
    no_nlri = n;
  }
  read_two b seq (y ∷ ys) s t f n e = record {
    sequence = rw s refl;
    no_set = t;
    long = rw f (sym e);
    no_nlri = n;
  }

  build-Holds :
      (hash : PathBuilder N → ℕ) (now : ℕ) (b : PathBuilder N) (x : Prefix N) (seq : List ℕ)
      → Holds b seq
      → All (λ n. n ≢ as_trans) seq
      → let c = with_nlri b (x ∷ []) in build hash now c ≡ ok (path_of c (hash c) now seq [] x ∷ [])
  unfolding build merge
  build-Holds hash now b x seq g h =
      let merged : merge b.as4_sequence 0 b.as_sequence ≡ ok (length (filter_as4 seq), seq) =
        ap (λ a. merge a 0 b.as_sequence) g.long
        ∙ ap (merge (filter_as4 seq) 0) g.sequence
        ∙ merge-trans_as4 seq h in
      rw (merged, g.no_set, g.no_nlri) refl

  -- The AS path attributes that a path gives for a peer without four-byte numbers bring the AS path
  -- into a new builder, if the path has no AS set and AS_TRANS is not one of its numbers: `build`
  -- succeeds, and gives for one prefix one path, with that prefix and the same AS path.
  pub build-as_attributes :
      (hash : PathBuilder N → ℕ) (now : ℕ) (p : BgpPath N) (x : Prefix N)
      (local_id peer_id : Ipv4Addr) (local_asn peer_asn : ℕ) (peer_addr : IpAddr)
      → p.as_set ≡ []
      → All (λ n. n ≢ as_trans) p.as_sequence
      → let b =
          with_attrs
            (builder local_id local_asn peer_id peer_addr peer_asn)
            (as_attributes p false) in
        (q : BgpPath N) × (build hash now (with_nlri b (x ∷ [])) ≡ ok (q ∷ []))
        × (q.as_sequence ≡ p.as_sequence)
        × (q.as_set ≡ [])
        × (q.prefix ≡ x.inner)
  unfolding builder as_attributes filter_as2 filter_as4
  build-as_attributes hash now p x local_id peer_id local_asn peer_asn peer_addr e h =
      let start : PathBuilder N = builder local_id local_asn peer_id peer_addr peer_asn in
      let b = with_attrs start (as_attributes p false) in
      let g : Holds b p.as_sequence =
        rw e (read_two start p.as_sequence (filter_as4 p.as_sequence) refl refl refl refl refl) in
      (_, build-Holds hash now b x p.as_sequence g h, refl, refl, refl)
