-- ===== src/Bgp/Packet/Buffer/Loops.antt =====
-- The fuel of the reading loops.
use sart.Common.{
  ℕ, zero, suc, ◌<◌, ◌≡◌, refl, Bool, true, false, List, [], ◌∷◌, length, Outcome, ok, err, panic,
  ◌>>=◌, arith, Bool-cases, inl, inr,
}
use sart.Bgp.Packet.Buffer.{Reader, read_while}

module _ {A E : Type 0} (read : Reader E A) where
  -- A successful round leaves fewer bytes.
  abbrev pub Shrinks : Type 0
  Shrinks = (d rest : List ℕ) (a : A) → read d ≡ ok (a, rest) → length rest < length d

-- `while more(data.remaining()) { push(read(data)?) }` as it runs, with no fuel: a run that ends has a
-- derivation, and it ends in the result. A loop that takes no byte for ever has none.
pub data Runs {E A : Type 0} (more : ℕ → Bool) (read : Reader E A)
    : List ℕ → Outcome E (List A × List ℕ) → Type 0 where
  stop : (d : List ℕ) → more (length d) ≡ false → Runs more read d (ok ([], d))
  refuse : (d : List ℕ) (x : E) → more (length d) ≡ true → read d ≡ err x → Runs more read d (err x)
  crash : (d : List ℕ) → more (length d) ≡ true → read d ≡ panic → Runs more read d panic
  round_of :
      (d rest : List ℕ) (a : A) (o : Outcome E (List A × List ℕ))
      → more (length d) ≡ true
      → read d ≡ ok (a, rest)
      → Runs more read rest o
      → Runs more read d (o >>= λ s. ok (a ∷ s.0, s.1))

module _ {A E : Type 0} (more : ℕ → Bool) (read : Reader E A) where
  round-Runs :
      (d : List ℕ) (o : Outcome E (A × List ℕ)) (next : Reader E (List A))
      → more (length d) ≡ true
      → read d ≡ o
      → ((rest : List ℕ) (a : A) → o ≡ ok (a, rest) → Runs more read rest (next rest))
      → Runs more read d (o >>= λ r. next r.1 >>= λ s. ok (r.0 ∷ s.0, s.1))
  round-Runs d (ok (a, rest)) next m e h = Runs.round_of d rest a (next rest) m e (h rest a refl)
  round-Runs d (err x) next m e h = Runs.refuse d x m e
  round-Runs d panic next m e h = Runs.crash d m e

  -- With a fuel above the number of bytes the result is that of a run that ends.
  pub read_while-Runs :
      Shrinks read
      → (f : ℕ) (d : List ℕ) → length d < f
      → Runs more read d (read_while more read f d)
  unfolding read_while
  read_while-Runs s zero d h = absurd (omega arith)
  read_while-Runs s (suc f) d h = elim (Bool-cases (more (length d))) [
    | inl e ↦
        rw (read_while, e)
          (round-Runs d (read d) (read_while more read f) e refl
            (λ rest a q. let l = s d rest a q in read_while-Runs s f rest (omega (arith, h, l))))
    | inr e ↦ rw (read_while, e) (Runs.stop d e)
  ]
