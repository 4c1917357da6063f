-- ===== src/Args.antt =====
-- The command lines of src/main.cpp and of the tools. Each is read by the same loop over argv: a
-- known option takes the word behind it, if there is one, and any other word stands alone.
pub mod Generator
pub mod Settings
pub mod Bench
pub mod Receiver
use udp_multicast_receiver.Common.{
  ℕ, ◌≡◌, ◌∙◌, refl, ap, inl, inr, Option, none, some, Option-cases, List, [], ◌∷◌,
}

abbrev pub Text : Type 0
Text = List ℕ

-- Options with their words, and what stands behind them.
module _ {F : Type 0} where
  abbrev pub words : (F → Text) → List (F × Text) → List Text → List Text
  words name [] rest = rest
  words name ((f, word) ∷ xs) rest = name f ∷ word ∷ words name xs rest

module _ {O F : Type 0} (option_of : Text → Option F) (set : F → Text → O → Option O)
    (alone : Text → O → O) where
  -- `for (int i = 1; i < argc; ++i)`. The result is `none` if a conversion throws.
  unfoldable pub scan : List Text → O → Option O
  scan [] o = some o
  scan (word ∷ []) o = some (alone word o)
  scan (word ∷ next ∷ rest) o = elim (option_of word) [
    | none ↦ scan (next ∷ rest) (alone word o)
    | some f ↦ elim (set f next o) [ none ↦ none | some p ↦ scan rest p ]
  ]

  -- The options set one after the other.
  abbrev pub apply_all : List (F × Text) → O → Option O
  apply_all [] o = some o
  apply_all ((f, word) ∷ xs) o = elim (set f word o) [ none ↦ none | some p ↦ apply_all xs p ]

  module _ (name : F → Text) (named : (f : F) → option_of (name f) ≡ some f) where
    pub scan-words :
        (xs : List (F × Text)) (rest : List Text) (o p : O)
        → apply_all xs o ≡ some p
        → scan (words name xs rest) o ≡ scan rest p
    unfolding scan
    scan-words [] rest o p e = ap (λ r. elim r [ none ↦ scan rest o | some q ↦ scan rest q ]) e
    scan-words ((f, word) ∷ xs) rest o p e = elim (Option-cases (set f word o)) [
      | inl n ↦ absurd (cc (rw (n, apply_all) at e))
      | inr (q, s) ↦
          let later : apply_all xs q ≡ some p = rw (s, apply_all) at e in
          rw (named f, s) (scan-words xs rest q p later)
    ]
