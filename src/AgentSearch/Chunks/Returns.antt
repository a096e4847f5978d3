-- ===== src/AgentSearch/Chunks/Returns.antt =====
-- `split_units` ends on every list of units.
use qscat.Prelude.{
  ℕ, ◌≤◌, ◌<◌, ◌≡◌, refl, Bool, true, false, List, [], ◌∷◌, ◌++◌, is_nil, length, arith, inl, inr,
  Bool-cases,
}
use qscat.ArtifactStore.Names.{Text}
use qscat.AgentSearch.Chunks.{
  Settings, valid_budgets, Tokenizer, SourceUnit, Pieces, ok, refused, exhausted, Chunks,
  invalid_budgets, no_budget, times, same_name, prefix_of, is_whole, unit_chunks, then_rest,
  chunks_of, split_loop, split_units,
}
use qscat.AgentSearch.Chunks.Cover.{Ends, unit_pieces-Ends}

-- The fuel of the model ran out.
abbrev pub is_exhausted : Chunks → Bool
is_exhausted Chunks.exhausted = true
is_exhausted _ = false

then_rest-is_exhausted :
    (now rest : Chunks)
    → is_exhausted now ≡ false
    → is_exhausted rest ≡ false
    → is_exhausted (then_rest now rest) ≡ false
then_rest-is_exhausted (Chunks.ok cs) (Chunks.ok ds) h k = refl
then_rest-is_exhausted (Chunks.ok cs) invalid_budgets h k = refl
then_rest-is_exhausted (Chunks.ok cs) no_budget h k = refl
then_rest-is_exhausted (Chunks.ok cs) Chunks.exhausted h k = k
then_rest-is_exhausted invalid_budgets rest h k = refl
then_rest-is_exhausted no_budget rest h k = refl
then_rest-is_exhausted Chunks.exhausted rest h k = h

module _ (settings : Settings) (tokenizer : Tokenizer) (sha256 : Text → Text) (language path : Text)
    (prefer_whole : Bool) where
  unit_chunks-returns :
      (n : ℕ) (u : SourceUnit) (count : Text → ℕ) (starts : List ℕ) (r : Pieces)
      → Ends settings count u.content starts 0 r
      → is_exhausted (unit_chunks settings tokenizer sha256 language path prefer_whole n u r)
        ≡ false
  unfolding unit_chunks
  unit_chunks-returns n u count starts (ok ps) h = refl
  unit_chunks-returns n u count starts refused h = refl
  unit_chunks-returns n u count starts exhausted h = absurd h

  chunks_of-returns :
      (n : ℕ) (u : SourceUnit)
      → 2 ≤ settings.target
      → is_exhausted (chunks_of settings tokenizer sha256 language path prefer_whole n u) ≡ false
  chunks_of-returns n u h =
      let count : Text → ℕ = λ c.
        tokenizer.tokens (prefix_of settings tokenizer sha256 language path prefer_whole u ++ c) in
      elim (Bool-cases (is_nil (tokenizer.offsets u.content))) [
        | inl none ↦ rw none refl
        | inr some ↦ rw some (
            unit_chunks-returns n u count (tokenizer.offsets u.content) _ (
              unit_pieces-Ends settings count u.content (tokenizer.offsets u.content)
                (is_whole settings tokenizer sha256 language path prefer_whole u) h
                (length_pos (tokenizer.offsets u.content) some)))
      ]
    where
      length_pos : (xs : List ℕ) → is_nil xs ≡ false → 0 < length xs
      length_pos [] e = cc
      length_pos (x ∷ xs) e = omega arith

  split_loop-returns :
      (seen us : List SourceUnit)
      → 2 ≤ settings.target
      → is_exhausted (split_loop settings tokenizer sha256 language path prefer_whole seen us)
        ≡ false
  unfolding split_loop
  split_loop-returns seen [] h = refl
  split_loop-returns seen (u ∷ us) h =
      then_rest-is_exhausted _ _ (chunks_of-returns (times (same_name u) seen) u h)
        (split_loop-returns (u ∷ seen) us h)

  -- With a target of two tokens or more, `split_units` ends on every list of units: it returns chunks
  -- or raises one of its two errors.
  pub split_units-returns :
      (units : List SourceUnit)
      → 2 ≤ settings.target
      → is_exhausted (split_units settings tokenizer sha256 language path prefer_whole units)
        ≡ false
  unfolding split_units
  split_units-returns units h = elim (Bool-cases (valid_budgets settings)) [
    | inl valid ↦ rw valid (split_loop-returns [] units h)
    | inr bad ↦ rw bad refl
  ]
