-- ===== src/AgentSearch/Chunks/Cover.antt =====
-- The loop of `split_units` over one unit: it ends, leaves out no token and keeps the budget.
use qscat.Prelude.{
  ℕ, zero, suc, ◌+◌, ◌-◌, ◌≤◌, ◌<◌, max, min, ◌≡◌, refl, Bool, true, false, ◌&&◌, List, [], ◌∷◌,
  any, length, leb, ltb, ◌==◌, if◌then◌else◌, arith, inl, inr, Bool-cases, lt→ltb,
}
use qscat.ArtifactStore.Names.{Text}
use qscat.AgentSearch.Chunks.{
  Settings, get_or, slice, after_newline, bisect_left, Piece, Pieces, ok, refused, exhausted,
  with_piece, lower_end, upper_end, at_line, shrink, piece_at, pieces, unit_pieces,
}

pub bisect_left-le : (ss : List ℕ) (x : ℕ) → bisect_left ss x ≤ length ss
unfolding bisect_left
bisect_left-le [] x = omega arith
bisect_left-le (s ∷ ss) x = ground (arith, bisect_left-le ss x)

abbrev pub holds_token : ℕ → Piece → Bool
holds_token t p = leb p.first t && ltb t p.last

module _ (settings : Settings) (count : Text → ℕ) (content : Text) (starts : List ℕ) where
  -- The pieces of a loop that starts at a token: the first one starts there, each goes on for at least
  -- one token, the next one starts behind its start and not behind its end, and the last one ends
  -- with the last token. No payload is over the budget.
  abbrev pub Covers : ℕ → List Piece → Type 0
  Covers first [] = ⊥
  Covers first (p ∷ []) =
      (p.first ≡ first)
      × (first < p.last)
      × (p.last ≡ length starts)
      × (ltb settings.total (count (slice content p.lo p.hi)) ≡ false)
  Covers first (p ∷ q ∷ ps) =
      (p.first ≡ first)
      × (first < p.last)
      × (first < q.first)
      × (q.first ≤ p.last)
      × (ltb settings.total (count (slice content p.lo p.hi)) ≡ false)
      × Covers q.first (q ∷ ps)

  -- A loop over pieces that ends: with pieces that cover the tokens, or refused.
  abbrev pub Ends : ℕ → Pieces → Type 0
  Ends first (ok ps) = Covers first ps
  Ends first refused = Unit
  Ends first exhausted = ⊥

  pub at_line_bounds :
      (first last : ℕ)
      → 2 ≤ settings.target
      → first < last
      → last ≤ length starts
      → let p = at_line settings count content starts first last in
        (p.first ≡ first) × (first < p.last) × (p.last ≤ length starts)
  unfolding at_line
  at_line_bounds first last h lt le = ground (
    arith,
    bisect_left-le starts (
        after_newline 0 content (lower_end settings count content starts first)
          (upper_end settings count content starts last)),
  )

  shrink_bounds :
      (first lo last hi : ℕ)
      → first < last
      → let p = shrink settings count content starts first lo last hi in
        (p.first ≡ first) × (first < p.last) × (p.last ≤ last)
  unfolding shrink
  shrink_bounds first lo zero hi h = absurd (omega arith)
  shrink_bounds first lo (suc last) hi h =
      ground (arith, shrink_bounds first lo last (get_or 0 starts last))

  pub piece_at_bounds :
      (whole : Bool) (first : ℕ)
      → 2 ≤ settings.target
      → first < length starts
      → let p = piece_at settings count content starts whole first in
        (p.first ≡ first) × (first < p.last) × (p.last ≤ length starts)
  unfolding piece_at
  piece_at_bounds whole first h lt =
      let last : ℕ =
        if whole then length starts else min (first + settings.target) (length starts) in
      let q = at_line settings count content starts first last in
      let bounds = at_line_bounds first last h (above whole) (below whole) in
      ground (arith, shrink_bounds first q.lo q.last q.hi bounds.1)
    where
      above :
          (b : Bool)
          → first < (if b then length starts else min (first + settings.target) (length starts))
      above true = lt
      above false = grind arith

      below :
          (b : Bool)
          → (if b then length starts else min (first + settings.target) (length starts))
            ≤ length starts
      below true = omega arith
      below false = grind arith

  with_piece-Ends :
      (p : Piece) (first next : ℕ) (rest : Pieces)
      → p.first ≡ first
      → first < p.last
      → ltb settings.total (count (slice content p.lo p.hi)) ≡ false
      → first < next
      → next ≤ p.last
      → Ends next rest
      → Ends first (with_piece p rest)
  with_piece-Ends p first next (ok []) e lt fits above below h = absurd h
  with_piece-Ends p first next (ok (q ∷ [])) e lt fits above below h = ground arith
  with_piece-Ends p first next (ok (q ∷ r ∷ ps)) e lt fits above below h = (
    e,
    lt,
    omega (arith, h.0),
    omega (arith, h.0),
    fits,
    (refl, rw h.0 h.1, rw h.0 h.2, h.3, h.4, h.5),
  )
  with_piece-Ends p first next refused e lt fits above below h = tt
  with_piece-Ends p first next exhausted e lt fits above below h = h

  -- From any token the loop ends, with more fuel than there are tokens left.
  pieces-Ends :
      (fuel : ℕ) (whole : Bool) (first : ℕ)
      → 2 ≤ settings.target
      → first < length starts
      → length starts < first + fuel
      → Ends first (pieces settings count content starts fuel whole first)
  unfolding pieces
  pieces-Ends zero whole first h lt enough = absurd (omega arith)
  pieces-Ends (suc fuel) whole first h lt enough =
      let p = piece_at settings count content starts whole first in
      let next : ℕ = max (first + 1) (p.last - settings.overlap) in
      let bounds = piece_at_bounds whole first h lt in
      rw (lt→ltb first (length starts) lt)
        (elim (Bool-cases (ltb settings.total (count (slice content p.lo p.hi)))) [
          | inl over ↦ rw over tt
          | inr fits ↦ elim (Bool-cases (p.last == length starts)) [
            | inl end ↦ rw (fits, end) (bounds.0, bounds.1, ground arith, fits)
            | inr more ↦
                rw (fits, more)
                  (with_piece-Ends p first next
                    (pieces settings count content starts fuel whole next) bounds.0 bounds.1 fits
                    (ground arith) (ground arith)
                    (pieces-Ends fuel whole next h (next-lt p.last bounds.1 bounds.2 more)
                      (ground arith)))
          ]
        ])
    where
      next-lt :
          (last : ℕ)
          → first < last
          → last ≤ length starts
          → (last == length starts) ≡ false
          → max (first + 1) (last - settings.overlap) < length starts
      next-lt last above below more = ground arith

  -- With valid budgets and a target of two tokens or more, the loop over a unit that has tokens ends,
  -- refused or with pieces that cover the tokens without a gap, each within the budget.
  pub unit_pieces-Ends :
      (whole : Bool)
      → 2 ≤ settings.target
      → 0 < length starts
      → Ends 0 (unit_pieces settings count content starts whole)
  unit_pieces-Ends whole h lt = pieces-Ends (suc (length starts)) whole 0 h lt (omega arith)

  -- Some piece has the token.
  pub any-Covers :
      (ps : List Piece) (first t : ℕ)
      → Covers first ps
      → first ≤ t
      → t < length starts
      → any (holds_token t) ps ≡ true
  any-Covers [] first t h le lt = absurd h
  any-Covers (p ∷ []) first t h le lt = ground arith
  any-Covers (p ∷ q ∷ ps) first t h le lt = ground (arith, any-Covers (q ∷ ps) q.first t h.5)
