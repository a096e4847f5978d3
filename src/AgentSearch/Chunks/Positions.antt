-- ===== src/AgentSearch/Chunks/Positions.antt =====
-- The texts of the pieces of `split_units` in tools/agent_search/chunks.py: they have the places where
-- the tokens of the unit start.
use qscat.Prelude.{
  ℕ, zero, suc, ◌+◌, ◌-◌, ◌/◌, ◌≤◌, ◌<◌, max, min, ◌≡◌, Bool, true, false, ◌&&◌, List, [], ◌∷◌, All,
  any, length, leb, ltb, ◌==◌, if◌then◌else◌, arith, inl, inr, Bool-cases,
}
use qscat.ArtifactStore.Names.{Text}
use qscat.AgentSearch.Chunks.{
  Settings, get_or, slice, after_newline, bisect_left, Piece, Pieces, ok, refused, exhausted,
  with_piece, lower_end, upper_end, at_line, shrink, piece_at, pieces, unit_pieces,
}
use qscat.AgentSearch.Chunks.Cover.{
  holds_token, any-Covers, bisect_left-le, at_line_bounds, piece_at_bounds, unit_pieces-Ends,
}

-- Positions from `low` on and before `top`, each behind the one before it.
abbrev pub ascends : ℕ → ℕ → List ℕ → Bool
ascends low top [] = true
ascends low top (x ∷ xs) = leb low x && ltb x top && ascends (suc x) top xs

ascends_within :
    (low top : ℕ) (xs : List ℕ) (t : ℕ)
    → ascends low top xs ≡ true
    → t < length xs
    → (low ≤ get_or 0 xs t) × (get_or 0 xs t < top)
ascends_within low top [] t h lt = absurd (omega arith)
ascends_within low top (x ∷ xs) zero h lt = ground arith
ascends_within low top (x ∷ xs) (suc t) h lt = ground (arith, ascends_within (suc x) top xs t)

ascends_lt :
    (low top : ℕ) (xs : List ℕ) (t u : ℕ)
    → ascends low top xs ≡ true
    → t < u
    → u < length xs
    → get_or 0 xs t < get_or 0 xs u
ascends_lt low top [] t u h lt below = absurd (omega arith)
ascends_lt low top (x ∷ xs) t zero h lt below = absurd (omega arith)
ascends_lt low top (x ∷ xs) zero (suc u) h lt below =
    ground (arith, ascends_within (suc x) top xs u)
ascends_lt low top (x ∷ xs) (suc t) (suc u) h lt below =
    ground (arith, ascends_lt (suc x) top xs t u)

bisect_left-lt : (ss : List ℕ) (x t : ℕ) → t < bisect_left ss x → get_or 0 ss t < x
unfolding bisect_left
bisect_left-lt [] x t h = absurd (omega arith)
bisect_left-lt (s ∷ ss) x zero h = ground arith
bisect_left-lt (s ∷ ss) x (suc t) h = ground (arith, bisect_left-lt ss x t)

-- The piece has the token, and its text has the place where the token starts.
abbrev pub holds_start : List ℕ → ℕ → Piece → Bool
holds_start starts t p =
    holds_token t p && leb p.lo (get_or 0 starts t) && ltb (get_or 0 starts t) p.hi

module _ (settings : Settings) (count : Text → ℕ) (content : Text) (starts : List ℕ)
    (ascending : ascends 0 (length content) starts ≡ true) where
  -- The text from lo to hi has the starts of the tokens first to last - 1.
  abbrev Holds : ℕ → ℕ → ℕ → ℕ → Type 0
  Holds first last lo hi =
      (t : ℕ) → first ≤ t → t < last → (lo ≤ get_or 0 starts t) × (get_or 0 starts t < hi)

  lower_end-le :
      (first t : ℕ)
      → first ≤ t
      → t < length starts
      → lower_end settings count content starts first ≤ get_or 0 starts t
  lower_end-le zero t h lt = omega arith
  lower_end-le (suc first) t h lt = elim (Bool-cases (suc first == t)) [
    | inl same ↦ let equal : suc first ≡ t = ground arith in rw equal (omega arith)
    | inr other ↦
        let before : suc first < t = ground arith in
        omega (arith, ascends_lt 0 (length content) starts (suc first) t ascending before lt)
  ]

  lt-upper_end :
      (last t : ℕ)
      → t < last
      → last ≤ length starts
      → get_or 0 starts t < upper_end settings count content starts last
  lt-upper_end last t h le = elim (Bool-cases (last == length starts)) [
    | inl end ↦
        let below : t < length starts = omega (arith, h, le) in
        rw end ((ascends_within 0 (length content) starts t ascending below).1)
    | inr more ↦
        let inside : last < length starts = ground arith in
        rw more (ascends_lt 0 (length content) starts t last ascending h inside)
  ]

  at_line-Holds :
      (first last : ℕ)
      → last ≤ length starts
      → let p = at_line settings count content starts first last in Holds first p.last p.lo p.hi
  unfolding at_line
  at_line-Holds first last le =
      let lo = lower_end settings count content starts first in
      let hi = upper_end settings count content starts last in
      let after = after_newline 0 content lo hi in
      let end_token = bisect_left starts after in
      elim (Bool-cases (ltb last (length starts) && leb (first + settings.target / 2) end_token)) [
        | inl cut ↦ rw cut (λ t above below. (
          lower_end-le first t above (omega (arith, below, bisect_left-le starts after)),
          bisect_left-lt starts after t below,
        ))
        | inr whole ↦ rw whole (λ t above below.
            (lower_end-le first t above (omega (arith, below, le)), lt-upper_end last t below le))
      ]

  shrink-Holds :
      (first lo last hi : ℕ)
      → last ≤ length starts
      → Holds first last lo hi
      → let p = shrink settings count content starts first lo last hi in
        Holds first p.last p.lo p.hi
  unfolding shrink
  shrink-Holds first lo zero hi le h = h
  shrink-Holds first lo (suc last) hi le h =
      elim (Bool-cases (ltb settings.total (count (slice content lo hi)) && ltb first last)) [
        | inl over ↦ rw over (
            shrink-Holds first lo last (get_or 0 starts last) (omega arith) (λ t above below. (
              (h t above (omega (arith, below))).0,
              ascends_lt 0 (length content) starts t last ascending below (omega (arith, le)),
            )))
        | inr fits ↦ rw fits h
      ]

  piece_at-Holds :
      (whole : Bool) (first : ℕ)
      → 2 ≤ settings.target
      → first < length starts
      → let p = piece_at settings count content starts whole first in Holds first p.last p.lo p.hi
  unfolding piece_at
  piece_at-Holds whole first h lt =
      let last : ℕ =
        if whole then length starts else min (first + settings.target) (length starts) in
      let q = at_line settings count content starts first last in
      shrink-Holds first q.lo q.last q.hi
        ((at_line_bounds settings count content starts first last h (above whole) (below whole)).2)
        (at_line-Holds first last (below whole))
    where
      above :
          (b : Bool)
          → first < (if b then length starts else min (first + settings.target) (length starts))
      above true = lt
      above false = grind arith

      below :
          (b : Bool)
          → (if b then length starts else min (first + settings.target) (length starts))
            ≤ length starts
      below true = omega arith
      below false = grind arith

  abbrev HasText : Piece → Type 0
  HasText p = Holds p.first p.last p.lo p.hi

  abbrev HaveText : Pieces → Type 0
  HaveText (ok ps) = All HasText ps
  HaveText refused = Unit
  HaveText exhausted = Unit

  with_piece-HaveText :
      (p : Piece) (rest : Pieces) → HasText p → HaveText rest → HaveText (with_piece p rest)
  with_piece-HaveText p (ok ps) h hs = (h, hs)
  with_piece-HaveText p refused h hs = tt
  with_piece-HaveText p exhausted h hs = tt

  pieces-HaveText :
      (fuel : ℕ) (whole : Bool) (first : ℕ)
      → 2 ≤ settings.target
      → HaveText (pieces settings count content starts fuel whole first)
  unfolding pieces
  pieces-HaveText zero whole first h = tt
  pieces-HaveText (suc fuel) whole first h = elim (Bool-cases (ltb first (length starts))) [
    | inr past ↦ rw past tt
    | inl inside ↦
        let p = piece_at settings count content starts whole first in
        let lt : first < length starts = ground arith in
        let start = (piece_at_bounds settings count content starts whole first h lt).0 in
        let own : HasText p =
          (λ t above below. piece_at-Holds whole first h lt t (rw start at above) below) in
        rw inside (elim (Bool-cases (ltb settings.total (count (slice content p.lo p.hi)))) [
          | inl over ↦ rw over tt
          | inr fits ↦ elim (Bool-cases (p.last == length starts)) [
            | inl end ↦ rw (fits, end) (own, tt)
            | inr more ↦
                rw (fits, more)
                  (with_piece-HaveText p _ own
                    (pieces-HaveText fuel whole (max (first + 1) (p.last - settings.overlap)) h))
          ]
        ])
  ]

  any-HasText :
      (ps : List Piece) (t : ℕ)
      → All HasText ps
      → any (holds_token t) ps ≡ true
      → any (holds_start starts t) ps ≡ true
  any-HasText [] t hs h = h
  any-HasText (p ∷ ps) t (own, hs) h = elim (Bool-cases (holds_token t p)) [
    | inl there ↦ let place = own t (ground arith) (ground arith) in ground (arith, place)
    | inr other ↦
        let later : any (holds_token t) ps ≡ true = ground arith in
        ground (arith, any-HasText ps t hs later)
  ]

  -- Where the loop over a unit returns pieces, with a target of two tokens or more and tokens that
  -- start at ascending places of the unit, no two at the same: every token is among the tokens of a
  -- piece whose text has the place where it starts.
  pub unit_pieces-cover :
      (whole : Bool) (ps : List Piece) (t : ℕ)
      → 2 ≤ settings.target
      → unit_pieces settings count content starts whole ≡ ok ps
      → t < length starts
      → any (holds_start starts t) ps ≡ true
  unit_pieces-cover whole ps t h e lt =
      any-HasText ps t (rw e at (pieces-HaveText (suc (length starts)) whole 0 h)) (
        any-Covers settings count content starts ps 0 t
          (rw e at (unit_pieces-Ends settings count content starts whole h (omega arith)))
          (omega arith) lt)
