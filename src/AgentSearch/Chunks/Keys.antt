-- ===== src/AgentSearch/Chunks/Keys.antt =====
-- The chunks of one source are told apart by what their ids are made of.
use qscat.Prelude.{
  ℕ, ◌+◌, ◌≤◌, ◌≡◌, refl, sym, ap, ◌∙◌, Bool, true, false, ◌&&◌, List, [], ◌∷◌, ◌++◌, All, is_nil,
  ◌==◌, arith, inl, inr, Bool-cases,
}
use qscat.ArtifactStore.Names.{Text, text_eq}
use qscat.ArtifactStore.Fetch.Deliver.{text_eq_sound, text_eq_refl}
use qscat.AgentSearch.Chunks.{
  SourceUnit, Chunk, Settings, Tokenizer, Piece, Pieces, ok, refused, exhausted, slice, times,
  make_chunk, make_chunks, Chunks, invalid_budgets, no_budget, same_name, prefix_of, unit_chunks,
  then_rest, chunks_of, split_loop, split_units, valid_budgets,
}

-- What `make_records` builds a row id from, beside the path and the language.
abbrev pub same_key : Chunk → Chunk → Bool
same_key a b =
    text_eq a.kind b.kind
    && text_eq a.anchor b.anchor
    && a.declaration == b.declaration
    && text_eq a.content_sha256 b.content_sha256
    && a.duplicate == b.duplicate

-- No two have the same key.
abbrev pub Distinct : List Chunk → Type 0
Distinct [] = Unit
Distinct (c ∷ cs) = All (λ d. same_key c d ≡ false) cs × Distinct cs

All-append : {A : Type 0} (P : A → Type 0) (xs ys : List A) → All P xs → All P ys → All P (xs ++ ys)
All-append P [] ys h k = k
All-append P (x ∷ xs) ys (p, h) k = (p, All-append P xs ys h k)

All-map :
    {A : Type 0} (P Q : A → Type 0) (xs : List A) → ((x : A) → P x → Q x) → All P xs → All Q xs
All-map P Q [] f h = tt
All-map P Q (x ∷ xs) f (p, h) = (f x p, All-map P Q xs f h)

Distinct-append :
    (cs ds : List Chunk)
    → Distinct cs
    → Distinct ds
    → All (λ c. All (λ d. same_key c d ≡ false) ds) cs
    → Distinct (cs ++ ds)
Distinct-append [] ds h k apart = k
Distinct-append (c ∷ cs) ds (p, h) k (q, apart) =
    (All-append (λ d. same_key c d ≡ false) cs ds p q, Distinct-append cs ds h k apart)

-- A later chunk with the content of an earlier one has a higher number.
abbrev Numbered : List Text → Chunk → Type 0
Numbered seen c = times (text_eq c.content_sha256) seen ≤ c.duplicate

apart_by_number :
    (a d : Chunk) (seen : List Text)
    → a.duplicate ≡ times (text_eq a.content_sha256) seen
    → Numbered (a.content_sha256 ∷ seen) d
    → same_key a d ≡ false
apart_by_number a d seen e h = elim (Bool-cases (text_eq a.content_sha256 d.content_sha256)) [
  | inr other ↦ ground arith
  | inl same ↦
      let q : a.content_sha256 ≡ d.content_sha256 =
        text_eq_sound a.content_sha256 d.content_sha256 same in
      ground (
        arith,
        ap (λ t. times (text_eq t) seen) q,
        text_eq_refl a.content_sha256,
        ap (λ t. text_eq t a.content_sha256) q,
      )
]

module _ (sha256 : Text → Text) (tokens : Text → ℕ) (unit : SourceUnit) (prefix : Text)
    (kind : Text) (declaration : ℕ) where
  make_chunks-Numbered :
      (seen : List Text) (ps : List Piece)
      → All (Numbered seen) (make_chunks sha256 tokens unit prefix kind declaration seen ps)
  unfolding make_chunks make_chunk
  make_chunks-Numbered seen [] = tt
  make_chunks-Numbered seen (p ∷ ps) =
      let h : Text = sha256 (slice unit.content p.lo p.hi) in
      (
        omega arith,
        All-map (Numbered (h ∷ seen)) (Numbered seen) _ (λ c q. omega (arith, q))
            (make_chunks-Numbered (h ∷ seen) ps),
      )

  make_chunks-Distinct :
      (seen : List Text) (ps : List Piece)
      → Distinct (make_chunks sha256 tokens unit prefix kind declaration seen ps)
  unfolding make_chunks make_chunk
  make_chunks-Distinct seen [] = tt
  make_chunks-Distinct seen (p ∷ ps) =
      let h : Text = sha256 (slice unit.content p.lo p.hi) in
      (
        All-map (Numbered (h ∷ seen))
            (λ d. same_key (make_chunk sha256 tokens unit prefix kind declaration seen p) d ≡ false)
            _
            (λ d q.
              apart_by_number (make_chunk sha256 tokens unit prefix kind declaration seen p) d seen
                refl q)
            (make_chunks-Numbered (h ∷ seen) ps),
        make_chunks-Distinct (h ∷ seen) ps,
      )

  -- Every chunk of a unit has the unit's anchor and kind, and its number.
  abbrev pub IsOf : Chunk → Type 0
  IsOf c = (c.anchor ≡ unit.anchor) × (c.kind ≡ kind) × (c.declaration ≡ declaration)

  make_chunks-IsOf :
      (seen : List Text) (ps : List Piece)
      → All IsOf (make_chunks sha256 tokens unit prefix kind declaration seen ps)
  unfolding make_chunks make_chunk
  make_chunks-IsOf seen [] = tt
  make_chunks-IsOf seen (p ∷ ps) =
      ((refl, refl, refl), make_chunks-IsOf (sha256 (slice unit.content p.lo p.hi) ∷ seen) ps)

abbrev named : Chunk → SourceUnit → Bool
named c u = text_eq c.anchor u.anchor && text_eq c.kind u.kind

abbrev Declared : List SourceUnit → Chunk → Type 0
Declared seen c = times (named c) seen ≤ c.declaration

-- A statement on the chunks of a run that returns.
abbrev pub OnOk : (List Chunk → Type 0) → Chunks → Type 0
OnOk P (ok cs) = P cs
OnOk P _ = Unit

apart_by_declaration :
    (u : SourceUnit) (a d : Chunk) (seen : List SourceUnit)
    → (a.anchor ≡ u.anchor) × (a.kind ≡ u.kind) × (a.declaration ≡ times (same_name u) seen)
    → Declared (u ∷ seen) d
    → same_key a d ≡ false
apart_by_declaration u a d seen (ea, ek, n) h =
    elim (Bool-cases (text_eq a.anchor d.anchor && text_eq a.kind d.kind)) [
      | inr other ↦ ground arith
      | inl same ↦
          let p : a.anchor ≡ d.anchor = text_eq_sound a.anchor d.anchor (ground arith) in
          let q : a.kind ≡ d.kind = text_eq_sound a.kind d.kind (ground arith) in
          let all : times (named d) seen ≡ times (same_name u) seen = λ i.
            times (λ v. text_eq ((sym p ∙ ea) i) v.anchor && text_eq ((sym q ∙ ek) i) v.kind)
              seen in
          let this : named d u ≡ true =
            rw (sym p ∙ ea, sym q ∙ ek, text_eq_refl u.anchor, text_eq_refl u.kind) refl in
          let more : 1 + times (named d) seen ≤ d.declaration = rw this at h in ground (arith, all)
    ]

Declared-less :
    (u : SourceUnit) (seen : List SourceUnit) (c : Chunk) → Declared (u ∷ seen) c → Declared seen c
Declared-less u seen c h = omega (arith, h)

Declared-of :
    (u : SourceUnit) (seen : List SourceUnit) (c : Chunk)
    → (c.anchor ≡ u.anchor) × (c.kind ≡ u.kind) × (c.declaration ≡ times (same_name u) seen)
    → Declared seen c
Declared-of u seen c (ea, ek, n) =
    let all : times (named c) seen ≡ times (same_name u) seen =
      λ i. times (λ v. text_eq (ea i) v.anchor && text_eq (ek i) v.kind) seen in
    omega (arith, all, n)

join-Distinct :
    (u : SourceUnit) (seen : List SourceUnit) (now rest : Chunks)
    → OnOk
        (λ cs.
          Distinct cs
          × All
              (λ c.
                (c.anchor ≡ u.anchor)
                × (c.kind ≡ u.kind)
                × (c.declaration ≡ times (same_name u) seen))
              cs)
        now
    → OnOk (λ cs. Distinct cs × All (Declared (u ∷ seen)) cs) rest
    → OnOk (λ cs. Distinct cs × All (Declared seen) cs) (then_rest now rest)
join-Distinct u seen (ok cs) (ok ds) (h, of) (k, later) = (
  Distinct-append cs ds h k (
      All-map _ (λ c. All (λ d. same_key c d ≡ false) ds) cs
        (λ c q.
          All-map _ (λ d. same_key c d ≡ false) ds (λ d r. apart_by_declaration u c d seen q r)
            later)
        of),
  All-append (Declared seen) cs ds (All-map _ (Declared seen) cs (λ c q. Declared-of u seen c q) of)
      (All-map _ (Declared seen) ds (λ d r. Declared-less u seen d r) later),
)
join-Distinct u seen (ok cs) invalid_budgets h k = tt
join-Distinct u seen (ok cs) no_budget h k = tt
join-Distinct u seen (ok cs) exhausted h k = tt
join-Distinct u seen invalid_budgets rest h k = tt
join-Distinct u seen no_budget rest h k = tt
join-Distinct u seen exhausted rest h k = tt

module _ (settings : Settings) (tokenizer : Tokenizer) (sha256 : Text → Text)
    (language path : Text) where
  abbrev FromUnit : ℕ → SourceUnit → Chunks → Type 0
  FromUnit n u = OnOk (λ cs.
      Distinct cs × All (λ c. (c.anchor ≡ u.anchor) × (c.kind ≡ u.kind) × (c.declaration ≡ n)) cs)

  unit_chunks-FromUnit :
      (n : ℕ) (u : SourceUnit) (r : Pieces)
      → FromUnit n u (unit_chunks settings tokenizer sha256 language path false n u r)
  unfolding unit_chunks
  unit_chunks-FromUnit n u (Pieces.ok ps) = (
    make_chunks-Distinct sha256 tokenizer.tokens u
        (prefix_of settings tokenizer sha256 language path false u) u.kind n [] ps,
    make_chunks-IsOf sha256 tokenizer.tokens u
        (prefix_of settings tokenizer sha256 language path false u) u.kind n [] ps,
  )
  unit_chunks-FromUnit n u refused = tt
  unit_chunks-FromUnit n u Pieces.exhausted = tt

  chunks_of-FromUnit :
      (n : ℕ) (u : SourceUnit)
      → FromUnit n u (chunks_of settings tokenizer sha256 language path false n u)
  chunks_of-FromUnit n u = elim (Bool-cases (is_nil (tokenizer.offsets u.content))) [
    | inl none ↦ rw none (tt, tt)
    | inr some ↦ rw some (unit_chunks-FromUnit n u _)
  ]

  split_loop-Distinct :
      (seen us : List SourceUnit)
      → OnOk
          (λ cs. Distinct cs × All (Declared seen) cs)
          (split_loop settings tokenizer sha256 language path false seen us)
  unfolding split_loop
  split_loop-Distinct seen [] = (tt, tt)
  split_loop-Distinct seen (u ∷ us) =
      join-Distinct u seen
        (chunks_of settings tokenizer sha256 language path false (times (same_name u) seen) u)
        (split_loop settings tokenizer sha256 language path false (u ∷ seen) us)
        (chunks_of-FromUnit (times (same_name u) seen) u) (split_loop-Distinct (u ∷ seen) us)

  -- No two chunks of a source have the same kind, anchor, declaration number, content digest and
  -- duplicate number, where `prefer_whole` is false.
  pub split_units-Distinct :
      (units : List SourceUnit)
      → OnOk Distinct (split_units settings tokenizer sha256 language path false units)
  unfolding split_units
  split_units-Distinct units = elim (Bool-cases (valid_budgets settings)) [
    | inl valid ↦ rw valid (distinct_only _ (split_loop-Distinct [] units))
    | inr bad ↦ rw bad tt
  ]
    where
      distinct_only :
          (r : Chunks) → OnOk (λ cs. Distinct cs × All (Declared []) cs) r → OnOk Distinct r
      distinct_only (ok cs) h = h.0
      distinct_only invalid_budgets h = tt
      distinct_only no_budget h = tt
      distinct_only exhausted h = tt
