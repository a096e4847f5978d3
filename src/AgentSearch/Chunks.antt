-- ===== src/AgentSearch/Chunks.antt =====
-- `split_units` of tools/agent_search/chunks.py. The tokenizer and sha256 are parameters. Texts are
-- lists of code points. The offsets of the tokens are their first positions, in ascending order.
pub mod Cover
pub mod Positions
pub mod Keys
pub mod Returns
use qscat.Prelude.{
  ℕ, zero, suc, ◌+◌, ◌-◌, ◌/◌, max, min, Bool, true, false, not, ◌&&◌, ◌||◌, Option, none, some,
  List, [], ◌∷◌, ◌++◌, is_nil, length, leb, ltb, ◌==◌, if◌then◌else◌,
}
use qscat.ArtifactStore.Names.{Text, codes, text_eq}

pub record SourceUnit : Type 0 where
  pub anchor : Text
  pub kind : Text
  pub start_line : ℕ
  pub content : Text

pub record Chunk : Type 0 where
  pub anchor : Text
  pub kind : Text
  pub declaration : ℕ
  pub start_line : ℕ
  pub end_line : ℕ
  pub content : Text
  pub text : Text
  pub content_sha256 : Text
  pub payload_sha256 : Text
  pub duplicate : ℕ
  pub tokens : ℕ

pub record Settings : Type 0 where
  pub target : ℕ
  pub maximum : ℕ
  pub total : ℕ
  pub overlap : ℕ

-- `0 <= overlap < target <= maximum < total`
abbrev pub valid_budgets : Settings → Bool
valid_budgets s = ltb s.overlap s.target && leb s.target s.maximum && ltb s.maximum s.total

-- What a tokenizer gives: the first positions of a text's tokens, without special ones, and the
-- number of tokens of a text, with them.
pub record Tokenizer : Type 0 where
  pub offsets : Text → List ℕ
  pub tokens : Text → ℕ

abbrev pub get_or : ℕ → List ℕ → ℕ → ℕ
get_or d [] i = d
get_or d (x ∷ xs) zero = x
get_or d (x ∷ xs) (suc i) = get_or d xs i

abbrev pub take {ℓ} : {A : Type ℓ} → ℕ → List A → List A
take zero xs = []
take (suc n) [] = []
take (suc n) (x ∷ xs) = x ∷ take n xs

abbrev pub drop {ℓ} : {A : Type ℓ} → ℕ → List A → List A
drop zero xs = xs
drop (suc n) [] = []
drop (suc n) (x ∷ xs) = drop n xs

-- `text[lo:hi]`
abbrev pub slice : Text → ℕ → ℕ → Text
slice s lo hi = drop lo (take hi s)

-- `s.rfind("\n", lo, hi) + 1`, of the text from position i on; 0 if there is none.
unfoldable pub after_newline : ℕ → Text → ℕ → ℕ → ℕ
after_newline i [] lo hi = 0
after_newline i (c ∷ s) lo hi =
    let later = after_newline (suc i) s lo hi in
    if later == 0 then if c == b'\n' && leb lo i && ltb i hi then suc i else 0 else later

-- `bisect_left(starts, x)` of an ascending list
unfoldable pub bisect_left : List ℕ → ℕ → ℕ
bisect_left [] x = 0
bisect_left (s ∷ ss) x = let rest = bisect_left ss x in if ltb s x then suc rest else 0

-- The tokens first to last - 1, which is the text from lo to hi - 1.
pub record Piece : Type 0 where
  pub first : ℕ
  pub last : ℕ
  pub lo : ℕ
  pub hi : ℕ

-- How the loop over one unit ends; `exhausted` is the model's fuel, which is never used up.
pub data Pieces : Type 0 where
  ok : List Piece → Pieces
  refused exhausted : Pieces

abbrev pub with_piece : Piece → Pieces → Pieces
with_piece p (ok ps) = ok (p ∷ ps)
with_piece p refused = refused
with_piece p exhausted = exhausted

module _ (settings : Settings) (count : Text → ℕ) (content : Text) (starts : List ℕ) where
  abbrev pub lower_end : ℕ → ℕ
  lower_end zero = 0
  lower_end (suc first) = get_or 0 starts (suc first)

  abbrev pub upper_end : ℕ → ℕ
  upper_end last = if last == length starts then length content else get_or 0 starts last

  -- Before the inner loop: whole lines, if they are not too few tokens.
  unfoldable pub at_line : ℕ → ℕ → Piece
  at_line first last =
      let lo = lower_end first in
      let hi = upper_end last in
      let after = after_newline 0 content lo hi in
      let end_token = bisect_left starts after in
      if ltb last (length starts) && leb (first + settings.target / 2) end_token
      then record { first = first; last = end_token; lo = lo; hi = after }
      else record { first = first; last = last; lo = lo; hi = hi }

  -- The inner loop, which gives up tokens while the payload is over the budget.
  unfoldable pub shrink : ℕ → ℕ → ℕ → ℕ → Piece
  shrink first lo zero hi = record { first = first; last = zero; lo = lo; hi = hi }
  shrink first lo (suc last) hi =
      let shorter = shrink first lo last (get_or 0 starts last) in
      if ltb settings.total (count (slice content lo hi)) && ltb first last
      then shorter
      else record { first = first; last = suc last; lo = lo; hi = hi }

  -- The piece that starts at a token.
  unfoldable pub piece_at : Bool → ℕ → Piece
  unfolding at_line shrink
  piece_at whole first =
      let last = if whole then length starts else min (first + settings.target) (length starts) in
      let p = at_line first last in shrink first p.lo p.last p.hi

  unfoldable pub pieces : ℕ → Bool → ℕ → Pieces
  pieces zero whole first = exhausted
  pieces (suc fuel) whole first =
      let p = piece_at whole first in
      let rest = pieces fuel whole (max (first + 1) (p.last - settings.overlap)) in
      if ltb first (length starts)
      then if ltb settings.total (count (slice content p.lo p.hi))
        then refused
        else if p.last == length starts
        then ok (p ∷ [])
        else with_piece p rest
      else ok []

  -- The loop over one unit: each round starts at a later token.
  abbrev pub unit_pieces : Bool → Pieces
  unit_pieces whole = pieces (suc (length starts)) whole 0

-- The value of a `Counter` at a key: how often the key has been counted.
abbrev pub times {ℓ} : {A : Type ℓ} → (A → Bool) → List A → ℕ
times is_key [] = 0
times is_key (x ∷ xs) = (if is_key x then 1 else 0) + times is_key xs

abbrev pub newlines : Text → ℕ
newlines [] = 0
newlines (c ∷ s) = (if c == b'\n' then 1 else 0) + newlines s

abbrev pub ends_with_newline : Text → Bool
ends_with_newline [] = false
ends_with_newline (c ∷ []) = c == b'\n'
ends_with_newline (c ∷ d ∷ s) = ends_with_newline (d ∷ s)

module _ (sha256 : Text → Text) (tokens : Text → ℕ) (unit : SourceUnit) (prefix : Text)
    (kind : Text) (declaration : ℕ) where
  -- `Chunk(...)`, with the number of earlier chunks of the same content.
  unfoldable pub make_chunk : List Text → Piece → Chunk
  make_chunk seen p =
      let content = slice unit.content p.lo p.hi in
      record {
        anchor = unit.anchor;
        kind = kind;
        declaration = declaration;
        start_line = unit.start_line + newlines (take p.lo unit.content);
        end_line =
            unit.start_line
            + newlines (take p.hi unit.content)
            - (if ends_with_newline content then 1 else 0);
        content = content;
        text = prefix ++ content;
        content_sha256 = sha256 content;
        payload_sha256 = sha256 (prefix ++ content);
        duplicate = times (text_eq (sha256 content)) seen;
        tokens = tokens (prefix ++ content);
      }

  unfoldable pub make_chunks : List Text → List Piece → List Chunk
  unfolding make_chunk
  make_chunks seen [] = []
  make_chunks seen (p ∷ ps) =
      make_chunk seen p ∷ make_chunks (sha256 (slice unit.content p.lo p.hi) ∷ seen) ps

pub data Chunks : Type 0 where
  ok : List Chunk → Chunks
  invalid_budgets no_budget exhausted : Chunks

abbrev pub prepend : List Chunk → Chunks → Chunks
prepend cs (ok ds) = ok (cs ++ ds)
prepend cs invalid_budgets = invalid_budgets
prepend cs no_budget = no_budget
prepend cs exhausted = exhausted

abbrev pub then_rest : Chunks → Chunks → Chunks
then_rest (ok cs) rest = prepend cs rest
then_rest no_budget rest = no_budget
then_rest invalid_budgets rest = invalid_budgets
then_rest exhausted rest = exhausted

abbrev pub same_name : SourceUnit → SourceUnit → Bool
same_name u v = text_eq u.anchor v.anchor && text_eq u.kind v.kind

abbrev pub note_fragment : Text
note_fragment = codes "note_fragment"

module _ (settings : Settings) (tokenizer : Tokenizer) (sha256 : Text → Text) (language path : Text)
    (prefer_whole : Bool) where
  -- `f"{language} {unit.kind}: {unit.anchor}\n{path}\n\n"`
  abbrev pub prefix_of : SourceUnit → Text
  prefix_of u =
      language
      ++ (b' ' ∷ u.kind ++ (b':' ∷ b' ' ∷ u.anchor ++ (b'\n' ∷ path ++ (b'\n' ∷ b'\n' ∷ []))))

  abbrev pub is_whole : SourceUnit → Bool
  is_whole u =
      prefer_whole
      && leb (length (tokenizer.offsets u.content)) settings.maximum
      && leb (tokenizer.tokens (prefix_of u ++ u.content)) settings.total

  -- The chunks of one unit, of which `declaration` earlier ones have the anchor and the kind.
  unfoldable pub unit_chunks : ℕ → SourceUnit → Pieces → Chunks
  unfolding make_chunks
  unit_chunks declaration u (ok ps) = ok (
      make_chunks sha256 tokenizer.tokens u (prefix_of u)
        (if prefer_whole && not (is_whole u) then note_fragment else u.kind) declaration [] ps)
  unit_chunks declaration u refused = no_budget
  unit_chunks declaration u exhausted = exhausted

  abbrev pub chunks_of : ℕ → SourceUnit → Chunks
  chunks_of declaration u =
      let starts = tokenizer.offsets u.content in
      if is_nil starts
      then ok []
      else unit_chunks declaration u (
          unit_pieces settings (λ c. tokenizer.tokens (prefix_of u ++ c)) u.content starts
            (is_whole u))

  -- The loop over the units.
  unfoldable pub split_loop : List SourceUnit → List SourceUnit → Chunks
  unfolding unit_chunks
  split_loop seen [] = ok []
  split_loop seen (u ∷ us) =
      then_rest (chunks_of (times (same_name u) seen) u) (split_loop (u ∷ seen) us)

  -- `split_units`, on the units of a source.
  unfoldable pub split_units : List SourceUnit → Chunks
  unfolding split_loop
  split_units units = if valid_budgets settings then split_loop [] units else invalid_budgets
