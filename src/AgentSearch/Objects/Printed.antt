-- ===== src/AgentSearch/Objects/Printed.antt =====
-- Reading what a batch prints.
use qscat.Prelude.{
  ℕ, suc, ◌+◌, ◌≡◌, refl, ap, false, Option, none, some, List, [], ◌∷◌, ◌++◌, map, length, is_nil,
  All, ◌==◌, arith,
}
use qscat.ArtifactStore.Names.{Text, codes}
use qscat.ArtifactStore.Fetch.Deliver.{text_eq_refl}
use qscat.AgentSearch.Chunks.{take, drop}
use qscat.AgentSearch.Objects.{
  is_space, keep, first_word, words, prefixed, next_line, read_blob, read_blobs,
}

abbrev pub NoSpace : Text → Type 0
NoSpace = All (λ (c : ℕ). is_space c ≡ false)

abbrev pub IsWord : Text → Type 0
IsWord w = (is_nil w ≡ false) × NoSpace w

first_word-append :
    (w s : Text) → NoSpace w → first_word (w ++ s) ≡ (w ++ (first_word s).0, (first_word s).1)
unfolding first_word
first_word-append [] s h = refl
first_word-append (c ∷ w) s (e, h) = rw (e, first_word-append w s h) refl

no_newline : (c : ℕ) → is_space c ≡ false → (c == b'\n') ≡ false
unfolding is_space
no_newline c h = ground arith

prefixed_twice :
    (c : ℕ) (w : Text) (o : Option (Text × Text))
    → prefixed (c ∷ []) (prefixed w o) ≡ prefixed (c ∷ w) o
prefixed_twice c w none = refl
prefixed_twice c w (some (a, b)) = refl

prefixed_nil : (o : Option (Text × Text)) → prefixed [] o ≡ o
prefixed_nil none = refl
prefixed_nil (some (a, b)) = refl

next_line-append : (w s : Text) → NoSpace w → next_line (w ++ s) ≡ prefixed w (next_line s)
unfolding next_line
next_line-append [] s h = rw (prefixed_nil (next_line s)) refl
next_line-append (c ∷ w) s (e, h) =
    rw (no_newline c e, next_line-append w s h) (prefixed_twice c w (next_line s))

-- A word, a space and what follows.
next_line-word :
    (w s : Text)
    → NoSpace w
    → next_line (w ++ (b' ' ∷ s)) ≡ prefixed w (prefixed (b' ' ∷ []) (next_line s))
unfolding next_line
next_line-word w s h = next_line-append w (b' ' ∷ s) h

take-append : (content rest : Text) → take (length content) (content ++ rest) ≡ content
take-append [] rest = refl
take-append (c ∷ content) rest = ap (λ s. c ∷ s) (take-append content rest)

drop-append :
    (content rest : Text) (c : ℕ) → drop (suc (length content)) (content ++ (c ∷ rest)) ≡ rest
drop-append [] rest c = refl
drop-append (d ∷ content) rest c = drop-append content rest c

append_nil : (w : Text) → w ++ [] ≡ w
append_nil [] = refl
append_nil (c ∷ w) = ap (λ s. c ∷ s) (append_nil w)

keep_word : (w : Text) (ws : List Text) → is_nil w ≡ false → keep w ws ≡ w ∷ ws
keep_word [] ws h = cc
keep_word (c ∷ w) ws h = refl

words_cons : (w s : Text) → IsWord w → words (w ++ (b' ' ∷ s)) ≡ w ∷ words s
unfolding words first_word is_space
words_cons w s (n, h) =
    rw (first_word-append w (b' ' ∷ s) h, append_nil w) (keep_word w (words s) n)

words_one : (w : Text) → IsWord w → words (w ++ []) ≡ w ∷ []
unfolding words first_word
words_one w (n, h) = rw (first_word-append w [] h, append_nil w) (keep_word w [] n)

-- What `git cat-file --batch` prints of one blob.
unfoldable pub printed_blob : Text → Text → Text → Text → Text
printed_blob oid length content rest =
    oid ++ (b' ' ∷ (codes "blob" ++ (b' ' ∷ (length ++ (b'\n' ∷ (content ++ (b'\n' ∷ rest)))))))

blob-IsWord : IsWord (codes "blob")
unfolding is_space
blob-IsWord = (refl, (refl, (refl, (refl, (refl, tt)))))

next_line-printed_blob :
    (oid length content rest : Text)
    → NoSpace oid
    → NoSpace length
    → next_line (printed_blob oid length content rest)
      ≡ some (oid ++ (b' ' ∷ (codes "blob" ++ (b' ' ∷ (length ++ [])))), content ++ (b'\n' ∷ rest))
unfolding printed_blob next_line
next_line-printed_blob oid length content rest o n =
    rw
      (
        next_line-word oid
            (codes "blob" ++ (b' ' ∷ (length ++ (b'\n' ∷ (content ++ (b'\n' ∷ rest)))))) o,
        next_line-word (codes "blob") (length ++ (b'\n' ∷ (content ++ (b'\n' ∷ rest))))
            (blob-IsWord.1),
        next_line-append length (b'\n' ∷ (content ++ (b'\n' ∷ rest))) n,
      )
      refl

pub record Object : Type 0 where
  pub oid : Text
  pub size : Text
  pub content : Text

unfoldable pub printed : List Object → Text
printed [] = []
printed (o ∷ os) = printed_blob o.oid o.size o.content (printed os)

module _ (int : Text → Option ℕ) where
  read_blob-printed_blob :
      (oid size content rest : Text)
      → IsWord oid
      → IsWord size
      → int size ≡ some (length content)
      → read_blob int oid (printed_blob oid size content rest) ≡ some (content, rest)
  unfolding read_blob
  read_blob-printed_blob oid size content rest o n h =
      rw
        (
          next_line-printed_blob oid size content rest (o.1) (n.1),
          words_cons oid (codes "blob" ++ (b' ' ∷ (size ++ []))) o,
          words_cons (codes "blob") (size ++ []) blob-IsWord,
          words_one size n,
          text_eq_refl oid,
          h,
          add_one (length content),
          take-append content (b'\n' ∷ rest),
          drop-append content rest b'\n',
        )
        refl
    where
      add_one : (n : ℕ) → n + 1 ≡ suc n
      add_one n = omega arith

  -- A blob as the batch prints it: its name and its size are words, and the size is its length.
  abbrev pub IsPrinted : Object → Type 0
  IsPrinted o = IsWord o.oid × IsWord o.size × (int o.size ≡ some (length o.content))

  -- What a batch prints of the expected blobs is read back: each name with the content of its blob,
  -- whatever bytes, newlines among them, the contents hold.
  pub read_blobs-printed :
      (os : List Object)
      → All IsPrinted os
      → read_blobs int (map (λ (o : Object). o.oid) os) (printed os)
        ≡ some (map (λ (o : Object). (o.oid, o.content)) os)
  unfolding read_blobs printed
  read_blobs-printed [] h = refl
  read_blobs-printed (o ∷ os) ((name, size, int_size), h) =
      rw
        (
          read_blobs,
          read_blob-printed_blob o.oid o.size o.content (printed os) name size int_size,
          read_blobs-printed os h,
        )
        refl
