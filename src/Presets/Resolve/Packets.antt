-- ===== src/Presets/Resolve/Packets.antt =====
-- Which test packet a kind of observable gets, before and after the defaults are filled in.
use qscat.Prelude.{
  String, ◌≡◌, refl, ◌∙◌, Option, none, some, List, [], ◌∷◌, arith, str_eq, if◌then◌else◌,
}
use text.Mathlib.TextEquality.{eq_iff}
use qscat.Prelude.Text.{contains}
use qscat.Prelude.Dict.{Dict, lookup, lookup-insert, str_eq_comm}
use qscat.Python.{Runtime}
use qscat.Config.Types.{TestFunctionSpec, TdSpec}
use qscat.Presets.Decks.{MoleculePreset}
use qscat.Presets.Resolve.{
  or_else, or_empty, put_some, none_if_empty, find_packet, test_function_for_kind, fill_packet,
  fill_packets, fill_td,
}

lookup-put_some :
    {V : Type 0} (j k : String) (o : Option V) (d : Dict V)
    → lookup j (put_some k o d) ≡ (if str_eq k j then or_else o (lookup j d) else lookup j d)
lookup-put_some j k none d = ground arith
lookup-put_some j k (some v) d = lookup-insert k j v d

find_packet-none_if_empty :
    {F : Type 0} (k : String) (d : Dict (TestFunctionSpec F))
    → find_packet k (none_if_empty d) ≡ lookup k d
find_packet-none_if_empty k [] = refl
find_packet-none_if_empty k (e ∷ d) = refl

lookup-or_empty :
    {F : Type 0} (k : String) (o : Option (Dict (TestFunctionSpec F)))
    → lookup k (or_empty o) ≡ find_packet k o
lookup-or_empty k none = refl
lookup-or_empty k (some d) = refl

module _ (R : Runtime) (td : TdSpec R.Float) (p : MoleculePreset R.Float)
    (kinds : List String) where
  abbrev pub chosen : String → Option (TestFunctionSpec R.Float)
  chosen k = test_function_for_kind td (some p) k kinds

  lookup-fill_packet :
      (j k : String) (d : Dict (TestFunctionSpec R.Float))
      → lookup j (fill_packet R td p kinds k d)
        ≡ or_else (lookup j d) (if str_eq k j then chosen j else none)
  lookup-fill_packet j k d =
      lookup-put_some j k (or_else (lookup k d) (chosen k)) d ∙ ground (arith, eq_iff k j)

  -- What the loop leaves under a kind does not depend on the order in which it takes the kinds.
  pub lookup-fill_packets :
      (j : String) (ks : List String) (d : Dict (TestFunctionSpec R.Float))
      → lookup j (fill_packets R td p kinds ks d)
        ≡ or_else (lookup j d) (if contains j ks then chosen j else none)
  unfolding fill_packets
  lookup-fill_packets j [] d = ground arith
  lookup-fill_packets j (k ∷ ks) d =
      lookup-fill_packets j ks (fill_packet R td p kinds k d)
      ∙ rw (lookup-fill_packet j k d) (ground (arith, str_eq_comm j k))

  find_packet-fill_td :
      (j : String)
      → find_packet j (fill_td R p kinds td).test_functions
        ≡ or_else (find_packet j td.test_functions) (if contains j kinds then chosen j else none)
  unfolding fill_td
  find_packet-fill_td j =
      find_packet-none_if_empty j _
      ∙ lookup-fill_packets j kinds (or_empty td.test_functions)
      ∙ rw lookup-or_empty

  -- A packet is resolved from a `td` block with its defaults filled in as it was before.
  pub test_function_for_kind-fill_td :
      (j : String)
      → test_function_for_kind (fill_td R p kinds td) (some p) j kinds
        ≡ test_function_for_kind td (some p) j kinds
  unfolding test_function_for_kind
  test_function_for_kind-fill_td j = rw (find_packet-fill_td j) (unfold fill_td in ground arith)
