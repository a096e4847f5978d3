-- ===== src/Python/Values.antt =====
-- What `yaml.safe_load` and `json.loads` return: mappings have text keys (what the sources read),
-- and dates, bytes and sets of YAML are left out. `F` is the type of floats.
use qscat.Prelude.{String, Bool, true, false, List, [], ◌∷◌}
use qscat.Prelude.Dict.{Dict}
use qscat.Python.Integers.{ℤ}

mutual
  pub data Value (F : Type 0) : Type 0 where
    null : Value F
    bool : Bool → Value F
    int : ℤ → Value F
    float : F → Value F
    text : String → Value F
    seq : Items F → Value F
    mapping : Fields F → Value F

  pub data Items (F : Type 0) : Type 0 where
    nil : Items F
    cons : Value F → Items F → Items F

  pub data Fields (F : Type 0) : Type 0 where
    end : Fields F
    field : String → Value F → Fields F → Fields F

module _ {F : Type 0} where
  abbrev pub items : Items F → List (Value F)
  items nil = []
  items (cons v vs) = v ∷ items vs

  abbrev pub entries : Fields F → Dict (Value F)
  entries end = []
  entries (field k v fs) = (k, v) ∷ entries fs

  abbrev pub of_items : List (Value F) → Items F
  of_items [] = nil
  of_items (v ∷ vs) = cons v (of_items vs)

  abbrev pub of_entries : Dict (Value F) → Fields F
  of_entries [] = end
  of_entries ((k, v) ∷ fs) = field k v (of_entries fs)

  -- A Python list and a Python dict as values.
  abbrev pub a_list : List (Value F) → Value F
  a_list vs = seq (of_items vs)

  abbrev pub a_dict : Dict (Value F) → Value F
  a_dict fs = mapping (of_entries fs)

  abbrev pub is_null : Value F → Bool
  is_null null = true
  is_null _ = false
