-- ===== src/Presets/Segments.antt =====
-- The segmented decks of presets.py, number by number, and `nuclear_grid_at_angle`. A deck is the list
-- of arguments that the builders give to `segmented_grid`, a function of the qscat library.
use qscat.Prelude.{ℕ, ◌≡◌, Option, none, some, List, [], ◌∷◌, arith}
use qscat.Prelude.Dict.{Dict, lookup}
use qscat.Python.{pos, Result, ok, raise, no_nuclear_deck, Runtime}
use qscat.Config.Types.{ExperimentConfig}

-- Each part of a deck: a number of elements, and the boundary that they reach.
pub record Deck (F : Type 0) : Type 0 where
  pub real : List (ℕ × F)
  pub complex : List (ℕ × F)
  pub angle_deg : F
  pub quadrature : ℕ

module _ (R : Runtime) where
  abbrev pub no_nuc_real : List (ℕ × R.Float)
  no_nuc_real =
      (1, R.decimal (pos 10) 1) ∷ (1, R.decimal (pos 16) 1) ∷ (37, R.decimal (pos 90) 1) ∷ []

  abbrev pub no_nuc_complex : List (ℕ × R.Float)
  no_nuc_complex =
      (1, R.decimal (pos 925) 2)
      ∷ (1, R.decimal (pos 100) 1)
      ∷ (1, R.decimal (pos 120) 1)
      ∷ (4, R.decimal (pos 420) 1)
      ∷ []

  abbrev pub f2_nuc_real : List (ℕ × R.Float)
  f2_nuc_real =
      (9, R.decimal (pos 18) 1)
      ∷ (1, R.decimal (pos 20) 1)
      ∷ (5, R.decimal (pos 25) 1)
      ∷ (4, R.decimal (pos 2596908) 6)
      ∷ (4, R.decimal (pos 27) 1)
      ∷ (40, R.decimal (pos 107) 1)
      ∷ []

  abbrev pub f2_nuc_complex : List (ℕ × R.Float)
  f2_nuc_complex =
      (1, R.decimal (pos 108) 1)
      ∷ (1, R.decimal (pos 110) 1)
      ∷ (1, R.decimal (pos 115) 1)
      ∷ (1, R.decimal (pos 125) 1)
      ∷ (1, R.decimal (pos 140) 1)
      ∷ (1, R.decimal (pos 180) 1)
      ∷ (4, R.decimal (pos 300) 1)
      ∷ (2, R.decimal (pos 1010) 1)
      ∷ []

  abbrev pub o2_elec_real : List (ℕ × R.Float)
  o2_elec_real =
      (26, R.decimal (pos 1335887) 6)
      ∷ (1, R.decimal (pos 1713557) 6)
      ∷ (1, R.decimal (pos 2200777) 6)
      ∷ (1, R.decimal (pos 2477971) 6)
      ∷ (1, R.decimal (pos 2616568) 6)
      ∷ (4, R.decimal (pos 2893762) 6)
      ∷ (1, R.decimal (pos 3032359) 6)
      ∷ (1, R.decimal (pos 3309552) 6)
      ∷ (3, R.decimal (pos 4972715) 6)
      ∷ (1, R.decimal (pos 5249909) 6)
      ∷ (1, R.decimal (pos 5388506) 6)
      ∷ (4, R.decimal (pos 5665699) 6)
      ∷ (1, R.decimal (pos 5804296) 6)
      ∷ (1, R.decimal (pos 608149) 5)
      ∷ (1, R.decimal (pos 6635877) 6)
      ∷ (1, R.decimal (pos 8298146) 6)
      ∷ (1, R.decimal (pos 9709861) 6)
      ∷ (1, R.decimal (pos 11027766) 6)
      ∷ (1, R.decimal (pos 12294768) 6)
      ∷ (1, R.decimal (pos 13529715) 6)
      ∷ (1, R.decimal (pos 14742692) 6)
      ∷ (1, R.decimal (pos 15939749) 6)
      ∷ (1, R.decimal (pos 17124803) 6)
      ∷ (1, R.decimal (pos 18300528) 6)
      ∷ (1, R.decimal (pos 19468831) 6)
      ∷ (1, R.decimal (pos 1999998) 5)
      ∷ []

  abbrev pub o2_elec_complex : List (ℕ × R.Float)
  o2_elec_complex =
      (2, R.decimal (pos 46929626) 6)
      ∷ (1, R.decimal (pos 63375598) 6)
      ∷ (1, R.decimal (pos 83462753) 6)
      ∷ (1, R.decimal (pos 107997261) 6)
      ∷ (1, R.decimal (pos 137963775) 6)
      ∷ []

  abbrev pub o2_nuc_real : List (ℕ × R.Float)
  o2_nuc_real =
      (22, R.decimal (pos 1650755) 6)
      ∷ (2, R.decimal (pos 1804038) 6)
      ∷ (2, R.decimal (pos 1954796) 6)
      ∷ (2, R.decimal (pos 2109889) 6)
      ∷ (2, R.decimal (pos 2262361) 6)
      ∷ (2, R.decimal (pos 2414378) 6)
      ∷ (2, R.decimal (pos 2569938) 6)
      ∷ (2, R.decimal (pos 272583) 5)
      ∷ (2, R.decimal (pos 2877165) 6)
      ∷ (2, R.decimal (pos 3030356) 6)
      ∷ (2, R.decimal (pos 3185877) 6)
      ∷ (2, R.decimal (pos 3336426) 6)
      ∷ (2, R.decimal (pos 3488046) 6)
      ∷ (2, R.decimal (pos 3639623) 6)
      ∷ (2, R.decimal (pos 3798035) 6)
      ∷ (2, R.decimal (pos 3953462) 6)
      ∷ (2, R.decimal (pos 4103964) 6)
      ∷ (2, R.decimal (pos 4257053) 6)
      ∷ (2, R.decimal (pos 4411877) 6)
      ∷ (2, R.decimal (pos 4567795) 6)
      ∷ (2, R.decimal (pos 472437) 5)
      ∷ (2, R.decimal (pos 4881324) 6)
      ∷ (2, R.decimal (pos 5038491) 6)
      ∷ (2, R.decimal (pos 5195774) 6)
      ∷ (2, R.decimal (pos 535312) 5)
      ∷ (2, R.decimal (pos 55105) 4)
      ∷ (2, R.decimal (pos 5667897) 6)
      ∷ (2, R.decimal (pos 5825303) 6)
      ∷ (2, R.decimal (pos 5982714) 6)
      ∷ (2, R.decimal (pos 6140127) 6)
      ∷ (2, R.decimal (pos 6297541) 6)
      ∷ (2, R.decimal (pos 6454956) 6)
      ∷ (2, R.decimal (pos 6612371) 6)
      ∷ (2, R.decimal (pos 6769787) 6)
      ∷ (2, R.decimal (pos 6927202) 6)
      ∷ (2, R.decimal (pos 7084618) 6)
      ∷ (2, R.decimal (pos 7242034) 6)
      ∷ (2, R.decimal (pos 7399449) 6)
      ∷ (2, R.decimal (pos 7556865) 6)
      ∷ (2, R.decimal (pos 7714281) 6)
      ∷ (4, R.decimal (pos 8029112) 6)
      ∷ []

  abbrev pub o2_nuc_complex : List (ℕ × R.Float)
  o2_nuc_complex =
      (2, R.decimal (pos 8252148) 6)
      ∷ (1, R.decimal (pos 8388356) 6)
      ∷ (1, R.decimal (pos 8554721) 6)
      ∷ (1, R.decimal (pos 875792) 5)
      ∷ (1, R.decimal (pos 9006108) 6)
      ∷ []

  -- `_no_nuc_grid`
  unfoldable pub no_nuc_grid : R.Float → Deck R.Float
  no_nuc_grid angle = record {
    real = no_nuc_real;
    complex = no_nuc_complex;
    angle_deg = angle;
    quadrature = 14;
  }

  -- `_f2_nuc_grid`
  unfoldable pub f2_nuc_grid : R.Float → Deck R.Float
  f2_nuc_grid angle = record {
    real = f2_nuc_real;
    complex = f2_nuc_complex;
    angle_deg = angle;
    quadrature = 14;
  }

  -- `_o2_elec_grid`
  abbrev pub o2_elec_grid : Deck R.Float
  o2_elec_grid = record {
    real = o2_elec_real;
    complex = o2_elec_complex;
    angle_deg = R.decimal (pos 350) 1;
    quadrature = 6;
  }

  -- `_o2_nuc_grid`
  abbrev pub o2_nuc_grid : Deck R.Float
  o2_nuc_grid = record {
    real = o2_nuc_real;
    complex = o2_nuc_complex;
    angle_deg = R.decimal (pos 350) 1;
    quadrature = 6;
  }

  -- `_NUC_GRID_BUILDERS`
  unfoldable pub nuc_grid_builders : Dict (R.Float → Deck R.Float)
  unfolding no_nuc_grid f2_nuc_grid
  nuc_grid_builders = ("NO", no_nuc_grid) ∷ ("F2", f2_nuc_grid) ∷ []

  abbrev pub build_at : R.Float → Option (R.Float → Deck R.Float) → Result (Deck R.Float)
  build_at angle none = raise no_nuclear_deck
  build_at angle (some builder) = ok (builder angle)

  unfoldable pub nuclear_grid_at_angle : ExperimentConfig R.Float → R.Float → Result (Deck R.Float)
  unfolding nuc_grid_builders
  nuclear_grid_at_angle cfg angle = build_at angle (lookup cfg.molecule nuc_grid_builders)

  -- Two decks of one config, at two angles, differ in their angle only: they have the same real
  -- elements, the same tail elements and the same quadrature.
  nuclear_grid_at_angle_lem :
      (cfg : ExperimentConfig R.Float) (a b : R.Float) (g h : Deck R.Float)
      → nuclear_grid_at_angle cfg a ≡ ok g
      → nuclear_grid_at_angle cfg b ≡ ok h
      → (g.real ≡ h.real)
        × (g.complex ≡ h.complex)
        × (g.quadrature ≡ h.quadrature)
        × (g.angle_deg ≡ a)
        × (h.angle_deg ≡ b)
  unfolding nuclear_grid_at_angle nuc_grid_builders no_nuc_grid f2_nuc_grid
  nuclear_grid_at_angle_lem cfg a b g h p q = ground arith
