-- ===== src/Config/Load/Td.antt =====
-- `_load_td` and `_load_nrm` of config.py.
use qscat.Prelude.{String, true, Option, none, some, List, [], ◌∷◌, map, if◌then◌else◌}
use qscat.Prelude.Text.{◌<>◌}
use qscat.Prelude.Dict.{Dict, insert}
use qscat.Python.{
  pos, Place, block, attribute_error, Result, ok, err, ◌>>=◌, Value, int, bool, seq, nil, mapping,
  entries, is_null, Runtime,
}
use qscat.Python.Convert.{member, iterate, get, get_default, truthy, to_int, to_text}
use qscat.Config.Types.{IncidentSpec, TestFunctionSpec, TdSpec, NrmSpec}
use qscat.Config.Load.Common.{block_of, optional, require_float, require_int}

module _ (R : Runtime) where
  unfoldable pub load_incident : Value R.Float → Result (IncidentSpec R.Float)
  unfolding require_float
  load_incident raw = do
    let place = block "td.incident"
    r0 ← require_float R raw "r0" place
    p0 ← require_float R raw "p0" place
    sigma ← require_float R raw "sigma" place
    ok (record { r0 = r0; p0 = p0; sigma = sigma })

  unfoldable pub load_packet : Place → Value R.Float → Result (TestFunctionSpec R.Float)
  unfolding require_float
  load_packet place raw = do
    r0_out ← require_float R raw "r0_out" place
    p0_out ← require_float R raw "p0_out" place
    sigma_out ← require_float R raw "sigma_out" place
    ok (record { r0_out = r0_out; p0_out = p0_out; sigma_out = sigma_out })

  -- The loop over `tr.items()`, which fills `test_functions`.
  unfoldable pub load_packets :
      Dict (TestFunctionSpec R.Float)
      → Dict (Value R.Float)
      → Result (Dict (TestFunctionSpec R.Float))
  load_packets done [] = ok done
  load_packets done ((kind, raw) ∷ rest) = do
    packet ← load_packet (block ("td.test_function." <> kind)) raw
    load_packets (insert kind packet done) rest

  -- `tr.items()`
  abbrev items_of : Value R.Float → Result (Dict (Value R.Float))
  items_of (mapping fs) = ok (entries fs)
  items_of _ = err attribute_error

  abbrev pub Packets : Type 0
  Packets = Option (TestFunctionSpec R.Float) × Option (Dict (TestFunctionSpec R.Float))

  -- A flat packet, if the block has a key `r0_out`, or one packet for each kind.
  unfoldable pub load_test_functions : Value R.Float → Result Packets
  load_test_functions raw = do
    flat ← member "r0_out" raw
    let one = load_packet (block "td.test_function") raw >>= λ packet. ok (some packet, none)
    let many = (do fields ← items_of raw; packets ← load_packets [] fields; ok (none, some packets))
    if flat then one else many

  -- `test_function`, the written form, or else `test_functions`, the resolved one.
  unfoldable pub load_either : Value R.Float → Value R.Float → Result Packets
  load_either written resolved =
      let raw = if is_null written then resolved else written in
      let given = load_test_functions raw in if is_null raw then ok (none, none) else given

  unfoldable pub parse_td : Value R.Float → Result (TdSpec R.Float)
  unfolding block_of require_float require_int
  parse_td raw = do
    incident_raw ← block_of raw "incident"
    incident ← optional load_incident incident_raw
    written ← block_of raw "test_function"
    resolved ← block_of raw "test_functions"
    packets ← load_either written resolved
    dt ← require_float R raw "dt" (block "td")
    n_steps ← require_int R raw "n_steps" (block "td")
    order_raw ← get_default raw "order" (int (pos 3))
    order ← to_int R order_raw
    names_raw ← get_default raw "extractors" (seq nil)
    names ← iterate names_raw
    ok (record {
      dt = dt;
      n_steps = n_steps;
      order = order;
      extractors = map (to_text R) names;
      incident = incident;
      test_function = packets.0;
      test_functions = packets.1;
    })

  -- `None` for an absent block.
  unfoldable pub load_td : Value R.Float → Result (Option (TdSpec R.Float))
  unfolding parse_td
  load_td = optional parse_td

  -- `tuple(str(c).lower() for c in choices)`, or the default.
  unfoldable pub load_choices : Value R.Float → Result (List String)
  load_choices raw =
      let given = iterate raw >>= λ cs. ok (map (λ c. R.lower (to_text R c)) cs) in
      if is_null raw then ok ("b" ∷ []) else given

  unfoldable pub parse_nrm : Value R.Float → Result NrmSpec
  unfolding load_choices
  parse_nrm raw = do
    choices_raw ← get raw "choices"
    choices ← load_choices choices_raw
    states_raw ← get_default raw "n_states" (int (pos 100))
    n_states ← to_int R states_raw
    background ← get_default raw "include_background" (bool true)
    ok (record { choices = choices; n_states = n_states; include_background = truthy R background })

  -- `None` for an absent block.
  unfoldable pub load_nrm : Value R.Float → Result (Option NrmSpec)
  unfolding parse_nrm
  load_nrm = optional parse_nrm
