-- ===== src/Lib.antt =====
-- A verification library for qscat-run, the application of this repository that reads a description
-- of an electron scattering run, completes it from presets, runs it, and publishes and fetches its
-- artifacts; and for the repository's search tool, which indexes its main branch.
--
-- The parts, with the files that model them (paths from the repository's root):
--   apps/qscat-run/qscat_run/config.py: Config. Types has the frozen dataclasses, Load has
--     `load_config` and, in its children, a loader for each block. A loader takes a `Value`, what
--     YAML or JSON gave, and returns a `Result`: the value, a ConfigError with its place, or the
--     exception of the Python built-in that refused. Dump is `_config_to_dict` of artifacts.py,
--     which is `dataclasses.asdict`; RoundTrip relates the two.
--   apps/qscat-run/qscat_run/presets.py: Presets. Decks has the record of a preset, whose grid
--     builders are names; Segments has the decks of segments in numbers; Table
--     has the tables; Resolve has the resolution functions, up to `resolve_defaults`, which completes a config before it is run and dumped.
--   `validate_config` of config.py: Validate, over the presets and a parameter for the reference
--     files. Its warnings are left out.
--   apps/qscat-run/qscat_run/runner.py: Runner, with the channels of an observable and the size of
--     the vibrational basis. TimeIndependent, TimeDependent, Lcp and Nrm are `_run_ti`, `_run_td`,
--     `_run_lcp` and `_run_nrm`, Keys the names of series, and Experiment is `run_experiment`, which
--     completes the config by `resolve_defaults`, runs the requested methods in this order and merges
--     their series. Requested has the names that a config asks for, written down apart from the code.
--   apps/qscat-run/qscat_run/reference.py: Reference, with the loop over the references in
--     `write_artifacts` of artifacts.py and `_disambiguated_labels`. `load_dataset` is
--     `load_reference`, and `load_datasets` the loop.
--   libs/qscat/qscat/dvr/grid.py: Dvr, the index layout `element_maps` of a grid.
--   apps/qscat-run/qscat_run/artifact_store.py: ArtifactStore. Names has the errors and
--     `_check_name`, Urls the checks of URLs and `url_for`, Pointer the pointer file, and Fetch
--     `fetch` with its two loops as state passing over a disk.
--   tools/agent_search, the repository's search tool: AgentSearch. Service has the state of
--     `SearchService` of service.py and its operations, Steps the order in which the event loop may
--     choose them, Leases the leases of mounts. Chunks is `split_units` of chunks.py, Index is
--     `make_records` of __main__.py with, in its children, `reconcile` (Reconcile) and `describe` and
--     `ensure_main` (Ensure). Source and Objects are `MainSource` and `read_blobs` of git_source.py.
--     The service runs `ensure_main` in a thread, and `ensure_main` calls `reconcile`, which calls
--     `make_records`.
--   Python has what these share of the language: integers, exceptions, loaded values and the
--   built-ins on them. Prelude has the shared names, and dicts as association lists.
--
-- Parameters. A `Runtime` has the floats, `int` and `float` of floats and texts, `repr` and
-- `str.lower`. The store takes `urllib.parse.urlsplit` and `str.lower`, the resolution of a path in
-- the file system, the digest of bytes, an opener, and the writing of a file, which may fail and leave
-- anything at its path. `fetch` reads the pointer from the disk that it writes. The resolution of a
-- path does not change while `fetch` runs, `urlsplit` and the port of its result are taken to be
-- readable, and where the opener follows redirects is its own. Texts that the store takes apart are
-- lists of code points, and paths are lists of components.
--
-- The runner takes the solvers of the qscat library (`Solvers`): one abstract type stands for all
-- arrays. A solver is taken to return, and so is `EnergySpec.as_array`, which raises for a step of
-- 0. An extractor is a value that a propagation maps to another, and a solver knows the model of a
-- molecule by its name. A reference file is what `np.loadtxt` gives for its path.
--
-- The search tool takes the tokenizer, sha256 and `fingerprint`, the splitting of a blob, the
-- embedding model, what `fetch` gives, the legacy vectors, the clock, and the name and version of a
-- new generation. A file is read and written whole under the writer's lock. The creation of a
-- generation's table and of its text index is taken to succeed: the unpublished generation that a
-- failed build leaves is not in the model.
--
-- All loops are over lists and are structural recursion, but two: the loop of `split_units` over a
-- unit has as many rounds as the unit has tokens, and one more, which are proved enough for a target
-- of two tokens or more; and the embedding has one round for each 64 texts.
--
-- The builders of grids are names, and an explicit grid is the pair of its halves: neither is run, so
-- the `GridError` that a builder may raise is not in the model.
--
-- Not modelled: the timings of a run and the command line, the queries of the search tool and its
-- parsers, the resolution of a mount, the writing of arrays and figures,
-- the rest of the numerical library in libs/qscat and its native kernels, and the projects, which are
-- floating-point code over numpy.
pub mod Prelude
pub mod Python
pub mod Config
pub mod Presets
pub mod Validate
pub mod Reference
pub mod Runner
pub mod Dvr
pub mod ArtifactStore
pub mod AgentSearch
pub mod Tests
