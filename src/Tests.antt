-- ===== src/Tests.antt =====
-- Concrete runs: the theorems at small inputs, and the functions evaluated.
mod Toy
mod Configs
mod Store
mod Checks
mod Runs
mod Experiment
mod References
mod Grids
mod Search
mod Index
