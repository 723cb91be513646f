-- ===== src/Examples.antt =====
-- A small room, tests of the code on it, and the theorems at concrete inputs.
mod Room
mod Auth
mod Cited
mod Sorting
mod Verifier
mod Labels
mod Mainline
mod Resolve
mod Senders
mod Deltas
mod State
mod Dense
