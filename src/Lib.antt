-- ===== src/Lib.antt =====
-- Verification of rezzy, a Matrix state-resolution engine in Rust.
--
-- A room of the Matrix network is a graph of signed events. Each server keeps the events that it
-- receives, rejects those that the rules of the room do not authorise, and, where the graph has
-- forked, resolves the states of the forks to one. This library models the parts of the engine that
-- do this, from the crate's sources:
--
-- - The auth checks, `src/auth/mod.rs` and `src/auth/user.rs`. `check_auth_with_context` decides
--   whether an event is authorised by a state and by the events that it cites. `check_auth` is its
--   form without citations, and `validate_forward_extremity` applies it to two states.
-- - Kahn's sort of power events, `src/resolve/sorting.rs`: `KahnSortInputs::with_cycle_diagnostics`
--   and `KahnSortInputs::sort`, with the order `SortPriority::cmp` of `src/basespec/rezzy_types.rs`.
-- - The mainline, `src/resolve/sorting.rs`: the chain of power-levels events behind a state,
--   `build_mainline_with_cache`, and the sort of other events by it, `mainline_sort`.
-- - The iterative resolution, `src/resolve/iterative.rs`, with the local auth contexts and the
--   overlay of `src/state/at.rs` and `route_power_events` of `src/resolve/semilattice.rs`. It splits
--   the conflicted events, sorts the power events by Kahn's sort and the others by the mainline, and
--   admits each that `check_auth` lets pass in the state resolved so far.
--   Its variant that reports deltas is modelled too.
-- - The delta between two states, its application, and chains of deltas with snapshots,
--   `src/state/delta.rs`.
-- - The dense index of ids, `src/dense_index.rs`.
--
-- Which file models which part:
--
-- - Prelude: texts, tests, `Result` with do blocks, integers, lists and maps, comparisons.
-- - Basespec/Version: room versions and the algorithm that each selects. Basespec/Mxid: user ids.
--   Basespec/Event: events, their content and the providers (`src/basespec/rezzy_types.rs`).
-- - Auth/Error, State, Levels, Members, PowerLevels, Citations, Check: the checks, one definition for
--   each function of the source, and one for each block of `check_auth_with_context`. A function that
--   returns `Result<(), AuthError>` returns `Result` here, and its early returns are the `>>` of a
--   do block. A state is a function from an event type and a state key to an event, as
--   `StateProvider` is a trait with that one method.
-- - Auth/Accepted, Senders, Membership, Joins, Cited, Escalation: what acceptance means.
--   Auth/Unverified: checks with a verifier and without one.
-- - Sorting/Priority: the level and the priority of an event. Sorting/Kahn: the sort. Its children
--   prove the graph's degrees (Degrees), the loop's invariant (Invariant, Drain, Start), and the result
--   (Order, Spec, Acyclic). Sorting/Order: the comparison. Sorting/Fallback: `sort`, with
--   the order of the ids of a cycle (Insertion) and the whole result (Total, Determinism).
--   Sorting/Greedy: the order of the result described without the loop.
--   Sorting/BuildMainline: the mainline, and the chain that it is (Chain). Sorting/Mainline: the
--   closest positions, as a walk gives them (Closest, Positions), and the sort (Order, Members).
-- - Resolve/State: maps of state and of events. Resolve/LocalAuth: the local auth context and its
--   cache (Context). Resolve/Overlay: the state that a check sees. Resolve/Power: the power events,
--   their routing (Routing), expansion (Expansion, Closure, Phase) and supplement (Ancestry).
--   Resolve/Iterative: the checks and the merges; its child Resolver holds the entry points.
--   Run says what a run of checks is, and Promise what a resolution promises; Inputs, View,
--   Steps, Accepted, Merge, Returns and Total prove it, and Senders who decided a value.
--   Resolve/Iterative/Deltas: the variant with deltas (Loops and Same compare it with the plain
--   one).
-- - State/Delta: the delta (Reads, RoundTrip). State/Checkpoints: chains of them (Hops, Rebuilt).
--   DenseIndex: the index (Distinctness, Built).
-- - Examples: a small room, a small graph, tests, and the theorems at concrete inputs.
--
-- Conventions. A type parameter of the source stands at its default: ids and state keys are texts.
-- `EventContent` is a trait, so a content here is the record of the values of its accessors; what
-- a parser makes of JSON is not modelled, and a theorem that needs the accessors to agree with
-- each other says so. `EventVerifier`, which the host implements, is a parameter. An `i64` is an
-- integer without bounds, and its saturating increment has the bound written out. A `HashMap` is a
-- list of entries in any order; theorems about it suppose distinct keys. A `BinaryHeap` is a list
-- from which `pop` takes a greatest element. `unwrap` on a missing value is `none`, and so is a
-- loop whose fuel is used up; the sort's loop has one unit more than there are events, which is
-- proved enough. A loop over a queue takes a unit of fuel for each id that is pushed
-- (Prelude/Queue), and `fuel_bound` (Resolve/Iterative/Returns) says how much is enough for all
-- loops of a resolution. The degrees of the sort count entries of vectors, so they do not reach
-- `usize::MAX`.
--
-- Not modelled: the resolution of many states, the semilattice resolution, the cache of
-- snapshots, hashes and tries, reachability, the parsing and printing of JSON,
-- redaction, signatures, set reconciliation, the command line and the bindings.
pub mod Prelude
pub mod Basespec
pub mod Auth
pub mod Sorting
pub mod Resolve
pub mod Examples
pub mod State
pub mod DenseIndex
