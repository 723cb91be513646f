-- ===== src/Sorting/Mainline.antt =====
-- The mainline sort (src/resolve/sorting.rs).
pub mod Closest
pub mod Positions
pub mod Order
pub mod Members
use Prim.Native.Nat.{compare, Ordering}
use Prim.Native.String
use rezzy.Prelude.{
  ℕ, zero, suc, ◌+◌, String, Bool, Option, none, some, List, [], ◌∷◌, ◌==◌, or_else, length,
  is_some_and, if◌then◌else◌, lookup, put, sort_by, map,
}
use rezzy.Basespec.Version.{StateResVersion}
use rezzy.Basespec.Event.{LeanEvent, EventProvider, dag_edges, m_room_power_levels}

-- What `memo` holds of an id: `usize::MAX - 1`, while it is on the stack, or its position.
pub data Mark : Type 0 where
  in_progress : Mark
  at : ℕ → Mark

abbrev pub Memo : Type 0
Memo = List (String × Mark)

-- `memo.insert(id.clone(), pos)` for each id of the mainline.
unfoldable pub number_from : ℕ → List String → Memo → Memo
number_from pos [] memo = memo
number_from pos (id ∷ rest) memo = number_from (suc pos) rest (put id (at pos) memo)

abbrev pub is_pl_event : EventProvider → String → Bool
is_pl_event context aid = is_some_and (context aid) (λ a. a.event_type == m_room_power_levels)

-- `.iter().find(…)`
abbrev pub find_pl : EventProvider → List String → Option String
find_pl context [] = none
find_pl context (aid ∷ rest) = if is_pl_event context aid then some aid else find_pl context rest

-- The power-levels event that the event of an id cites first.
unfoldable pub pl_edge : EventProvider → StateResVersion → String → Option String
pl_edge context version id = elim (context id) [
  | none ↦ none
  | some node ↦ find_pl context (dag_edges node version)
]

-- One round of `while let Some(&top) = stack.last()`.
pub data Turn : Type 0 where
  popped : Memo → Turn
  pushed : String → Memo → Turn

unfoldable pub settle : ℕ → Option String → String → Memo → Turn
settle len none top memo = popped (put top (at len) memo)
settle len (some aid) top memo = elim (lookup aid memo) [
  | none ↦ pushed aid memo
  | some in_progress ↦ popped (put top (at len) memo)
  | some (at pos) ↦ popped (put top (at pos) memo)
]

unfoldable pub turn : EventProvider → StateResVersion → ℕ → String → Memo → Turn
unfolding settle
turn context version len top memo = elim (lookup top memo) [
  | some (at val) ↦ popped memo
  | some in_progress ↦ settle len (pl_edge context version top) top memo
  | none ↦ settle len (pl_edge context version top) top (put top in_progress memo)
]

-- The loop over the stack; `none` is fuel that ran out.
unfoldable pub climb : EventProvider → StateResVersion → ℕ → ℕ → List String → Memo → Option Memo
climb context version len zero stack memo = none
climb context version len (suc fuel) [] memo = some memo
climb context version len (suc fuel) (top ∷ rest) memo = elim (turn context version len top memo) [
  | popped memo' ↦ climb context version len fuel rest memo'
  | pushed aid memo' ↦ climb context version len fuel (aid ∷ top ∷ rest) memo'
]

unfoldable pub climb_all :
    EventProvider → StateResVersion → ℕ → ℕ → List LeanEvent → Memo → Option Memo
climb_all context version len fuel [] memo = some memo
climb_all context version len fuel (ev ∷ events) memo =
    elim (climb context version len fuel (ev.event_id ∷ []) memo) [
      | none ↦ none
      | some memo' ↦ climb_all context version len fuel events memo'
    ]

unfoldable pub compute_closest_mainline_positions :
    ℕ → List LeanEvent → List String → EventProvider → StateResVersion → Option Memo
compute_closest_mainline_positions fuel events mainline context version =
    climb_all context version (length mainline) fuel events (number_from 0 mainline [])

-- `*dist.get(ev.event_id()).unwrap_or(&mainline.len())`; when the loop is done, no id is in progress.
abbrev pub position_in : ℕ → Memo → String → ℕ
position_in len memo id = elim (lookup id memo) [
  | some (at pos) ↦ pos
  | some in_progress ↦ len
  | none ↦ len
]

abbrev pub Decorated : Type 0
Decorated = LeanEvent × ℕ

unfoldable pub decorate : ℕ → Memo → List LeanEvent → List Decorated
decorate len memo [] = []
decorate len memo (ev ∷ events) = (ev, position_in len memo ev.event_id) ∷ decorate len memo events

unfoldable pub cmp_mainline : Decorated → Decorated → Ordering
cmp_mainline (a, pos_a) (b, pos_b) =
    or_else (compare pos_b pos_a) (
      or_else (compare a.origin_server_ts b.origin_server_ts)
        (String.compare a.event_id b.event_id))

abbrev pub undecorate : List Decorated → List LeanEvent
undecorate [] = []
undecorate ((ev, pos) ∷ rest) = ev ∷ undecorate rest

unfoldable pub mainline_sort :
    ℕ → List LeanEvent → List String → EventProvider → StateResVersion → Option (List LeanEvent)
mainline_sort fuel events mainline context version =
    elim (compute_closest_mainline_positions fuel events mainline context version) [
      | none ↦ none
      | some dist ↦
          some (undecorate (sort_by cmp_mainline (decorate (length mainline) dist events)))
    ]
