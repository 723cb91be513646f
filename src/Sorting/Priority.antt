-- ===== src/Sorting/Priority.antt =====
-- The power level and the priority by which Kahn's sort orders events
-- (src/resolve/sorting.rs, src/basespec/rezzy_types.rs).
use Prim.Native.Nat.{compare, Ordering}
use Prim.Native.String
use rezzy.Prelude.{
  ℕ, ◌+◌, String, Bool, true, false, ◌&&◌, ◌||◌, Option, none, some, List, [], ◌∷◌, ℤ, pos, i64_max,
  pos_part, neg_part, ◌==◌, eqb, opt_is, unwrap_or, or_else, if◌then◌else◌,
}
use rezzy.Basespec.Version.{StateResVersion, v1, v2, v2_1, v2_1_1, v2_2, v3}
use rezzy.Basespec.Event.{LeanEvent, EventProvider, dag_edges, m_room_power_levels}

-- The first cited event that is the room's power-levels event.
unfoldable pub find_pl_event : EventProvider → List String → Option LeanEvent
find_pl_event context [] = none
find_pl_event context (aid ∷ rest) = elim (context aid) [
  | none ↦ find_pl_event context rest
  | some aev ↦
      let later = find_pl_event context rest in
      if aev.event_type == m_room_power_levels && opt_is aev.state_key "" then some aev else later
]

-- The versions in which creators have infinite power here.
unfoldable pub has_infinite_creators : StateResVersion → Bool
has_infinite_creators v2_1 = true
has_infinite_creators v2_1_1 = true
has_infinite_creators v2_2 = true
has_infinite_creators _ = false

unfoldable pub is_creator_of : Option LeanEvent → String → Bool
is_creator_of none sender = false
is_creator_of (some create) sender =
    create.sender == sender || create.content.has_additional_creator sender

unfoldable pub level_from_pl_event : Option LeanEvent → LeanEvent → ℤ
level_from_pl_event none event = event.power_level
level_from_pl_event (some pl) event = elim (pl.content.user_power_level event.sender) [
  | some level ↦ level
  | none ↦ unwrap_or pl.content.users_default (pos 0)
]

unfoldable pub get_power_level_from_auth_chain :
    LeanEvent → EventProvider → Option LeanEvent → StateResVersion → ℤ
unfolding find_pl_event has_infinite_creators is_creator_of level_from_pl_event
get_power_level_from_auth_chain event context create_ev version =
    if has_infinite_creators version && is_creator_of create_ev event.sender
    then i64_max
    else level_from_pl_event (find_pl_event context (dag_edges event version)) event

pub record SortPriority : Type 0 where
  pub event : LeanEvent
  pub power_level : ℤ
  pub version : StateResVersion

-- The derived order of the enum.
unfoldable pub version_rank : StateResVersion → ℕ
version_rank v1 = 0
version_rank v2 = 1
version_rank v2_1 = 2
version_rank v2_1_1 = 3
version_rank v2_2 = 4
version_rank v3 = 5

abbrev pub compare_ℤ : ℤ → ℤ → Ordering
compare_ℤ a b = compare (pos_part a + neg_part b) (pos_part b + neg_part a)

unfoldable pub cmp_v1 : SortPriority → SortPriority → Ordering
cmp_v1 a b =
    or_else (compare a.event.depth b.event.depth) (String.compare a.event.event_id b.event.event_id)

-- Greater is a higher level, then an earlier timestamp, then a smaller id.
unfoldable pub cmp_v2 : SortPriority → SortPriority → Ordering
cmp_v2 a b = or_else (compare_ℤ a.power_level b.power_level) (
    or_else (compare b.event.origin_server_ts a.event.origin_server_ts)
      (String.compare b.event.event_id a.event.event_id))

-- `SortPriority::cmp`
unfoldable pub cmp : SortPriority → SortPriority → Ordering
unfolding version_rank cmp_v1 cmp_v2
cmp a b =
    let ranks = compare (version_rank a.version) (version_rank b.version) in
    or_else ranks (if eqb (version_rank a.version) 0 then cmp_v1 a b else cmp_v2 a b)
