-- ===== src/Sorting/BuildMainline.antt =====
-- The mainline: the power-levels event of a state, the nearest power-levels event behind it, and so
-- on (src/resolve/sorting.rs, `build_mainline_with_cache`).
pub mod Chain
use rezzy.Prelude.{
  ℕ, zero, suc, ◌+◌, String, Bool, true, false, Option, none, some, List, [], ◌∷◌, ◌++◌, ◌==◌,
  if◌then◌else◌, contains, length, lookup, put, Round, push, break, run_queue,
}
use rezzy.Basespec.Version.{StateResVersion}
use rezzy.Basespec.Event.{LeanEvent, EventProvider, dag_edges, m_room_power_levels}

-- What the search for the nearest ancestor changes.
pub record Search : Type 0 where
  pub visited : List String
  pub found : Option String

unfoldable pub search_round :
    EventProvider → StateResVersion → String → Search → Round Search String
search_round context version q_id s =
    if contains s.visited q_id then push [] s else (elim (context q_id) [
      | none ↦ push [] (record s { visited = q_id ∷ s.visited })
      | some auth_ev ↦
          if auth_ev.event_type == m_room_power_levels
          then break (record { visited = q_id ∷ s.visited; found = some q_id })
          else push (dag_edges auth_ev version) (record s { visited = q_id ∷ s.visited })
    ])

-- The nearest ancestor, with a round of fuel for each event that the event cites, and `fuel` for
-- those that the search pushes.
unfoldable pub nearest_pl : EventProvider → StateResVersion → ℕ → String → Option (Option String)
nearest_pl context version fuel eid = elim (context eid) [
  | none ↦ some none
  | some ev ↦
      elim (run_queue (search_round context version) (length (dag_edges ev version) + fuel)
        (dag_edges ev version) (record { visited = []; found = none })) [
          | none ↦ none
          | some s ↦ some s.found
        ]
]

-- The cache `pl_parent_cache`.
abbrev pub ParentCache : Type 0
ParentCache = List (String × Option String)

-- The parent by the cache, or by a search that the cache keeps.
unfoldable pub pl_parent :
    EventProvider
    → StateResVersion
    → ℕ
    → ParentCache
    → String
    → Option (Option String × ParentCache)
pl_parent context version fuel cache eid = elim (lookup eid cache) [
  | some cached ↦ some (cached, cache)
  | none ↦ elim (nearest_pl context version fuel eid) [
    | none ↦ none
    | some found ↦ some (found, put eid found cache)
  ]
]

-- The loop; `seen` is `seen_in_mainline`.
unfoldable pub build_loop :
    EventProvider
    → StateResVersion
    → ℕ
    → ℕ
    → Option String
    → List String
    → List String
    → ParentCache
    → Option (List String × ParentCache)
build_loop context version fuel zero current seen mainline cache = none
build_loop context version fuel (suc rounds) none seen mainline cache = some (mainline, cache)
build_loop context version fuel (suc rounds) (some eid) seen mainline cache =
    elim (contains seen eid) [
      | true ↦ some (mainline, cache)
      | false ↦ elim (pl_parent context version fuel cache eid) [
        | none ↦ none
        | some (current, cache') ↦
            build_loop context version fuel rounds current (eid ∷ seen) (mainline ++ eid ∷ [])
              cache'
      ]
    ]

-- `start` is the power-levels event of the resolved state.
unfoldable pub build_mainline_with_cache :
    ℕ
    → Option String
    → EventProvider
    → ParentCache
    → StateResVersion
    → Option (List String × ParentCache)
build_mainline_with_cache fuel start context cache version =
    build_loop context version fuel fuel start [] [] cache
