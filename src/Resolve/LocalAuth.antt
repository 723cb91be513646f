-- ===== src/Resolve/LocalAuth.antt =====
-- The local auth context of an event: the cited events by type and state key, the nearer ones first
-- (src/state/at.rs, `update_local_auth` and `compute_local_auth`).
pub mod Context
use rezzy.Prelude.{
  ℕ, zero, suc, ◌+◌, ◌≤◌, ◌<◌, ◌≡◌, refl, String, Bool, true, false, Option, none, some, List, [],
  ◌∷◌, arith, ltb, ◌==◌, ◌||◌, eq_iff, if◌then◌else◌, is_some, length, contains, lookup, put, Round,
  push, break, run_queue, Keeps, run_queue-returns, unpaid, unpaid-le, unpaid-visit, Bool-cases,
  inl, inr,
}
use rezzy.Basespec.Version.{StateResVersion, v2_1_1, v2_2}
use rezzy.Basespec.Event.{LeanEvent, EventProvider}
use rezzy.Resolve.State.{Key, get, insert, EventMap, get_or_else}

-- `LocalAuthEntry`: an event and its depth.
abbrev pub LocalAuthEntry : Type 0
LocalAuthEntry = LeanEvent × ℕ

abbrev pub LocalAuth : Type 0
LocalAuth = List (Key × LocalAuthEntry)

-- The `map` of a `LocalAuthCache`.
abbrev pub Cache : Type 0
Cache = List (String × LocalAuth)

-- `entry(key)`: a vacant entry is filled, and an occupied one is replaced by a nearer event.
unfoldable pub merge_entry : Key → LeanEvent → ℕ → LocalAuth → LocalAuth
merge_entry (t, k) ev depth local = elim (get t k local) [
  | none ↦ insert (t, k) (ev, depth) local
  | some (old, old_depth) ↦ if ltb depth old_depth then insert (t, k) (ev, depth) local else local
]

unfoldable pub update_local_auth : LocalAuth → LeanEvent → ℕ → LocalAuth
unfolding merge_entry
update_local_auth local aev depth = elim aev.state_key [
  | none ↦ local
  | some sk ↦ merge_entry (aev.event_type, sk) aev depth local
]

-- The loop over the entries of a cached ancestor.
unfoldable pub merge_cached : ℕ → LocalAuth → LocalAuth → LocalAuth
merge_cached depth [] local = local
merge_cached depth ((key, (ev, auth_depth)) ∷ rest) local =
    merge_cached depth rest (merge_entry key ev (depth + auth_depth) local)

unfoldable pub is_transitive : StateResVersion → Bool
is_transitive v2_1_1 = true
is_transitive v2_2 = true
is_transitive _ = false

-- What the loop changes.
pub record LocalLoop : Type 0 where
  pub visited : List String
  pub local : LocalAuth

abbrev pub deepen : ℕ → List String → List (String × ℕ)
deepen depth [] = []
deepen depth (aid ∷ rest) = (aid, depth) ∷ deepen depth rest

unfoldable pub with_event : Option LeanEvent → ℕ → LocalAuth → LocalAuth
with_event none depth local = local
with_event (some aev) depth local = update_local_auth local aev depth

-- One round: `find` looks into the auth context and then into the conflicted events.
unfoldable pub local_round :
    EventProvider → Cache → StateResVersion → String × ℕ → LocalLoop → Round LocalLoop (String × ℕ)
unfolding is_transitive with_event
local_round find cache version (aid, depth) s =
    if contains s.visited aid then push [] s else (elim (lookup aid cache) [
      | some cached ↦ push [] (record {
        visited = aid ∷ s.visited;
        local =
            if is_transitive version
            then merge_cached depth cached (with_event (find aid) depth s.local)
            else with_event (find aid) depth s.local;
      })
      | none ↦ elim (find aid) [
        | none ↦ push [] (record s { visited = aid ∷ s.visited })
        | some aev ↦
            push (if is_transitive version then deepen (suc depth) aev.auth_events else [])
              (record { visited = aid ∷ s.visited; local = update_local_auth s.local aev depth })
      ]
    ])

abbrev pub events_of : LocalAuth → List (Key × LeanEvent)
events_of [] = []
events_of ((key, (ev, depth)) ∷ rest) = (key, ev) ∷ events_of rest

-- The context with the cache behind it. A round of fuel for each cited event, and `fuel` for those
-- that the loop pushes.
unfoldable pub compute_local_auth :
    ℕ
    → LeanEvent
    → EventMap
    → EventMap
    → Cache
    → StateResVersion
    → Option (List (Key × LeanEvent) × Cache)
compute_local_auth fuel event auth_context conflicted_events cache version =
    elim (lookup event.event_id cache) [
      | some cached ↦ some (events_of cached, cache)
      | none ↦
          elim (run_queue (local_round (get_or_else auth_context conflicted_events) cache version)
            (length event.auth_events + fuel) (deepen 1 event.auth_events)
            (record { visited = []; local = [] })) [
              | none ↦ none
              | some s ↦ some (events_of s.local, put event.event_id s.local cache)
            ]
    ]

length-deepen : (depth : ℕ) (aids : List String) → length (deepen depth aids) ≡ length aids
length-deepen depth [] = refl
length-deepen depth (aid ∷ rest) = ground (arith, length-deepen depth rest)

-- How many events an event cites.
abbrev pub citations_by : EventProvider → String → ℕ
citations_by find id = elim (find id) [ none ↦ 0 | some ev ↦ length ev.auth_events ]

module _ (find : EventProvider) (version : StateResVersion) (universe : List String)
    (listed : (k : String) → is_some (find k) ≡ true → contains universe k ≡ true) where
  local_round-Keeps :
      (cache : Cache) (x : String × ℕ) (s : LocalLoop)
      → Unit {0}
      → Keeps
          (local_round find cache version)
          (λ _. Unit {0})
          (λ s. unpaid (citations_by find) s.visited universe)
          s
          (local_round find cache version x s)
  unfolding local_round
  local_round-Keeps cache (aid, depth) s p = elim (Bool-cases (contains s.visited aid)) [
    | inl old ↦ rw old (tt, omega arith)
    | inr fresh ↦ rw fresh (go fresh (lookup aid cache) (find aid) refl)
  ]
    where
      less :
          unpaid (citations_by find) (aid ∷ s.visited) universe
          ≤ unpaid (citations_by find) s.visited universe
      less = unpaid-le (citations_by find) aid s.visited (aid ∷ s.visited) (λ k. refl) universe

      go :
          contains s.visited aid ≡ false
          → (o : Option LocalAuth) (e : Option LeanEvent) → find aid ≡ e
          → Keeps
              (local_round find cache version)
              (λ _. Unit {0})
              (λ s. unpaid (citations_by find) s.visited universe)
              s
              (elim o [
                | some cached ↦ push [] (record {
                  visited = aid ∷ s.visited;
                  local =
                      if is_transitive version
                      then merge_cached depth cached (with_event e depth s.local)
                      else with_event e depth s.local;
                })
                | none ↦ elim e [
                  | none ↦ push [] (record s { visited = aid ∷ s.visited })
                  | some aev ↦
                      push
                        (if is_transitive version then deepen (suc depth) aev.auth_events else [])
                        (record {
                          visited = aid ∷ s.visited;
                          local = update_local_auth s.local aev depth;
                        })
                ]
              ])
      go fresh (some cached) e h = (tt, omega (arith, less))
      go fresh none none h = (tt, omega (arith, less))
      go fresh none (some aev) h =
          let paid =
            unpaid-visit (citations_by find) aid s.visited (aid ∷ s.visited) (λ k. refl) universe
              (listed aid (ground (arith, h))) fresh in
          (tt, ground (arith, h, paid, length-deepen (suc depth) aev.auth_events))

-- The loop ends.
pub compute_local_auth-returns :
    (fuel : ℕ) (event : LeanEvent) (auth_context conflicted_events : EventMap) (cache : Cache)
    (version : StateResVersion) (universe : List String)
    → ((k : String)
        → is_some (get_or_else auth_context conflicted_events k) ≡ true
        → contains universe k ≡ true)
    → unpaid (citations_by (get_or_else auth_context conflicted_events)) [] universe < fuel
    → is_some (compute_local_auth fuel event auth_context conflicted_events cache version) ≡ true
unfolding compute_local_auth
compute_local_auth-returns fuel event auth_context conflicted_events cache version universe listed
      enough =
    let find = get_or_else auth_context conflicted_events in
    let (s, runs, _) =
      run_queue-returns (local_round find cache version) (λ _. Unit {0})
        (λ s. unpaid (citations_by find) s.visited universe)
        (local_round-Keeps find version universe listed cache) (length event.auth_events + fuel)
        (deepen 1 event.auth_events) (record { visited = []; local = [] })
        (omega (arith, enough, length-deepen 1 event.auth_events)) tt in
    ground (arith, runs)
