-- ===== src/Sorting/BuildMainline/Chain.antt =====
-- The mainline is the chain of the nearest power-levels events (src/resolve/sorting.rs,
-- `build_mainline_with_cache`).
use rezzy.Prelude.{
  ℕ, zero, suc, ◌+◌, ◌≤◌, ◌<◌, ◌≡◌, refl, sym, ap, ◌∙◌, String, true, false, Option, none, some,
  List, [], ◌∷◌, ◌++◌, arith, eq_iff, ◌==◌, if◌then◌else◌, is_some, length, contains, lookup, put,
  lookup-put, push, break, Keeps, run_queue-returns, unpaid, unpaid-le, unpaid-visit, unpaid-size,
  Bool-cases, inl, inr,
}
use rezzy.Basespec.Version.{StateResVersion}
use rezzy.Basespec.Event.{LeanEvent, EventProvider, dag_edges, m_room_power_levels}
use rezzy.Sorting.BuildMainline.{
  Search, search_round, nearest_pl, ParentCache, pl_parent, build_loop, build_mainline_with_cache,
}

append_nil : (xs : List String) → xs ++ [] ≡ xs
append_nil [] = refl
append_nil (x ∷ xs) = ap (λ l. x ∷ l) (append_nil xs)

append_assoc : (xs ys zs : List String) → (xs ++ ys) ++ zs ≡ xs ++ (ys ++ zs)
append_assoc [] ys zs = refl
append_assoc (x ∷ xs) ys zs = ap (λ l. x ∷ l) (append_assoc xs ys zs)

module _ (context : EventProvider) (version : StateResVersion) where
  abbrev pub edges_of : String → ℕ
  edges_of id = elim (context id) [ none ↦ 0 | some ev ↦ length (dag_edges ev version) ]

  -- What follows `current` in a mainline: each id has the nearest power-levels event behind the one
  -- before it, no id comes twice, and the chain ends where there is none, or one that was seen.
  pub IsChain : ℕ → Option String → List String → List String → Type 0
  IsChain fuel none seen [] = Unit
  IsChain fuel none seen (x ∷ xs) = ⊥
  IsChain fuel (some eid) seen [] = contains seen eid ≡ true
  IsChain fuel (some eid) seen (x ∷ xs) =
      (x ≡ eid)
      × (contains seen eid ≡ false)
      × ((current : Option String) × (nearest_pl context version fuel eid ≡ some current)
          × IsChain fuel current (eid ∷ seen) xs)

  -- Each cached parent is what a search would find.
  abbrev pub IsParentCache : ℕ → ParentCache → Type 0
  IsParentCache fuel cache =
      (k : String) (p : Option String)
      → lookup k cache ≡ some p
      → nearest_pl context version fuel k ≡ some p

  module _ (universe : List String)
      (listed : (k : String) → is_some (context k) ≡ true → contains universe k ≡ true) where
    search_round-Keeps :
        (q_id : String) (s : Search)
        → Unit {0}
        → Keeps
            (search_round context version)
            (λ _. Unit {0})
            (λ s. unpaid edges_of s.visited universe)
            s
            (search_round context version q_id s)
    unfolding search_round
    search_round-Keeps q_id s p = elim (Bool-cases (contains s.visited q_id)) [
      | inl old ↦ rw old (tt, omega arith)
      | inr fresh ↦ rw fresh (go fresh (context q_id) refl)
    ]
      where
        less : unpaid edges_of (q_id ∷ s.visited) universe ≤ unpaid edges_of s.visited universe
        less = unpaid-le edges_of q_id s.visited (q_id ∷ s.visited) (λ k. refl) universe

        go :
            contains s.visited q_id ≡ false
            → (o : Option LeanEvent) → context q_id ≡ o
            → Keeps
                (search_round context version)
                (λ _. Unit {0})
                (λ s. unpaid edges_of s.visited universe)
                s
                (elim o [
                  | none ↦ push [] (record s { visited = q_id ∷ s.visited })
                  | some auth_ev ↦
                      if auth_ev.event_type == m_room_power_levels
                      then break (record { visited = q_id ∷ s.visited; found = some q_id })
                      else push
                          (dag_edges auth_ev version)
                          (record s { visited = q_id ∷ s.visited })
                ])
        go fresh none h = (tt, omega (arith, less))
        go fresh (some auth_ev) h =
            let paid =
              unpaid-visit edges_of q_id s.visited (q_id ∷ s.visited) (λ k. refl) universe
                (listed q_id (ground (arith, h))) fresh in
            elim (Bool-cases (auth_ev.event_type == m_room_power_levels)) [
              | inl here ↦ rw here tt
              | inr apart ↦ rw apart (tt, ground (arith, h, paid))
            ]

    nearest_pl-returns :
        (fuel : ℕ) (eid : String)
        → unpaid edges_of [] universe < fuel
        → (found : Option String) × (nearest_pl context version fuel eid ≡ some found)
    unfolding nearest_pl
    nearest_pl-returns fuel eid enough = go (context eid) refl
      where
        go :
            (o : Option LeanEvent)
            → context eid ≡ o
            → (found : Option String) × (nearest_pl context version fuel eid ≡ some found)
        go none h = (none, ground (arith, h))
        go (some ev) h =
            let (s, runs, _) =
              run_queue-returns (search_round context version) (λ _. Unit {0})
                (λ s. unpaid edges_of s.visited universe) search_round-Keeps
                (length (dag_edges ev version) + fuel) (dag_edges ev version)
                (record { visited = []; found = none }) (omega (arith, enough)) tt in
            (s.found, ground (arith, h, runs))

    pl_parent-returns :
        (fuel : ℕ) (cache : ParentCache) (eid : String)
        → unpaid edges_of [] universe < fuel
        → IsParentCache fuel cache
        → (found : Option String) × (cache' : ParentCache) × (pl_parent context version fuel cache
              eid
            ≡ some (found, cache'))
          × (nearest_pl context version fuel eid ≡ some found)
          × IsParentCache fuel cache'
    unfolding pl_parent
    pl_parent-returns fuel cache eid enough right = go (lookup eid cache) refl
      where
        go :
            (o : Option (Option String))
            → lookup eid cache ≡ o
            → (found : Option String) × (cache' : ParentCache) × (pl_parent context version fuel
                  cache eid
                ≡ some (found, cache'))
              × (nearest_pl context version fuel eid ≡ some found)
              × IsParentCache fuel cache'
        go (some cached) h = (cached, cache, ground (arith, h), right eid cached h, right)
        go none h =
            let (found, searches) = nearest_pl-returns fuel eid enough in
            (
              found,
              put eid found cache,
              ground (arith, h, searches),
              searches,
              λ k p hp. elim (Bool-cases (eid == k)) [
                | inl same ↦
                    ap (nearest_pl context version fuel) (sym ((eq_iff eid k).0 same))
                    ∙ searches
                    ∙ ground (arith, hp, same, lookup-put eid k found cache)
                | inr other ↦ right k p (ground (arith, hp, other, lookup-put eid k found cache))
              ],
            )

    unlisted :
        (fuel : ℕ) (eid : String)
        → context eid ≡ none
        → nearest_pl context version fuel eid ≡ some none
    unfolding nearest_pl
    unlisted fuel eid h = ground (arith, h)

    -- The rounds that a current id and the ids that were not seen may still take.
    abbrev pub due : Option String → List String → ℕ
    due none seen = unpaid (λ k. 1) seen universe
    due (some eid) seen = suc (unpaid (λ k. 1) seen universe)

    due-round :
        (fuel : ℕ) (eid : String) (found : Option String) (seen : List String)
        → contains seen eid ≡ false
        → nearest_pl context version fuel eid ≡ some found
        → due found (eid ∷ seen) < due (some eid) seen
    due-round fuel eid found seen fresh near = go (context eid) refl found near
      where
        less : unpaid (λ k. 1) (eid ∷ seen) universe ≤ unpaid (λ k. 1) seen universe
        less = unpaid-le (λ k. 1) eid seen (eid ∷ seen) (λ k. refl) universe

        go :
            (o : Option LeanEvent)
            → context eid ≡ o
            → (found : Option String) → nearest_pl context version fuel eid ≡ some found
            → due found (eid ∷ seen) < due (some eid) seen
        go none h none near = omega (arith, less)
        go none h (some p) near = absurd (ground (arith, near, unlisted fuel eid h))
        go (some ev) h none near = omega (arith, less)
        go (some ev) h (some p) near =
            let paid =
              unpaid-visit (λ k. 1) eid seen (eid ∷ seen) (λ k. refl) universe
                (listed eid (ground (arith, h))) fresh in
            omega (arith, paid)

    -- What the loop adds to a mainline.
    record Extension (fuel rounds : ℕ) (current : Option String) (seen mainline : List String)
        (cache : ParentCache) : Type 0 where
      added : List String
      cache' : ParentCache
      returns :
          build_loop context version fuel rounds current seen mainline cache
          ≡ some (mainline ++ added, cache')
      chain : IsChain fuel current seen added
      right : IsParentCache fuel cache'

    build_loop-returns :
        (fuel rounds : ℕ) (current : Option String) (seen mainline : List String)
        (cache : ParentCache)
        → unpaid edges_of [] universe < fuel
        → due current seen < rounds
        → IsParentCache fuel cache
        → Extension fuel rounds current seen mainline cache
    unfolding build_loop IsChain
    build_loop-returns fuel zero current seen mainline cache enough some_left right =
        absurd (omega (arith, some_left))
    build_loop-returns fuel (suc rounds) none seen mainline cache enough some_left right = record {
      added = [];
      cache' = cache;
      returns = ap (λ l. some (l, cache)) (sym (append_nil mainline));
      chain = tt;
      right = right;
    }
    build_loop-returns fuel (suc rounds) (some eid) seen mainline cache enough some_left right =
        elim (Bool-cases (contains seen eid)) [
          | inl old ↦ record {
            added = [];
            cache' = cache;
            returns = ground (arith, old, append_nil mainline);
            chain = old;
            right = right;
          }
          | inr fresh ↦
              let (found, cache', returns, near, right') =
                pl_parent-returns fuel cache eid enough right in
              let rest =
                build_loop-returns fuel rounds found (eid ∷ seen) (mainline ++ eid ∷ []) cache'
                  enough (omega (arith, some_left, due-round fuel eid found seen fresh near))
                  right' in
              record {
                added = eid ∷ rest.added;
                cache' = rest.cache';
                returns = ground (
                  arith,
                  fresh,
                  returns,
                  rest.returns,
                  append_assoc mainline (eid ∷ []) rest.added,
                );
                chain = (refl, fresh, (found, near, rest.chain));
                right = rest.right;
              }
        ]

    -- Where the events of the context are listed, with more fuel than these have edges and ids, and
    -- with cached parents that a search would find, the mainline returns. It begins with the start,
    -- each id is followed by the nearest power-levels event behind it as the search finds it, no id
    -- comes twice, and it ends where there is none or at one that it holds. The cache still holds
    -- what a search would find.
    pub build_mainline_with_cache-IsChain :
        (fuel : ℕ) (start : Option String) (cache : ParentCache)
        → unpaid edges_of [] universe < fuel
        → suc (length universe) < fuel
        → IsParentCache fuel cache
        → (mainline : List String) × (cache' : ParentCache) × (build_mainline_with_cache fuel start
              context cache version
            ≡ some (mainline, cache'))
          × IsChain fuel start [] mainline
          × IsParentCache fuel cache'
    unfolding build_mainline_with_cache
    build_mainline_with_cache-IsChain fuel start cache enough rounds right =
        let all = build_loop-returns fuel fuel start [] [] cache enough (few start) right in
        (all.added, all.cache', all.returns, all.chain, all.right)
      where
        few : (start : Option String) → due start [] < fuel
        few none = omega (arith, rounds, unpaid-size [] universe)
        few (some eid) = omega (arith, rounds, unpaid-size [] universe)
