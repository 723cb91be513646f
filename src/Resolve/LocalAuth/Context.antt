-- ===== src/Resolve/LocalAuth/Context.antt =====
-- The events of a local auth context, and of the cache, are events of the input that the event cites,
-- directly or through others, each under its own key (src/state/at.rs, `compute_local_auth`).
use rezzy.Prelude.{
  ℕ, suc, ◌+◌, ◌≡◌, refl, sym, subst, ◌∙◌, String, Bool, true, false, Option, none, some, List, [],
  ◌∷◌, arith, ltb, if◌then◌else◌, length, contains, lookup, put, put-All, lookup-All, All, Round,
  push, run_queue, run_queue-KeepsEach, KeepsEach, All-map, eq_iff,
}
use rezzy.Basespec.Version.{StateResVersion}
use rezzy.Basespec.Event.{LeanEvent, EventProvider}
use rezzy.Resolve.State.{Key, get, insert, insert-All, EventMap, get_or_else}
use rezzy.Resolve.LocalAuth.{
  LocalAuthEntry, LocalAuth, Cache, merge_entry, update_local_auth, merge_cached, is_transitive,
  LocalLoop, deepen, with_event, local_round, events_of, compute_local_auth,
}

-- One event cites another, directly or through others of which the predicate holds.
pub data InChain (P : LeanEvent → Type 0) : String → String → Type 0 where
  cited :
      {id aid : String} (ev : LeanEvent)
      → P ev
      → ev.event_id ≡ id
      → contains ev.auth_events aid ≡ true
      → InChain P id aid
  through :
      {id aid : String} (via : String) → InChain P id via → InChain P via aid → InChain P id aid

-- An event in the local auth context of an id.
pub record IsContext (P : LeanEvent → Type 0) (id : String) (key : Key) (ev : LeanEvent)
    : Type 0 where
  pub from : P ev
  pub of_type : ev.event_type ≡ key.0
  pub of_key : ev.state_key ≡ some key.1
  pub in_chain : InChain P id ev.event_id

module _ (P : LeanEvent → Type 0) where
  abbrev pub LocalOf : String → LocalAuth → Type 0
  LocalOf id = All (λ x. IsContext P id x.0 x.1.0)

  abbrev pub CacheOf : Cache → Type 0
  CacheOf = All (λ c. LocalOf c.0 c.1)

  -- Both what was found and the cache.
  abbrev pub Consulted : String → List (Key × LeanEvent) × Cache → Type 0
  Consulted id (found, cache) = All (λ x. IsContext P id x.0 x.1) found × CacheOf cache

  module _ (id : String) where
    merge_entry-LocalOf :
        (key : Key) (ev : LeanEvent) (depth : ℕ) (local : LocalAuth)
        → IsContext P id key ev
        → LocalOf id local
        → LocalOf id (merge_entry key ev depth local)
    unfolding merge_entry
    merge_entry-LocalOf (t, k) ev depth local p ps =
        go (get t k local)
          (insert-All (λ x. IsContext P id x.0 x.1.0) (t, k) (ev, depth) local p ps)
      where
        choose :
            (b : Bool)
            → LocalOf id (insert (t, k) (ev, depth) local)
            → LocalOf id (if b then insert (t, k) (ev, depth) local else local)
        choose true inserted = inserted
        choose false inserted = ps

        go :
            (o : Option LocalAuthEntry)
            → LocalOf id (insert (t, k) (ev, depth) local)
            → LocalOf id (elim o [
              | none ↦ insert (t, k) (ev, depth) local
              | some (old, old_depth) ↦
                  if ltb depth old_depth then insert (t, k) (ev, depth) local else local
            ])
        go none inserted = inserted
        go (some (old, old_depth)) inserted = choose (ltb depth old_depth) inserted

    update_local_auth-LocalOf :
        (local : LocalAuth) (ev : LeanEvent) (depth : ℕ)
        → P ev
        → InChain P id ev.event_id
        → LocalOf id local
        → LocalOf id (update_local_auth local ev depth)
    unfolding update_local_auth
    update_local_auth-LocalOf local ev depth p chain ps = go ev.state_key refl
      where
        go :
            (o : Option String)
            → ev.state_key ≡ o
            → LocalOf id
                (elim o [ none ↦ local | some sk ↦ merge_entry (ev.event_type, sk) ev depth local ])
        go none h = ps
        go (some sk) h =
            merge_entry-LocalOf (ev.event_type, sk) ev depth local
              (record { from = p; of_type = refl; of_key = h; in_chain = chain }) ps

    merge_cached-LocalOf :
        (depth : ℕ) (cached local : LocalAuth)
        → LocalOf id cached
        → LocalOf id local
        → LocalOf id (merge_cached depth cached local)
    unfolding merge_cached
    merge_cached-LocalOf depth [] local cs ps = ps
    merge_cached-LocalOf depth ((key, (ev, auth_depth)) ∷ rest) local cs ps =
        merge_cached-LocalOf depth rest (merge_entry key ev (depth + auth_depth) local) cs.1
          (merge_entry-LocalOf key ev (depth + auth_depth) local cs.0 ps)

    with_event-LocalOf :
        (o : Option LeanEvent) (depth : ℕ) (local : LocalAuth)
        → ((ev : LeanEvent) → o ≡ some ev → P ev × InChain P id ev.event_id)
        → LocalOf id local
        → LocalOf id (with_event o depth local)
    unfolding with_event
    with_event-LocalOf none depth local p ps = ps
    with_event-LocalOf (some ev) depth local p ps =
        update_local_auth-LocalOf local ev depth (p ev refl).0 (p ev refl).1 ps

    deepen-All :
        (depth : ℕ) (aids : List String)
        → ((k : String) → contains aids k ≡ true → InChain P id k)
        → All (λ x. InChain P id x.0) (deepen depth aids)
    deepen-All depth [] cites = tt
    deepen-All depth (aid ∷ rest) cites = (
      cites aid (ground (arith, eq_iff aid aid)),
      deepen-All depth rest (λ k h. cites k (ground (arith, h))),
    )

    -- What holds of the context of a cited event holds of the context of the citing one.
    raise-LocalOf :
        (aid : String) (local : LocalAuth) → InChain P id aid → LocalOf aid local → LocalOf id local
    raise-LocalOf aid local chain =
        All-map _ _
          (λ x c. record {
            from = c.from;
            of_type = c.of_type;
            of_key = c.of_key;
            in_chain = through aid chain c.in_chain;
          })
          local

    local_round-KeepsEach :
        (find : EventProvider) (cache : Cache) (version : StateResVersion)
        → ((k : String) (ev : LeanEvent) → find k ≡ some ev → P ev × (ev.event_id ≡ k))
        → CacheOf cache
        → (x : String × ℕ) (s : LocalLoop) → InChain P id x.0
        → LocalOf id s.local
        → KeepsEach
            (local_round find cache version)
            (λ x. InChain P id x.0)
            (λ s. LocalOf id s.local)
            (local_round find cache version x s)
    unfolding local_round
    local_round-KeepsEach find cache version from cs (aid, depth) s chain ps =
        go (contains s.visited aid) (lookup aid cache) refl (find aid) refl
      where
        sound : (ev : LeanEvent) → find aid ≡ some ev → P ev × InChain P id ev.event_id
        sound ev h = ((from aid ev h).0, subst (InChain P id) (sym (from aid ev h).1) chain)

        merged :
            (b : Bool) (cached : LocalAuth) (e : Option LeanEvent)
            → LocalOf id cached
            → LocalOf id (with_event e depth s.local)
            → LocalOf id (
                if b
                then merge_cached depth cached (with_event e depth s.local)
                else with_event e depth s.local)
        merged true cached e cs here = merge_cached-LocalOf depth cached _ cs here
        merged false cached e cs here = here

        deeper :
            (b : Bool) (aev : LeanEvent)
            → find aid ≡ some aev
            → All (λ x. InChain P id x.0) (if b then deepen (suc depth) aev.auth_events else [])
        deeper false aev h = tt
        deeper true aev h =
            deepen-All (suc depth) aev.auth_events
              (λ k here. through aid chain (cited aev (from aid aev h).0 (from aid aev h).1 here))

        go :
            (old : Bool) (o : Option LocalAuth)
            → lookup aid cache ≡ o
            → (e : Option LeanEvent) → find aid ≡ e
            → (let r : Round LocalLoop (String × ℕ) = if old then push [] s else (elim o [
              | some cached ↦ push [] (record {
                visited = aid ∷ s.visited;
                local =
                    if is_transitive version
                    then merge_cached depth cached (with_event e depth s.local)
                    else with_event e depth s.local;
              })
              | none ↦ elim e [
                | none ↦ push [] (record s { visited = aid ∷ s.visited })
                | some aev ↦
                    push
                      (if is_transitive version then deepen (suc depth) aev.auth_events else [])
                      (record {
                        visited = aid ∷ s.visited;
                        local = update_local_auth s.local aev depth;
                      })
              ]
            ]) in
                KeepsEach
                  (local_round find cache version)
                  (λ x. InChain P id x.0)
                  (λ s. LocalOf id s.local)
                  r)
        go true o ho e he = (tt, ps)
        go false (some cached) ho e he = (
          tt,
          merged (is_transitive version) cached e
              (raise-LocalOf aid cached chain
                (lookup-All (λ c. LocalOf c.0 c.1) aid cached cache ho cs))
              (with_event-LocalOf e depth s.local (λ ev h. sound ev (he ∙ h)) ps),
        )
        go false none ho none he = (tt, ps)
        go false none ho (some aev) he = (
          deeper (is_transitive version) aev he,
          update_local_auth-LocalOf s.local aev depth (sound aev he).0 (sound aev he).1 ps,
        )

    events_of-All :
        (local : LocalAuth) → LocalOf id local → All (λ x. IsContext P id x.0 x.1) (events_of local)
    events_of-All [] ps = tt
    events_of-All ((key, (ev, depth)) ∷ rest) ps = (ps.0, events_of-All rest ps.1)

  pub compute_local_auth-CacheOf :
      (fuel : ℕ) (event : LeanEvent) (auth_context conflicted_events : EventMap) (cache : Cache)
      (version : StateResVersion) (found : List (Key × LeanEvent) × Cache)
      → ((k : String) (ev : LeanEvent)
          → get_or_else auth_context conflicted_events k ≡ some ev
          → P ev × (ev.event_id ≡ k))
      → P event
      → CacheOf cache
      → compute_local_auth fuel event auth_context conflicted_events cache version ≡ some found
      → Consulted event.event_id found
  unfolding compute_local_auth
  compute_local_auth-CacheOf fuel event auth_context conflicted_events cache version found from p
        cs =
      go (lookup event.event_id cache) refl _ refl
    where
      find : EventProvider
      find = get_or_else auth_context conflicted_events

      go :
          (o : Option LocalAuth)
          → lookup event.event_id cache ≡ o
          → (e : Option LocalLoop)
          → run_queue
              (local_round find cache version)
              (length event.auth_events + fuel)
              (deepen 1 event.auth_events)
              (record { visited = []; local = [] })
            ≡ e
          → (elim o [
            | some cached ↦ some (events_of cached, cache)
            | none ↦ elim e [
              | none ↦ none
              | some s ↦ some (events_of s.local, put event.event_id s.local cache)
            ]
          ])
            ≡ some found
          → Consulted event.event_id found
      go (some cached) ho e he h = subst (Consulted event.event_id) (ground (arith, h)) (
        events_of-All event.event_id cached
            (lookup-All (λ c. LocalOf c.0 c.1) event.event_id cached cache ho cs),
        cs,
      )
      go none ho none he h = absurd (ground (arith, h))
      go none ho (some s) he h =
          let local =
            run_queue-KeepsEach (local_round find cache version) (λ x. InChain P event.event_id x.0)
              (λ s. LocalOf event.event_id s.local)
              (local_round-KeepsEach event.event_id find cache version from cs)
              (length event.auth_events + fuel) (deepen 1 event.auth_events)
              (record { visited = []; local = [] }) s
              (deepen-All event.event_id 1 event.auth_events (λ k c. cited event p refl c)) tt he in
          subst (Consulted event.event_id) (ground (arith, h)) (
            events_of-All event.event_id s.local local,
            put-All (λ c. LocalOf c.0 c.1) event.event_id s.local cache local cs,
          )
