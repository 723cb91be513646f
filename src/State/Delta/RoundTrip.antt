-- ===== src/State/Delta/RoundTrip.antt =====
-- The changes lead from the first state to the second, and each is one (src/state/delta.rs).
use rezzy.Prelude.{
  ◌≡◌, ◌≢◌, refl, ap, ◌∙◌, String, false, not, ◌&&◌, Option, none, some, List, [], ◌∷◌, ◌++◌, arith,
  ◌==◌, eq_iff, if◌then◌else◌, is_some, opt_is, opt_is_iff, All, Bool-cases, inl, inr,
}
use rezzy.Resolve.State.{get, SharedState}
use rezzy.State.Delta.{
  StateDelta, additions, deletions, compute_state_delta, apply_delta_to_state, apply_state_delta,
}
use rezzy.State.Delta.Reads.{IsMap, get-same_key, get-apply_delta}

apply-append :
    (base : SharedState) (xs ys : List StateDelta)
    → apply_state_delta base (xs ++ ys) ≡ apply_state_delta (apply_state_delta base xs) ys
unfolding apply_state_delta
apply-append base [] ys = refl
apply-append base (d ∷ xs) ys = apply-append (apply_delta_to_state base d) xs ys

-- The value that a second state gives a key, where it differs from the parent's.
abbrev news : Option String → Option String → Option String → Option String
news none was now = now
news (some id) was now = if opt_is was id then now else some id

additions-get :
    (parent current m : SharedState) (t k : String)
    → IsMap current
    → get t k (apply_state_delta m (additions parent current))
      ≡ news (get t k current) (get t k parent) (get t k m)
unfolding get additions apply_state_delta
additions-get parent [] m t k d = refl
additions-get parent (((a, b), id) ∷ current) m t k d =
    elim (Bool-cases (opt_is (get a b parent) id)) [
      | inl same ↦ elim (Bool-cases (a == t && b == k)) [
        | inl here ↦ ground (
          arith,
          same,
          here,
          additions-get parent current m t k d.1,
          get-same_key t k a b parent here,
          get-same_key t k a b current here,
          d.0,
        )
        | inr apart ↦ ground (arith, same, apart, additions-get parent current m t k d.1)
      ]
      | inr new ↦
          let delta : StateDelta = record { event_type = a; state_key = b; event_id = some id } in
          let later = additions-get parent current (apply_delta_to_state m delta) t k d.1 in
          elim (Bool-cases (a == t && b == k)) [
            | inl here ↦ ground (
              arith,
              new,
              here,
              later,
              get-apply_delta m delta t k,
              get-same_key t k a b parent here,
              get-same_key t k a b current here,
              d.0,
            )
            | inr apart ↦ ground (arith, new, apart, later, get-apply_delta m delta t k)
          ]
    ]

deletions-get :
    (current parent m : SharedState) (t k : String)
    → get t k (apply_state_delta m (deletions current parent))
      ≡ (if is_some (get t k parent) && not (is_some (get t k current)) then none else get t k m)
unfolding get deletions apply_state_delta
deletions-get current [] m t k = refl
deletions-get current (((a, b), id) ∷ parent) m t k =
    elim (Bool-cases (is_some (get a b current))) [
      | inl held ↦ elim (Bool-cases (a == t && b == k)) [
        | inl here ↦ ground (
          arith,
          held,
          here,
          deletions-get current parent m t k,
          get-same_key t k a b current here,
        )
        | inr apart ↦ ground (arith, held, apart, deletions-get current parent m t k)
      ]
      | inr gone ↦
          let delta : StateDelta = record { event_type = a; state_key = b; event_id = none } in
          let later = deletions-get current parent (apply_delta_to_state m delta) t k in
          elim (Bool-cases (a == t && b == k)) [
            | inl here ↦ ground (
              arith,
              gone,
              here,
              later,
              get-apply_delta m delta t k,
              get-same_key t k a b current here,
            )
            | inr apart ↦ ground (arith, gone, apart, later, get-apply_delta m delta t k)
          ]
    ]

-- The changes, applied to a state that holds for a key what the first state does.
pub apply-compute_state_delta :
    (parent current m : SharedState) (t k : String)
    → IsMap current
    → get t k m ≡ get t k parent
    → get t k (apply_state_delta m (compute_state_delta parent current)) ≡ get t k current
unfolding compute_state_delta
apply-compute_state_delta parent current m t k d same =
    ap (get t k) (apply-append m (additions parent current) (deletions current parent))
    ∙ deletions-get current parent (apply_state_delta m (additions parent current)) t k
    ∙ settle (get t k parent) (get t k current)
        (additions-get parent current m t k d ∙ ap (news (get t k current) (get t k parent)) same)
  where
    settle :
        (was now : Option String)
        → get t k (apply_state_delta m (additions parent current)) ≡ news now was was
        → (if is_some was && not (is_some now)
            then none
            else get t k (apply_state_delta m (additions parent current)))
          ≡ now
    settle none none h = h
    settle (some w) none h = refl
    settle none (some v) h = h
    settle (some w) (some v) h = ground (arith, h, eq_iff w v)

-- Where no key of the second state comes twice, the delta from a first state to it, applied to the
-- first state, gives each key the value that the second state gives it, or none where the second
-- state has none.
pub apply_state_delta-compute_state_delta :
    (parent current : SharedState)
    → IsMap current
    → (t k : String)
    → get t k (apply_state_delta parent (compute_state_delta parent current)) ≡ get t k current
apply_state_delta-compute_state_delta parent current d t k =
    apply-compute_state_delta parent current parent t k d refl

-- Each change gives a key the value of the second state, and the first state has another one.
abbrev pub IsChange : SharedState → SharedState → StateDelta → Type 0
IsChange parent current d =
    (get d.event_type d.state_key current ≡ d.event_id)
    × (get d.event_type d.state_key parent ≢ d.event_id)

get-head : (a b id : String) (rest : SharedState) → get a b (((a, b), id) ∷ rest) ≡ some id
unfolding get
get-head a b id rest = ground (arith, eq_iff a a, eq_iff b b)

get-tail :
    (a b id : String) (rest : SharedState) (t k v : String)
    → is_some (get a b rest) ≡ false
    → get t k rest ≡ some v
    → get t k (((a, b), id) ∷ rest) ≡ some v
unfolding get
get-tail a b id rest t k v d h = elim (Bool-cases (a == t && b == k)) [
  | inl here ↦ absurd (ground (arith, d, h, get-same_key t k a b rest here))
  | inr apart ↦ ground (arith, apart, h)
]

-- The entries of a state are what it holds.
entries-get : (m : SharedState) → IsMap m → All (λ e. get e.0.0 e.0.1 m ≡ some e.1) m
entries-get m d = go m m d (λ t k id h. h)
  where
    go :
        (all m : SharedState)
        → IsMap m
        → ((t k id : String) → get t k m ≡ some id → get t k all ≡ some id)
        → All (λ e. get e.0.0 e.0.1 all ≡ some e.1) m
    go all [] d sub = tt
    go all (((a, b), id) ∷ rest) d sub = (
      sub a b id (get-head a b id rest),
      go all rest d.1 (λ t k v h. sub t k v (get-tail a b id rest t k v d.0 h)),
    )

additions-IsChange :
    (parent all current : SharedState)
    → All (λ e. get e.0.0 e.0.1 all ≡ some e.1) current
    → All (IsChange parent all) (additions parent current)
unfolding additions
additions-IsChange parent all [] held = tt
additions-IsChange parent all (((t, k), id) ∷ current) held =
    elim (Bool-cases (opt_is (get t k parent) id)) [
      | inl same ↦ rw same (additions-IsChange parent all current held.1)
      | inr new ↦ rw new (
        (held.0, λ e. absurd (ground (arith, new, (opt_is_iff (get t k parent) id).1 e))),
        additions-IsChange parent all current held.1,
      )
    ]

deletions-IsChange :
    (all parent rest : SharedState)
    → All (λ e. get e.0.0 e.0.1 all ≡ some e.1) rest
    → All (IsChange all parent) (deletions parent rest)
unfolding deletions
deletions-IsChange all current [] held = tt
deletions-IsChange all current (((t, k), id) ∷ rest) held =
    go (get t k current) refl (deletions-IsChange all current rest held.1)
  where
    go :
        (o : Option String)
        → get t k current ≡ o
        → All (IsChange all current) (deletions current rest)
        → All (IsChange all current) (
            if is_some o
            then deletions current rest
            else (record { event_type = t; state_key = k; event_id = none })
              ∷ deletions current rest)
    go none h later = ((h, λ e. absurd (ground (arith, e, held.0))), later)
    go (some v) h later = later

append-All :
    (P : StateDelta → Type 0) (xs ys : List StateDelta) → All P xs → All P ys → All P (xs ++ ys)
append-All P [] ys ps qs = qs
append-All P (x ∷ xs) ys ps qs = (ps.0, append-All P xs ys ps.1 qs)

-- Where no key comes twice in either state, each entry of the delta gives its key what the second
-- state gives it, and the first state gives it something else: no entry is superfluous.
pub compute_state_delta-IsChange :
    (parent current : SharedState)
    → IsMap parent
    → IsMap current
    → All (IsChange parent current) (compute_state_delta parent current)
unfolding compute_state_delta
compute_state_delta-IsChange parent current d d' =
    append-All (IsChange parent current) (additions parent current) (deletions current parent)
      (additions-IsChange parent current current (entries-get current d'))
      (deletions-IsChange parent current parent (entries-get parent d))
