-- ===== src/Resolve/Iterative/Merge.antt =====
-- What the merges of the unconflicted state do to the values (src/resolve/iterative.rs,
-- `merge_unconflicted_power_events` and `merge_final_resolved`).
use rezzy.Prelude.{
  ◌≡◌, refl, String, true, ◌&&◌, [], ◌∷◌, arith, ◌==◌, eq_iff, if◌then◌else◌, is_some, unwrap_or,
  Bool-cases, inl, inr,
}
use rezzy.Resolve.State.{get, insert, get-insert, SharedState}
use rezzy.Basespec.Event.{m_room_create, m_room_power_levels, m_room_join_rules}
use rezzy.Resolve.Iterative.Run.{IsStart, IsMerged}
use rezzy.Resolve.Iterative.{
  IterativeInputs, merge_type, merge_unconflicted_power_events, get_either,
  get_initial_resolved_state, merge_final_resolved,
}

get-same :
    (t k t' k' : String) (m : SharedState) → (t' == t && k' == k) ≡ true → get t k m ≡ get t' k' m
unfolding get
get-same t k t' k' [] h = refl
get-same t k t' k' (((a, b), v) ∷ rest) h =
    ground (arith, h, get-same t k t' k' rest h, eq_iff t' t, eq_iff k' k)

-- x
pub get-merge_final_resolved :
    (f resolved : SharedState) (t k : String)
    → get t k (merge_final_resolved f resolved) ≡ get_either t k f resolved
unfolding get merge_final_resolved
get-merge_final_resolved f [] t k = ground arith
get-merge_final_resolved f (((t', k'), v) ∷ resolved) t k =
    elim (Bool-cases (is_some (get t' k' f))) [
      | inl old ↦ ground (arith, old, get-merge_final_resolved f resolved t k, get-same t k t' k' f)
      | inr fresh ↦
          let later = get-merge_final_resolved (insert (t', k') v f) resolved t k in
          ground (arith, fresh, later, get-insert t' k' t k v f, get-same t k t' k' f)
    ]

merge_type-get :
    (unconflicted_state resolved : SharedState) (t t' k' : String)
    → get t' k' (merge_type unconflicted_state t resolved) ≡ (
        if t == t' && "" == k'
        then get_either t' k' resolved unconflicted_state
        else get t' k' resolved)
unfolding merge_type
merge_type-get unconflicted_state resolved t t' k' = elim (Bool-cases (t == t' && "" == k')) [
  | inl here ↦ ground (
    arith,
    here,
    get-same t' k' t "" unconflicted_state,
    get-same t' k' t "" resolved,
    get-insert t "" t' k' (unwrap_or (get t "" unconflicted_state) "") resolved,
  )
  | inr apart ↦
      ground
        (arith, apart, get-insert t "" t' k' (unwrap_or (get t "" unconflicted_state) "") resolved)
]

pub merge_unconflicted_power_events-IsMerged :
    (inputs : IterativeInputs) (resolved : SharedState)
    → IsMerged inputs resolved
        (merge_unconflicted_power_events inputs.version inputs.unconflicted_state resolved)
unfolding merge_unconflicted_power_events
merge_unconflicted_power_events-IsMerged inputs resolved t k =
    let u = inputs.unconflicted_state in
    let levels = merge_type u m_room_power_levels resolved in
    let rules = merge_type u m_room_join_rules levels in
    ground (
      arith,
      merge_type-get u resolved m_room_power_levels t k,
      merge_type-get u levels m_room_join_rules t k,
      merge_type-get u rules m_room_create t k,
      eq_iff t m_room_power_levels,
      eq_iff m_room_power_levels t,
      eq_iff t m_room_join_rules,
      eq_iff m_room_join_rules t,
      eq_iff t m_room_create,
      eq_iff m_room_create t,
      eq_iff k "",
      eq_iff "" k,
    )

pub get_initial_resolved_state-IsStart :
    (inputs : IterativeInputs)
    → IsStart inputs (get_initial_resolved_state inputs.unconflicted_state inputs.version)
unfolding get_initial_resolved_state
get_initial_resolved_state-IsStart inputs = refl
