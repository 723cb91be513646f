-- ===== src/State/Delta/Reads.antt =====
-- What a state holds behind a change (src/state/delta.rs, `apply_delta_to_state`).
use rezzy.Prelude.{
  ◌≡◌, refl, String, true, false, ◌&&◌, Option, none, some, [], ◌∷◌, arith, ◌==◌, eq_iff,
  if◌then◌else◌, is_some, Bool-cases, inl, inr,
}
use rezzy.Resolve.State.{get, insert, get-insert, SharedState}
use rezzy.State.Delta.{StateDelta, remove_key, apply_delta_to_state}

-- No key comes twice.
abbrev pub IsMap : SharedState → Type 0
IsMap [] = Unit
IsMap (((t, k), id) ∷ rest) = (is_some (get t k rest) ≡ false) × IsMap rest

pub get-same_key :
    (t k t' k' : String) (m : SharedState) → (t' == t && k' == k) ≡ true → get t k m ≡ get t' k' m
unfolding get
get-same_key t k t' k' [] h = refl
get-same_key t k t' k' (((a, b), v) ∷ rest) h =
    ground (arith, h, get-same_key t k t' k' rest h, eq_iff t' t, eq_iff k' k)

pub get-remove_key :
    (t k t' k' : String) (m : SharedState)
    → get t' k' (remove_key t k m) ≡ (if t == t' && k == k' then none else get t' k' m)
unfolding get remove_key
get-remove_key t k t' k' [] = ground arith
get-remove_key t k t' k' (((a, b), id) ∷ rest) = elim (Bool-cases (a == t && b == k)) [
  | inl here ↦ ground (
    arith,
    here,
    get-remove_key t k t' k' rest,
    eq_iff a t,
    eq_iff b k,
    eq_iff a t',
    eq_iff b k',
    eq_iff t t',
    eq_iff k k',
  )
  | inr apart ↦ ground (
    arith,
    apart,
    get-remove_key t k t' k' rest,
    eq_iff a t,
    eq_iff b k,
    eq_iff a t',
    eq_iff b k',
    eq_iff t t',
    eq_iff k k',
  )
]

-- A change of a state is a change of one key.
pub get-apply_delta :
    (state : SharedState) (delta : StateDelta) (t k : String)
    → get t k (apply_delta_to_state state delta)
      ≡ (if delta.event_type == t && delta.state_key == k then delta.event_id else get t k state)
unfolding apply_delta_to_state
get-apply_delta state delta t k = go delta.event_id
  where
    go :
        (o : Option String)
        → get t k (elim o [
          | some event_id ↦ insert (delta.event_type, delta.state_key) event_id state
          | none ↦ remove_key delta.event_type delta.state_key state
        ])
          ≡ (if delta.event_type == t && delta.state_key == k then o else get t k state)
    go (some id) = get-insert delta.event_type delta.state_key t k id state
    go none = get-remove_key delta.event_type delta.state_key t k state
