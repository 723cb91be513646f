-- ===== src/Resolve/State.antt =====
-- Maps from an event type and a state key (src/state/at.rs, `SharedState`), and maps of events by
-- their ids. An `EventType` is the text that it is made from.
use rezzy.Prelude.{
  ◌≡◌, String, Bool, true, false, ◌&&◌, ◌||◌, Option, none, some, List, [], ◌∷◌, arith, ◌==◌,
  eq_iff, if◌then◌else◌, contains, lookup, text_ltb, All,
}
use rezzy.Basespec.Event.{LeanEvent}

abbrev pub Key : Type 0
Key = String × String

-- An ordered map with such keys, as the list of its entries.
module _ {ℓ} {Value : Type ℓ} where
  unfoldable pub get : String → String → List (Key × Value) → Option Value
  get t k [] = none
  get t k (((t', k'), value) ∷ rest) = if t' == t && k' == k then some value else get t k rest

  unfoldable pub insert : Key → Value → List (Key × Value) → List (Key × Value)
  insert key value [] = (key, value) ∷ []
  insert (t, k) value (((t', k'), old) ∷ rest) =
      let later = ((t', k'), old) ∷ insert (t, k) value rest in
      if t' == t && k' == k
      then ((t, k), value) ∷ rest
      else if text_ltb t t' || (t == t' && text_ltb k k')
      then ((t, k), value) ∷ ((t', k'), old) ∷ rest
      else later

  pub get-insert :
      (t k t' k' : String) (value : Value) (m : List (Key × Value))
      → get t' k' (insert (t, k) value m) ≡ (if t == t' && k == k' then some value else get t' k' m)
  unfolding get insert
  get-insert t k t' k' value [] = ground arith
  get-insert t k t' k' value (((a, b), old) ∷ rest) = ground (
    arith,
    get-insert t k t' k' value rest,
    eq_iff a t,
    eq_iff b k,
    eq_iff a t',
    eq_iff b k',
    eq_iff t t',
    eq_iff k k',
  )

  pub insert-All {κ} :
      (P : Key × Value → Type κ) (key : Key) (value : Value) (m : List (Key × Value))
      → P (key, value)
      → All P m
      → All P (insert key value m)
  unfolding insert
  insert-All P key value [] p ps = (p, tt)
  insert-All P (t, k) value (((t', k'), old) ∷ rest) p ps =
      go (t' == t && k' == k) (text_ltb t t' || (t == t' && text_ltb k k'))
        (insert-All P (t, k) value rest p ps.1)
    where
      go :
          (same below : Bool)
          → All P (insert (t, k) value rest)
          → All P (
              if same
              then ((t, k), value) ∷ rest
              else if below
              then ((t, k), value) ∷ ((t', k'), old) ∷ rest
              else ((t', k'), old) ∷ insert (t, k) value rest)
      go true below later = (p, ps.1)
      go false true later = (p, ps)
      go false false later = (ps.0, later)

abbrev pub SharedState : Type 0
SharedState = List (Key × String)

-- `HashMap<Id, LeanEvent>`
abbrev pub EventMap : Type 0
EventMap = List (String × LeanEvent)

-- `first.get(id).or_else(|| second.get(id))`
abbrev pub get_or_else : EventMap → EventMap → String → Option LeanEvent
get_or_else first second id = elim (lookup id first) [ some ev ↦ some ev | none ↦ lookup id second ]

-- `BTreeSet::insert`
unfoldable pub set_insert : String → List String → List String
set_insert x [] = x ∷ []
set_insert x (y ∷ ys) =
    let later = y ∷ set_insert x ys in
    if y == x then y ∷ ys else if text_ltb x y then x ∷ y ∷ ys else later

pub contains-set_insert :
    (x : String) (ys : List String) (k : String)
    → contains (set_insert x ys) k ≡ (x == k || contains ys k)
unfolding set_insert
contains-set_insert x [] k = ground arith
contains-set_insert x (y ∷ ys) k =
    ground (arith, eq_iff y x, eq_iff x k, eq_iff y k, contains-set_insert x ys k)
