-- ===== src/Prelude/Lists.antt =====
-- Lists: length, positions and tests over the native numbers, and maps keyed by texts.
use Prim.Native.Nat.{ℕ, suc, ◌+◌}
use Prim.Native.String.{String}
use mathlib.Core.Path.{◌≡◌, refl, sym, subst}
use mathlib.Core.Logic.{inl, inr}
use mathlib.Core.Bool.{Bool, true, false, ◌||◌}
use mathlib.Core.Option.{Option, none, some}
use mathlib.Core.List.{List, [], ◌∷◌, ◌++◌}
use native.Mathlib.Omega.{arith}
use text.Mathlib.Text.{◌==◌}
use text.Mathlib.TextEquality.{eq_iff}
use rezzy.Prelude.Tests.{if◌then◌else◌, text_ltb, ltb, is_some, Bool-cases}

module _ {ℓ} {A : Type ℓ} where
  abbrev pub length : List A → ℕ
  length [] = 0
  length (x ∷ xs) = suc (length xs)

  abbrev pub any : (A → Bool) → List A → Bool
  any p [] = false
  any p (x ∷ xs) = p x || any p xs

  abbrev pub is_empty : List A → Bool
  is_empty [] = true
  is_empty (x ∷ xs) = false

  -- Each element satisfies `P`.
  abbrev pub All {κ} : (A → Type κ) → List A → Type κ
  All P [] = Unit
  All P (x ∷ xs) = P x × All P xs

pub All-map {ℓ κ μ} :
    {A : Type ℓ} (P : A → Type κ) (Q : A → Type μ)
    → ((x : A) → P x → Q x)
    → (xs : List A) → All P xs
    → All Q xs
All-map P Q f [] h = tt
All-map P Q f (x ∷ xs) h = (f x h.0, All-map P Q f xs h.1)

pub All-append {ℓ κ} :
    {A : Type ℓ} (P : A → Type κ) (xs ys : List A) → All P xs → All P ys → All P (xs ++ ys)
All-append P [] ys h k = k
All-append P (x ∷ xs) ys h k = (h.0, All-append P xs ys h.1 k)

abbrev pub contains : List String → String → Bool
contains xs s = any (λ x. x == s) xs

-- A `HashMap` or `BTreeMap` with text keys, as the list of its entries.
module _ {ℓ} {Value : Type ℓ} where
  unfoldable pub lookup : String → List (String × Value) → Option Value
  lookup key [] = none
  lookup key ((name, value) ∷ entries) = if name == key then some value else lookup key entries

  -- `BTreeMap::insert`: the entries stand in the order of their keys.
  unfoldable pub btree_insert : String → Value → List (String × Value) → List (String × Value)
  btree_insert key value [] = (key, value) ∷ []
  btree_insert key value ((name, old) ∷ entries) =
      let later = (name, old) ∷ btree_insert key value entries in
      if name == key
      then (key, value) ∷ entries
      else if text_ltb key name
      then (key, value) ∷ (name, old) ∷ entries
      else later

  pub lookup-btree_insert :
      (key wanted : String) (value : Value) (entries : List (String × Value))
      → lookup wanted (btree_insert key value entries)
        ≡ (if key == wanted then some value else lookup wanted entries)
  unfolding lookup btree_insert
  lookup-btree_insert key wanted value [] = ground arith
  lookup-btree_insert key wanted value ((name, old) ∷ entries) = ground (
    arith,
    lookup-btree_insert key wanted value entries,
    eq_iff name wanted,
    eq_iff name key,
    eq_iff key wanted,
  )

  -- The keys are distinct.
  abbrev pub Distinct : List (String × Value) → Type 0
  Distinct [] = Unit
  Distinct ((name, value) ∷ entries) = (is_some (lookup name entries) ≡ false) × Distinct entries

  -- `HashMap::insert`; a new entry goes behind the others.
  unfoldable pub put : String → Value → List (String × Value) → List (String × Value)
  put key value [] = (key, value) ∷ []
  put key value ((name, old) ∷ entries) =
      if name == key then (name, value) ∷ entries else (name, old) ∷ put key value entries

  pub lookup-put :
      (key wanted : String) (value : Value) (entries : List (String × Value))
      → lookup wanted (put key value entries)
        ≡ (if key == wanted then some value else lookup wanted entries)
  unfolding lookup put
  lookup-put key wanted value [] = ground arith
  lookup-put key wanted value ((name, old) ∷ entries) = ground (
    arith,
    lookup-put key wanted value entries,
    eq_iff name wanted,
    eq_iff name key,
    eq_iff key wanted,
  )

  pub put-Distinct :
      (key : String) (value : Value) (entries : List (String × Value))
      → Distinct entries
      → Distinct (put key value entries)
  unfolding lookup put
  put-Distinct key value [] d = (refl, tt)
  put-Distinct key value ((name, old) ∷ entries) d =
      let later = put-Distinct key value entries d.1 in
      let law = lookup-put key name value entries in
      ground (arith, eq_iff name key, eq_iff key name, law, later)

  pub put-All {κ} :
      (P : String × Value → Type κ) (id : String) (ev : Value) (m : List (String × Value))
      → P (id, ev)
      → All P m
      → All P (put id ev m)
  unfolding put
  put-All P id ev [] p ps = (p, tt)
  put-All P id ev ((name, old) ∷ rest) p ps = elim (Bool-cases (name == id)) [
    | inl here ↦ rw here (subst (λ n. P (n, ev)) (sym ((eq_iff name id).0 here)) p, ps.1)
    | inr apart ↦ rw apart (ps.0, put-All P id ev rest p ps.1)
  ]

  pub lookup-All {κ} :
      (P : String × Value → Type κ) (id : String) (ev : Value) (m : List (String × Value))
      → lookup id m ≡ some ev
      → All P m
      → P (id, ev)
  unfolding lookup
  lookup-All P id ev [] h ps = absurd (ground (arith, h))
  lookup-All P id ev ((name, old) ∷ rest) h ps = elim (Bool-cases (name == id)) [
    | inl here ↦
        let same : old ≡ ev = ground (arith, here, h) in
        subst (λ n. P (n, ev)) ((eq_iff name id).0 here) (subst (λ e. P (name, e)) same ps.0)
    | inr apart ↦ lookup-All P id ev rest (ground (arith, apart, h)) ps.1
  ]

  abbrev pub keys : List (String × Value) → List String
  keys [] = []
  keys ((name, value) ∷ entries) = name ∷ keys entries

-- How often a text stands in a list.
abbrev pub count : String → List String → ℕ
count s [] = 0
count s (x ∷ xs) = if x == s then suc (count s xs) else count s xs

pub count-append : (s : String) (xs ys : List String) → count s (xs ++ ys) ≡ count s xs + count s ys
count-append s [] ys = omega arith
count-append s (x ∷ xs) ys = ground (arith, count-append s xs ys)

pub contains-append :
    (s : String) (xs ys : List String) → contains (xs ++ ys) s ≡ (contains xs s || contains ys s)
contains-append s [] ys = refl
contains-append s (x ∷ xs) ys = ground (arith, contains-append s xs ys)

pub contains-count : (s : String) (xs : List String) → contains xs s ≡ ltb 0 (count s xs)
contains-count s [] = refl
contains-count s (x ∷ xs) = ground (arith, contains-count s xs)

pub length-append {ℓ} : {A : Type ℓ} (xs ys : List A) → length (xs ++ ys) ≡ length xs + length ys
length-append [] ys = omega arith
length-append (x ∷ xs) ys = omega (arith, length-append xs ys)
