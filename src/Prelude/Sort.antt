-- ===== src/Prelude/Sort.antt =====
-- A stable sort by a comparison, as `sort_by` is: an insertion sort. What it returns is ordered and
-- holds the same elements.
use Prim.Native.Nat.{ℕ, suc, Ordering}
use mathlib.Core.Path.{◌≡◌, refl}
use mathlib.Core.Bool.{Bool, true, false, ◌&&◌, not}
use mathlib.Core.List.{List, [], ◌∷◌}
use native.Mathlib.Omega.{arith}
use text.Mathlib.Text.{is_lt}
use mathlib.Core.Logic.{inl, inr}
use rezzy.Prelude.Tests.{if◌then◌else◌, Bool-cases, &&-both}
use rezzy.Prelude.Lists.{All}
use rezzy.Prelude.Orders.{flip}

-- How many elements pass a test.
abbrev pub count_if {ℓ} : {A : Type ℓ} → (A → Bool) → List A → ℕ
count_if p [] = 0
count_if p (a ∷ rest) = if p a then suc (count_if p rest) else count_if p rest

-- Each element stands in the relation to all behind it.
abbrev pub InOrder {ℓ κ} : {A : Type ℓ} → (A → A → Type κ) → List A → Type κ
InOrder R [] = Unit
InOrder R (a ∷ rest) = All (R a) rest × InOrder R rest

module _ {ℓ} {A : Type ℓ} (cmp : A → A → Ordering) where
  -- In front of the first element that is not below it.
  unfoldable pub insert_by : A → List A → List A
  insert_by a [] = a ∷ []
  insert_by a (b ∷ rest) =
      let later = b ∷ insert_by a rest in if is_lt (cmp b a) then later else a ∷ b ∷ rest

  unfoldable pub sort_by : List A → List A
  sort_by [] = []
  sort_by (a ∷ rest) = insert_by a (sort_by rest)

  -- No element is below `a`.
  abbrev pub none_below : A → List A → Bool
  none_below a [] = true
  none_below a (b ∷ rest) = not (is_lt (cmp b a)) && none_below a rest

  -- None is below one in front of it.
  abbrev pub is_sorted : List A → Bool
  is_sorted [] = true
  is_sorted (a ∷ rest) = none_below a rest && is_sorted rest

  pub is_sorted-InOrder {κ} :
      (R : A → A → Type κ)
      → ((a b : A) → is_lt (cmp b a) ≡ false → R a b)
      → (xs : List A) → is_sorted xs ≡ true
      → InOrder R xs
  is_sorted-InOrder R from [] h = tt
  is_sorted-InOrder R from (a ∷ rest) h =
      let (none_here, later) = &&-both (none_below a rest) (is_sorted rest) h in
      (all rest none_here, is_sorted-InOrder R from rest later)
    where
      all : (ys : List A) → none_below a ys ≡ true → All (R a) ys
      all [] k = tt
      all (b ∷ ys) k =
          let (here, others) = &&-both (not (is_lt (cmp b a))) (none_below a ys) k in
          (from a b (ground (arith, here)), all ys others)

  pub insert_by-count_if :
      (p : A → Bool) (a : A) (xs : List A) → count_if p (insert_by a xs) ≡ count_if p (a ∷ xs)
  unfolding insert_by
  insert_by-count_if p a [] = refl
  insert_by-count_if p a (b ∷ rest) = ground (arith, insert_by-count_if p a rest)

  insert_by-All {κ} :
      (P : A → Type κ) (a : A) (xs : List A) → P a → All P xs → All P (insert_by a xs)
  unfolding insert_by
  insert_by-All P a [] p ps = (p, tt)
  insert_by-All P a (b ∷ rest) p ps = elim (Bool-cases (is_lt (cmp b a))) [
    | inl below ↦ rw below (ps.0, insert_by-All P a rest p ps.1)
    | inr above ↦ rw above (p, ps)
  ]

  pub sort_by-All {κ} : (P : A → Type κ) (xs : List A) → All P xs → All P (sort_by xs)
  unfolding sort_by
  sort_by-All P [] ps = tt
  sort_by-All P (a ∷ rest) ps = insert_by-All P a (sort_by rest) ps.0 (sort_by-All P rest ps.1)

  pub sort_by-count_if : (p : A → Bool) (xs : List A) → count_if p (sort_by xs) ≡ count_if p xs
  unfolding sort_by
  sort_by-count_if p [] = refl
  sort_by-count_if p (a ∷ rest) =
      ground (arith, insert_by-count_if p a (sort_by rest), sort_by-count_if p rest)

  module _ (flips : (a b : A) → cmp b a ≡ flip (cmp a b))
      (kept : (a b c : A)
        → is_lt (cmp b a) ≡ false
        → is_lt (cmp c b) ≡ false
        → is_lt (cmp c a) ≡ false) where
    none_below_trans :
        (a b : A) (xs : List A)
        → is_lt (cmp b a) ≡ false
        → none_below b xs ≡ true
        → none_below a xs ≡ true
    none_below_trans a b [] h k = refl
    none_below_trans a b (c ∷ xs) h k = ground (arith, kept a b c, none_below_trans a b xs)

    none_below-insert_by :
        (a b : A) (xs : List A)
        → is_lt (cmp a b) ≡ false
        → none_below b xs ≡ true
        → none_below b (insert_by a xs) ≡ true
    unfolding insert_by
    none_below-insert_by a b [] h k = ground arith
    none_below-insert_by a b (c ∷ xs) h k = ground (arith, none_below-insert_by a b xs)

    insert_by-is_sorted :
        (a : A) (xs : List A) → is_sorted xs ≡ true → is_sorted (insert_by a xs) ≡ true
    unfolding insert_by
    insert_by-is_sorted a [] h = refl
    insert_by-is_sorted a (b ∷ xs) h = ground (
      arith,
      flips a b,
      flips b a,
      insert_by-is_sorted a xs,
      none_below-insert_by a b xs,
      none_below_trans a b xs,
    )

    pub sort_by-is_sorted : (xs : List A) → is_sorted (sort_by xs) ≡ true
    unfolding sort_by
    sort_by-is_sorted [] = refl
    sort_by-is_sorted (a ∷ rest) = insert_by-is_sorted a (sort_by rest) (sort_by-is_sorted rest)
