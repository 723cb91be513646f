-- ===== src/DenseIndex/Distinctness.antt =====
-- Positions in a list of distinct ids, as the dense index keeps them (src/dense_index.rs).
use rezzy.Prelude.{
  ℕ, zero, suc, ◌<◌, ◌≡◌, refl, String, true, false, Option, none, some, List, [], ◌∷◌, ◌++◌, arith,
  ◌==◌, eq_iff, if◌then◌else◌, is_some, length, length-append, contains, contains-append, lookup,
  put, lookup-put, Bool-cases, inl, inr, ap, ◌∙◌,
}
use rezzy.DenseIndex.{Dense, nth, push_item}

-- The position of the first occurrence.
abbrev pub position : String → List String → Option ℕ
position k [] = none
position k (x ∷ xs) =
    if x == k then some 0 else (elim (position k xs) [ none ↦ none | some n ↦ some (suc n) ])

-- No item comes twice.
abbrev pub Once : List String → Type 0
Once [] = Unit
Once (x ∷ xs) = (contains xs x ≡ false) × Once xs

Once-append :
    (x : String) (xs : List String) → Once xs → contains xs x ≡ false → Once (xs ++ x ∷ [])
Once-append x [] once h = (refl, tt)
Once-append x (y ∷ xs) once h = (
  ground (arith, once.0, h, contains-append y xs (x ∷ []), eq_iff x y, eq_iff y x),
  Once-append x xs once.1 (ground (arith, h)),
)

pub nth-contains :
    (n : ℕ) (k : String) (xs : List String) → nth n xs ≡ some k → contains xs k ≡ true
nth-contains n k [] h = absurd (ground (arith, h))
nth-contains zero k (x ∷ xs) h = ground (arith, h, eq_iff x k)
nth-contains (suc n) k (x ∷ xs) h = ground (arith, nth-contains n k xs h)

pub nth-position :
    (n : ℕ) (k : String) (xs : List String) → Once xs → nth n xs ≡ some k → position k xs ≡ some n
nth-position n k [] once h = absurd (ground (arith, h))
nth-position zero k (x ∷ xs) once h = ground (arith, h, eq_iff x k)
nth-position (suc n) k (x ∷ xs) once h =
    let later = nth-position n k xs once.1 h in
    let held = nth-contains n k xs h in ground (arith, later, held, once.0, eq_iff x k)

-- The index is the position, and the map has an entry for each item.
pub record IsDense (d : Dense) : Type 0 where
  pub positions : (k : String) → lookup k d.index_by_item ≡ position k d.items
  pub size : length d.index_by_item ≡ length d.items
  pub once : Once d.items

pub position-contains : (k : String) (xs : List String) → is_some (position k xs) ≡ contains xs k
position-contains k [] = refl
position-contains k (x ∷ xs) = ground (arith, position-contains k xs)

position-append :
    (k x : String) (xs : List String)
    → contains xs x ≡ false
    → position k (xs ++ x ∷ []) ≡ (if x == k then some (length xs) else position k xs)
position-append k x [] h = ground arith
position-append k x (y ∷ xs) h =
    ground (arith, h, position-append k x xs, eq_iff x k, eq_iff y k, eq_iff y x)

length-put :
    (k : String) (n : ℕ) (m : List (String × ℕ))
    → is_some (lookup k m) ≡ false
    → length (put k n m) ≡ suc (length m)
unfolding lookup put
length-put k n [] h = refl
length-put k n ((name, old) ∷ rest) h = ground (arith, h, length-put k n rest)

pub push_item-IsDense :
    (item : String) (d : Dense)
    → IsDense d
    → is_some (lookup item d.index_by_item) ≡ false
    → IsDense (push_item item d)
unfolding push_item
push_item-IsDense item d inv h = record {
  positions = λ k. ground (
    arith,
    h,
    inv.positions k,
    inv.positions item,
    position-contains item d.items,
    lookup-put item k (length d.items) d.index_by_item,
    position-append k item d.items,
  );
  size = ground (
    arith,
    inv.size,
    length-put item (length d.items) d.index_by_item h,
    length-append d.items (item ∷ []),
  );
  once =
      Once-append item d.items inv.once
        (ground (arith, h, inv.positions item, position-contains item d.items));
}

pub position-nth :
    (k : String) (xs : List String) (n : ℕ) → position k xs ≡ some n → nth n xs ≡ some k
position-nth k [] n h = absurd (ground (arith, h))
position-nth k (x ∷ xs) n h = elim (Bool-cases (x == k)) [
  | inl here ↦
      let first : n ≡ 0 = ground (arith, here, h) in
      ap (λ m. nth m (x ∷ xs)) first ∙ ap some ((eq_iff x k).0 here)
  | inr apart ↦ go (position k xs) refl (ground (arith, apart, h)) (position-nth k xs)
]
  where
    go :
        (o : Option ℕ)
        → position k xs ≡ o
        → (elim o [ none ↦ none | some m ↦ some (suc m) ]) ≡ some n
        → ((m : ℕ) → position k xs ≡ some m → nth m xs ≡ some k)
        → nth n (x ∷ xs) ≡ some k
    go none p g later = absurd (ground (arith, g))
    go (some m) p g later =
        let next : n ≡ suc m = ground (arith, g) in ap (λ j. nth j (x ∷ xs)) next ∙ later m p

nth-bound : (n : ℕ) (k : String) (xs : List String) → nth n xs ≡ some k → n < length xs
nth-bound n k [] h = absurd (ground (arith, h))
nth-bound zero k (x ∷ xs) h = omega arith
nth-bound (suc n) k (x ∷ xs) h = omega (arith, nth-bound n k xs h)

pub position-bound :
    (k : String) (xs : List String) (n : ℕ) → position k xs ≡ some n → n < length xs
position-bound k xs n h = nth-bound n k xs (position-nth k xs n h)
