-- ===== src/DenseIndex/Built.antt =====
-- What the build of a dense index returns (src/dense_index.rs, `try_build_bounded`).
use rezzy.Prelude.{
  ℕ, suc, ◌+◌, ◌≤◌, ◌<◌, ◌≡◌, ◌↔◌, ◌⊎◌, refl, sym, ap, ◌∙◌, String, Bool, true, false, ◌||◌, Option,
  none, some, List, [], ◌∷◌, ◌++◌, arith, ◌==◌, eq_iff, if◌then◌else◌, leb, is_some, length,
  length-append, contains, contains-append, lookup, lookup-put, subst, Result, ok, err, Bool-cases,
  inl, inr,
}
use rezzy.DenseIndex.{
  IndexTooLarge, Dense, count_past, push_item, build_items, try_build_bounded, try_build, index_of,
  item_at, try_push,
}
use rezzy.DenseIndex.Distinctness.{
  IsDense, position-contains, position-nth, nth-position, position-bound, push_item-IsDense,
}

-- The items that were not seen, each at its first occurrence.
abbrev pub first_seen : List String → List String → List String
first_seen seen [] = []
first_seen seen (x ∷ xs) =
    if contains seen x then first_seen seen xs else x ∷ first_seen (x ∷ seen) xs

count_past-first_seen :
    (reserves : ℕ → Bool) (index : List (String × ℕ)) (post_bound : List String) (count : ℕ)
    (rest seen : List String)
    → ((n : ℕ) → reserves n ≡ true)
    → ((k : String) → contains seen k ≡ (is_some (lookup k index) || contains post_bound k))
    → count_past reserves index post_bound count rest ≡ (record {
      distinct_count = count + length (first_seen seen rest);
      allocation_failed = false;
    })
unfolding count_past
count_past-first_seen reserves index post_bound count [] seen free same = ground arith
count_past-first_seen reserves index post_bound count (item ∷ rest) seen free same =
    let skipped = count_past-first_seen reserves index post_bound count rest seen free same in
    let counted =
      count_past-first_seen reserves index (item ∷ post_bound) (suc count) rest (item ∷ seen) free
        (λ k. ground (arith, same k)) in
    ground (arith, free count, same item, skipped, counted)

-- What the build comes to: an index of the items, or the error with their number.
abbrev pub IsBuild : ℕ → List String → Result IndexTooLarge Dense → Type 0
IsBuild bound items r =
    ((d : Dense) × (r ≡ ok d) × (d.items ≡ items) × IsDense d × (length items ≤ bound))
    ⊎ ((r ≡ err (record { distinct_count = length items; allocation_failed = false }))
        × (bound < length items))

append_nil : (xs : List String) → xs ++ [] ≡ xs
append_nil [] = refl
append_nil (x ∷ xs) = ap (λ l. x ∷ l) (append_nil xs)

append_snoc :
    (xs : List String) (x : String) (ys : List String) → (xs ++ x ∷ []) ++ ys ≡ xs ++ x ∷ ys
append_snoc [] x ys = refl
append_snoc (y ∷ xs) x ys = ap (λ l. y ∷ l) (append_snoc xs x ys)

pushed-lookup :
    (item : String) (d : Dense) (k : String)
    → is_some (lookup k (push_item item d).index_by_item)
      ≡ (item == k || is_some (lookup k d.index_by_item))
unfolding push_item
pushed-lookup item d k = ground (arith, lookup-put item k (length d.items) d.index_by_item)

module _ (max_index : ℕ) (reserves : ℕ → Bool) (bound : ℕ) (free : (n : ℕ) → reserves n ≡ true)
    (addressed : bound ≤ suc max_index) where
  build_items-IsBuild :
      (universe seen : List String) (d : Dense)
      → IsDense d
      → length d.items ≤ bound
      → ((k : String) → contains seen k ≡ is_some (lookup k d.index_by_item))
      → IsBuild bound
          (d.items ++ first_seen seen universe)
          (build_items max_index reserves bound universe d)
  unfolding build_items push_item
  build_items-IsBuild [] seen d inv small same =
      inl (d, refl, sym (append_nil d.items), inv, ground (arith, small, append_nil d.items))
  build_items-IsBuild (item ∷ rest) seen d inv small same =
      elim (Bool-cases (is_some (lookup item d.index_by_item))) [
        | inl old ↦
            let met : contains seen item ≡ true = same item ∙ old in
            rw (old, met) (build_items-IsBuild rest seen d inv small same)
        | inr new ↦
            let unmet : contains seen item ≡ false = same item ∙ new in
            elim (Bool-cases (leb bound (length d.items))) [
              | inl full ↦
                  let counts =
                    count_past-first_seen reserves d.index_by_item [] (length d.index_by_item)
                      (item ∷ rest) seen free (λ k. ground (arith, same k)) in
                  let total = length-append d.items (item ∷ first_seen (item ∷ seen) rest) in
                  rw (new, unmet, full)
                    (inr
                      (ground (arith, counts, unmet, total, inv.size), ground (arith, full, total)))
              | inr spare ↦
                  let fits : leb (length d.items) max_index ≡ true =
                    ground (arith, spare, addressed) in
                  let later =
                    build_items-IsBuild rest (item ∷ seen) (push_item item d)
                      (push_item-IsDense item d inv new)
                      (ground (arith, spare, length-append d.items (item ∷ [])))
                      (λ k. ground (arith, same k, pushed-lookup item d k)) in
                  rw (new, unmet, spare, free (length d.items), fits)
                    (subst
                      (λ l.
                        IsBuild bound l
                          (build_items max_index reserves bound rest (push_item item d)))
                      (append_snoc d.items item (first_seen (item ∷ seen) rest)) later)
            ]
      ]

  -- Where every reservation of memory succeeds and the bound is at most one above the greatest
  -- index, the build gives an index with the items in the order in which each is first seen, if
  -- there are at most `bound` of them. If there are more, it gives the error that has their true
  -- number and no failed allocation.
  pub try_build_bounded-IsBuild :
      (universe : List String)
      → IsBuild bound (first_seen [] universe) (try_build_bounded max_index reserves universe bound)
  unfolding try_build_bounded lookup
  try_build_bounded-IsBuild universe =
      build_items-IsBuild universe [] (record { items = []; index_by_item = [] })
        (record { positions = λ k. refl; size = refl; once = tt }) (omega arith) (λ k. refl)

-- An index of these items and of those that a first index has, within the width.
abbrev pub IsIndex : ℕ → Dense → List String → Dense → Type 0
IsIndex max_index d universe d' =
    IsDense d'
    × (length d'.items ≤ suc max_index)
    × ((k : String) → contains d'.items k ≡ (contains d.items k || contains universe k))

held :
    (d : Dense) (k : String) → IsDense d → contains d.items k ≡ is_some (lookup k d.index_by_item)
held d k inv = sym (position-contains k d.items) ∙ ap is_some (sym (inv.positions k))

-- Whatever the reservations do, a build keeps the index dense and within its width.
build_items-IsIndex :
    (max_index : ℕ) (reserves : ℕ → Bool) (bound : ℕ) (universe : List String) (d d' : Dense)
    → IsDense d
    → length d.items ≤ suc max_index
    → build_items max_index reserves bound universe d ≡ ok d'
    → IsIndex max_index d universe d'
unfolding build_items push_item
build_items-IsIndex max_index reserves bound [] d d' inv small h =
    let same : d ≡ d' = ground (arith, h) in
    subst (IsIndex max_index d []) same (inv, small, λ k. ground arith)
build_items-IsIndex max_index reserves bound (item ∷ rest) d d' inv small h =
    elim (Bool-cases (is_some (lookup item d.index_by_item))) [
      | inl old ↦
          let (inv', small', all) =
            build_items-IsIndex max_index reserves bound rest d d' inv small
              (ground (arith, old, h)) in
          (
            inv',
            small',
            λ k. ground (arith, all k, held d item inv, old, eq_iff item k, same_text k),
          )
      | inr new ↦ elim (Bool-cases (leb bound (length d.items))) [
        | inl full ↦ absurd (ground (arith, new, full, h))
        | inr spare ↦ elim (Bool-cases (reserves (length d.items))) [
          | inr refused ↦ absurd (ground (arith, new, spare, refused, h))
          | inl granted ↦ elim (Bool-cases (leb (length d.items) max_index)) [
            | inr wide ↦ absurd (ground (arith, new, spare, granted, wide, h))
            | inl fits ↦
                let (inv', small', all) =
                  build_items-IsIndex max_index reserves bound rest (push_item item d) d'
                    (push_item-IsDense item d inv new)
                    (ground (arith, fits, length-append d.items (item ∷ [])))
                    (ground (arith, new, spare, granted, fits, h)) in
                (inv', small', λ k. ground (arith, all k, contains-append k d.items (item ∷ [])))
          ]
        ]
      ]
    ]
  where
    same_text : (k : String) → (item == k) ≡ true → contains d.items item ≡ contains d.items k
    same_text k e = ap (contains d.items) ((eq_iff item k).0 e)

-- Whatever reservations fail, an index that was built has a number for exactly the items of the
-- universe, the item of each number is the one that it was given for, and no number is above the
-- greatest index.
pub try_build-index_of :
    (max_index : ℕ) (reserves : ℕ → Bool) (universe : List String) (d : Dense)
    → try_build max_index reserves universe ≡ ok d
    → ((k : String) → is_some (index_of d k) ≡ contains universe k)
      × ((k : String) (n : ℕ) → (index_of d k ≡ some n) ↔ (item_at d n ≡ some k))
      × ((k : String) (n : ℕ) → index_of d k ≡ some n → n ≤ max_index)
unfolding try_build try_build_bounded lookup
try_build-index_of max_index reserves universe d h =
    let (inv, small, all) =
      build_items-IsIndex max_index reserves (suc max_index) universe
        (record { items = []; index_by_item = [] }) d
        (record { positions = λ k. refl; size = refl; once = tt }) (omega arith) h in
    (
      λ k. sym (held d k inv) ∙ all k,
      λ k n. (
        λ e. position-nth k d.items n (sym (inv.positions k) ∙ e),
        λ e. inv.positions k ∙ nth-position n k d.items inv.once e,
      ),
      λ k n e. omega (arith, small, position-bound k d.items n (sym (inv.positions k) ∙ e)),
    )

-- What a push gives: an index of the item too, in which it has that number and the others keep theirs.
abbrev pub IsPushed : ℕ → Dense → String → ℕ × Dense → Type 0
IsPushed max_index d item (idx, d') =
    IsDense d'
    × (length d'.items ≤ suc max_index)
    × (index_of d' item ≡ some idx)
    × ((k : String) (n : ℕ) → index_of d k ≡ some n → index_of d' k ≡ some n)
    × ((k : String) → contains d'.items k ≡ (item == k || contains d.items k))

-- A push that succeeds, on a dense index within its width, keeps it dense and within its width. The
-- item then has the number that is returned, every item keeps its number, and no other item is
-- added.
pub try_push-IsPushed :
    (max_index : ℕ) (reserves : ℕ → Bool) (item : String) (d : Dense)
    → IsDense d
    → length d.items ≤ suc max_index
    → (r : ℕ × Dense) → try_push max_index reserves item d ≡ ok r
    → IsPushed max_index d item r
unfolding try_push push_item
try_push-IsPushed max_index reserves item d inv small r h =
    go (lookup item d.index_by_item) refl (reserves (length d.items)) refl
      (leb (length d.items) max_index) refl
  where
    same_text : (k : String) → (item == k) ≡ true → contains d.items item ≡ contains d.items k
    same_text k e = ap (contains d.items) ((eq_iff item k).0 e)

    kept_text :
        (k : String) → (item == k) ≡ true → lookup item d.index_by_item ≡ lookup k d.index_by_item
    kept_text k e = ap (λ x. lookup x d.index_by_item) ((eq_iff item k).0 e)

    go :
        (o : Option ℕ)
        → lookup item d.index_by_item ≡ o
        → (granted : Bool) → reserves (length d.items) ≡ granted
        → (fits : Bool) → leb (length d.items) max_index ≡ fits
        → IsPushed max_index d item r
    go (some idx) l granted g fits f =
        let same : (idx, d) ≡ r = ground (arith, l, h) in
        subst (IsPushed max_index d item) same
          (inv, small, l, λ k n e. e, λ k. ground (arith, held d item inv, l, same_text k))
    go none l false g fits f = absurd (ground (arith, l, g, h))
    go none l true g false f = absurd (ground (arith, l, g, f, h))
    go none l true g true f =
        let same : (length d.items, push_item item d) ≡ r = ground (arith, l, g, f, h) in
        subst (IsPushed max_index d item) same (
          push_item-IsDense item d inv (ground (arith, l)),
          ground (arith, f, length-append d.items (item ∷ [])),
          ground (arith, lookup-put item item (length d.items) d.index_by_item, eq_iff item item),
          λ k n e.
              ground (arith, e, l, lookup-put item k (length d.items) d.index_by_item, kept_text k),
          λ k. ground (arith, contains-append k d.items (item ∷ [])),
        )
