-- ===== src/DenseIndex.antt =====
-- The dense index of a set of ids, in first-seen order (src/dense_index.rs). The width of an index
-- is a greatest index, and `reserves` says whether the reservation of memory for one more item
-- succeeds, by the number of items that were counted so far. Counts of items in memory do not reach
-- `usize::MAX`.
pub mod Distinctness
pub mod Built
use rezzy.Prelude.{
  ℕ, zero, suc, ◌+◌, String, Bool, true, false, Option, none, some, List, [], ◌∷◌, ◌++◌, leb,
  if◌then◌else◌, is_some, length, contains, lookup, put, Result, ok, err,
}

pub record IndexTooLarge : Type 0 where
  pub distinct_count : ℕ
  pub allocation_failed : Bool

pub record Dense : Type 0 where
  pub items : List String
  pub index_by_item : List (String × ℕ)

-- The count of the distinct items past the bound; the error of the build.
unfoldable pub count_past :
    (ℕ → Bool) → List (String × ℕ) → List String → ℕ → List String → IndexTooLarge
count_past reserves index post_bound count [] = record {
  distinct_count = count;
  allocation_failed = false;
}
count_past reserves index post_bound count (item ∷ rest) =
    let skipped = count_past reserves index post_bound count rest in
    let counted = count_past reserves index (item ∷ post_bound) (suc count) rest in
    if is_some (lookup item index)
    then skipped
    else if reserves count
    then (if contains post_bound item then skipped else counted)
    else (record { distinct_count = count; allocation_failed = true })

unfoldable pub push_item : String → Dense → Dense
push_item item d = record {
  items = d.items ++ item ∷ [];
  index_by_item = put item (length d.items) d.index_by_item;
}

-- The loop of `try_build_bounded`.
unfoldable pub build_items : ℕ → (ℕ → Bool) → ℕ → List String → Dense → Result IndexTooLarge Dense
build_items max_index reserves bound [] d = ok d
build_items max_index reserves bound (item ∷ rest) d =
    let skipped = build_items max_index reserves bound rest d in
    let pushed = build_items max_index reserves bound rest (push_item item d) in
    if is_some (lookup item d.index_by_item)
    then skipped
    else if leb bound (length d.items)
    then err (count_past reserves d.index_by_item [] (length d.index_by_item) (item ∷ rest))
    else if reserves (length d.items)
    then (if leb (length d.items) max_index
        then pushed
        else err (record { distinct_count = length d.items; allocation_failed = false }))
    else err (record { distinct_count = length d.items; allocation_failed = true })

unfoldable pub try_build_bounded : ℕ → (ℕ → Bool) → List String → ℕ → Result IndexTooLarge Dense
try_build_bounded max_index reserves universe bound =
    build_items max_index reserves bound universe (record { items = []; index_by_item = [] })

-- `Idx::MAX.saturating_add(1)`, where it does not saturate.
unfoldable pub try_build : ℕ → (ℕ → Bool) → List String → Result IndexTooLarge Dense
try_build max_index reserves universe =
    try_build_bounded max_index reserves universe (suc max_index)

abbrev pub index_of : Dense → String → Option ℕ
index_of d item = lookup item d.index_by_item

abbrev pub nth : ℕ → List String → Option String
nth n [] = none
nth zero (x ∷ xs) = some x
nth (suc n) (x ∷ xs) = nth n xs

abbrev pub item_at : Dense → ℕ → Option String
item_at d idx = nth idx d.items

-- The index, and `self` behind the call.
unfoldable pub try_push : ℕ → (ℕ → Bool) → String → Dense → Result IndexTooLarge (ℕ × Dense)
try_push max_index reserves item d = elim (lookup item d.index_by_item) [
  | some idx ↦ ok (idx, d)
  | none ↦
      if reserves (length d.items)
      then (if leb (length d.items) max_index
          then ok (length d.items, push_item item d)
          else err (record { distinct_count = length d.items; allocation_failed = false }))
      else err (record { distinct_count = length d.items; allocation_failed = true })
]
