-- ===== src/Examples/Dense.antt =====
-- Examples of the dense index.
use rezzy.Prelude.{
  ℕ, ◌≤◌, ◌≡◌, ◌↔◌, refl, String, Bool, true, false, some, List, [], ◌∷◌, arith, is_some, contains,
  ok, err, put, lookup,
}
use rezzy.DenseIndex.{
  Dense, count_past, push_item, build_items, try_build_bounded, try_build, index_of, item_at,
  try_push,
}
use rezzy.DenseIndex.Distinctness.{IsDense}
use rezzy.DenseIndex.Built.{
  first_seen, IsBuild, IsPushed, try_build_bounded-IsBuild, try_build-index_of, try_push-IsPushed,
}

abbrev granted : ℕ → Bool
granted n = true

abbrev seen_twice : List String
seen_twice = "$b" ∷ "$a" ∷ "$b" ∷ "$c" ∷ []

abbrev two : Dense
two = record { items = "$b" ∷ "$a" ∷ []; index_by_item = ("$b", 0) ∷ ("$a", 1) ∷ [] }

build_test : try_build 255 granted ("$b" ∷ "$a" ∷ "$b" ∷ []) ≡ ok two
unfolding try_build try_build_bounded build_items push_item lookup put
build_test = refl

-- Three distinct items do not fit two slots.
bound_test :
    try_build_bounded 255 granted seen_twice 2
    ≡ err (record { distinct_count = 3; allocation_failed = false })
unfolding try_build_bounded build_items push_item count_past lookup put
bound_test = refl

try_build_bounded-IsBuild_example :
    IsBuild 2 (first_seen [] seen_twice) (try_build_bounded 255 granted seen_twice 2)
try_build_bounded-IsBuild_example =
    try_build_bounded-IsBuild 255 granted 2 (λ n. refl) (omega arith) seen_twice

try_build-index_of_example :
    ((k : String) → is_some (index_of two k) ≡ contains ("$b" ∷ "$a" ∷ "$b" ∷ []) k)
    × ((k : String) (n : ℕ) → (index_of two k ≡ some n) ↔ (item_at two n ≡ some k))
    × ((k : String) (n : ℕ) → index_of two k ≡ some n → n ≤ 255)
try_build-index_of_example = try_build-index_of 255 granted ("$b" ∷ "$a" ∷ "$b" ∷ []) two build_test

two-IsDense : IsDense two
unfolding lookup
two-IsDense = record { positions = λ k. ground arith; size = refl; once = (refl, (refl, tt)) }

abbrev three : Dense
three = record {
  items = "$b" ∷ "$a" ∷ "$c" ∷ [];
  index_by_item = ("$b", 0) ∷ ("$a", 1) ∷ ("$c", 2) ∷ [];
}

push_test : try_push 255 granted "$c" two ≡ ok (2, three)
unfolding try_push push_item lookup put
push_test = refl

try_push-IsPushed_example : IsPushed 255 two "$c" (2, three)
try_push-IsPushed_example =
    try_push-IsPushed 255 granted "$c" two two-IsDense (omega arith) (2, three) push_test
