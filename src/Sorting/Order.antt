-- ===== src/Sorting/Order.antt =====
-- The order by which the queue is sorted (src/basespec/rezzy_types.rs, `SortPriority::cmp`), and what
-- `pop` takes from the queue.
use Prim.Native.Nat.{compare, Ordering}
use text.Mathlib.Text.{is_lt}
use text.Mathlib.TextEquality.{path_by_compare}
use rezzy.Prelude.{
  ◌≡◌, ◌≢◌, refl, Bool, false, ◌||◌, ap, Option, none, some, List, [], ◌∷◌, ℤ, arith, flip, or_else,
  text-flip, text_trans, compare-or_else_trans, or_else_trans, or_else_eq, compare-eq,
}
use rezzy.Sorting.Priority.{SortPriority, version_rank, compare_ℤ, cmp_v1, cmp_v2, cmp}
use rezzy.Sorting.Kahn.{pop}
use rezzy.Sorting.Kahn.Invariant.{pop-none}

-- Comparing the other way round gives the opposite answer.
pub cmp-flip : (a b : SortPriority) → cmp b a ≡ flip (cmp a b)
unfolding cmp cmp_v1 cmp_v2
cmp-flip a b = ground (arith, text-flip a.event.event_id b.event.event_id)

cmp_v1_trans :
    (a b c : SortPriority)
    → cmp_v1 a b ≡ Ordering.lt
    → cmp_v1 b c ≡ Ordering.lt
    → cmp_v1 a c ≡ Ordering.lt
unfolding cmp_v1
cmp_v1_trans a b c h k =
    compare-or_else_trans a.event.depth b.event.depth c.event.depth _ _ _
      (λ p q. text_trans a.event.event_id b.event.event_id c.event.event_id) h k

compare_ℤ-or_else_trans :
    (m n o : ℤ) (a b c : Ordering)
    → (a ≡ Ordering.lt → b ≡ Ordering.lt → c ≡ Ordering.lt)
    → or_else (compare_ℤ m n) a ≡ Ordering.lt
    → or_else (compare_ℤ n o) b ≡ Ordering.lt
    → or_else (compare_ℤ m o) c ≡ Ordering.lt
compare_ℤ-or_else_trans m n o a b c second h k =
    or_else_trans (compare_ℤ m n) (compare_ℤ n o) (compare_ℤ m o) a b c (λ p q. ground arith)
      (λ p q. ground arith) (λ p. ground arith) (λ p q. second) h k

cmp_v2_trans :
    (a b c : SortPriority)
    → cmp_v2 a b ≡ Ordering.lt
    → cmp_v2 b c ≡ Ordering.lt
    → cmp_v2 a c ≡ Ordering.lt
unfolding cmp_v2
cmp_v2_trans a b c h k =
    compare_ℤ-or_else_trans a.power_level b.power_level c.power_level _ _ _
      (λ p q. ground (arith, text_trans c.event.event_id b.event.event_id a.event.event_id)) h k

-- The comparison of the queue is transitive: what is below something below a third is below the
-- third, whatever the versions.
pub cmp_trans :
    (a b c : SortPriority) → cmp a b ≡ Ordering.lt → cmp b c ≡ Ordering.lt → cmp a c ≡ Ordering.lt
unfolding cmp
cmp_trans a b c h k =
    compare-or_else_trans (version_rank a.version) (version_rank b.version) (version_rank c.version)
      _ _ _ (λ p q h' k'. ground (arith, cmp_v1_trans a b c, cmp_v2_trans a b c)) h k

cmp_v1-eq : (a b c : SortPriority) → cmp_v1 a b ≡ Ordering.eq → cmp_v1 b c ≡ cmp_v1 a c
unfolding cmp_v1
cmp_v1-eq a b c h =
    let (deep, id) = or_else_eq (compare a.event.depth b.event.depth) _ h in
    ground (
      arith,
      compare-eq a.event.depth b.event.depth deep,
      path_by_compare a.event.event_id b.event.event_id id,
    )

cmp_v2-eq : (a b c : SortPriority) → cmp_v2 a b ≡ Ordering.eq → cmp_v2 b c ≡ cmp_v2 a c
unfolding cmp_v2
cmp_v2-eq a b c h =
    let (level, later) = or_else_eq (compare_ℤ a.power_level b.power_level) _ h in
    let (ts, id) = or_else_eq (compare b.event.origin_server_ts a.event.origin_server_ts) _ later in
    let levels : compare_ℤ b.power_level c.power_level ≡ compare_ℤ a.power_level c.power_level =
      ground (arith, level) in
    ground (
      arith,
      levels,
      compare-eq b.event.origin_server_ts a.event.origin_server_ts ts,
      path_by_compare b.event.event_id a.event.event_id id,
    )

cmp-eq : (a b c : SortPriority) → cmp a b ≡ Ordering.eq → cmp b c ≡ cmp a c
unfolding cmp
cmp-eq a b c h =
    let (ranks, later) =
      or_else_eq (compare (version_rank a.version) (version_rank b.version)) _ h in
    let same = compare-eq (version_rank a.version) (version_rank b.version) ranks in
    ground (arith, same, later, cmp_v1-eq a b c, cmp_v2-eq a b c)

-- What is not below `p` is not below what `p` is not below.
not_below :
    (p m x : SortPriority) → cmp p m ≢ Ordering.lt → cmp m x ≢ Ordering.lt → cmp p x ≢ Ordering.lt
not_below p m x h k less = ground (arith, cmp-flip p m, cmp_trans m p x, cmp-eq m p x)

-- Whether one of the queue is greater.
abbrev pub is_beaten : SortPriority → List SortPriority → Bool
is_beaten p [] = false
is_beaten p (q ∷ queue) = is_lt (cmp p q) || is_beaten p queue

pub pop-is_beaten :
    (x : SortPriority) (queue : List SortPriority) (top : SortPriority) (rest : List SortPriority)
    → pop queue ≡ some (top, rest)
    → is_beaten x queue ≡ (is_lt (cmp x top) || is_beaten x rest)
unfolding pop
pop-is_beaten x [] top rest h = ground arith
pop-is_beaten x (p ∷ queue) top rest h = go (λ m r e. pop-is_beaten x queue m r e) (pop queue) refl
  where
    go :
        ((m : SortPriority) (r : List SortPriority)
          → pop queue ≡ some (m, r)
          → is_beaten x queue ≡ (is_lt (cmp x m) || is_beaten x r))
        → (taken : Option (SortPriority × List SortPriority)) → pop queue ≡ taken
        → is_beaten x (p ∷ queue) ≡ (is_lt (cmp x top) || is_beaten x rest)
    go later none e = let bare = ap (is_beaten x) (pop-none queue e) in ground arith
    go later (some (m, r)) e = ground (arith, later m r e)

-- Nothing beats what beats or equals all of a queue's greatest element.
not_beaten :
    (p m : SortPriority) (r : List SortPriority)
    → is_lt (cmp p m) ≡ false
    → is_beaten m r ≡ false
    → is_beaten p r ≡ false
not_beaten p m [] h k = refl
not_beaten p m (x ∷ r) h k = ground (arith, not_below p m x, not_beaten p m r)

-- `pop` takes a greatest element: the comparison puts none that it leaves above it.
pub pop-greatest :
    (queue : List SortPriority) (top : SortPriority) (rest : List SortPriority)
    → pop queue ≡ some (top, rest)
    → is_beaten top rest ≡ false
unfolding pop
pop-greatest [] top rest h = ground arith
pop-greatest (p ∷ queue) top rest h = go (λ m r e. pop-greatest queue m r e) (pop queue) refl
  where
    go :
        ((m : SortPriority) (r : List SortPriority)
          → pop queue ≡ some (m, r)
          → is_beaten m r ≡ false)
        → (taken : Option (SortPriority × List SortPriority)) → pop queue ≡ taken
        → is_beaten top rest ≡ false
    go later none e = ground arith
    go later (some (m, r)) e =
        let best = later m r e in
        let split = pop-is_beaten p queue m r e in
        ground (arith, best, split, cmp-flip p m, not_beaten p m r)

pub cmp-same_id : (a b : SortPriority) → cmp a b ≡ Ordering.eq → a.event.event_id ≡ b.event.event_id
unfolding cmp cmp_v1 cmp_v2
cmp-same_id a b h =
    let (ranks, later) =
      or_else_eq (compare (version_rank a.version) (version_rank b.version)) _ h in
    ground (
      arith,
      later,
      path_by_compare a.event.event_id b.event.event_id,
      path_by_compare b.event.event_id a.event.event_id,
    )
