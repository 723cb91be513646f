-- ===== src/Examples/Sorting.antt =====
-- Examples of the sort: three events of which the later cite the earlier, and two on a cycle.
use Prim.Native.Nat.{Ordering}
use rezzy.Prelude.{
  ℕ, ◌≡◌, ◌<◌, refl, subst, String, Bool, true, false, none, some, List, [], ◌∷◌, arith, eq_iff,
  ◌==◌, if◌then◌else◌, lookup, Distinct, All, keys, contains, is_some, put, pos, ltb,
}
use rezzy.Basespec.Version.{v2, is_v2_2}
use rezzy.Basespec.Event.{LeanEvent, dag_edges, empty_event, provider_of}
use rezzy.Sorting.Priority.{
  SortPriority, cmp, cmp_v1, cmp_v2, version_rank, get_power_level_from_auth_chain, find_pl_event,
  has_infinite_creators, is_creator_of, level_from_pl_event,
}
use rezzy.Sorting.Kahn.{
  Events, has, KahnSortResult, sorted_all, with_cycle_diagnostics, build_graph, add_edges, add_edge,
  touch, fill_pl_cache, initial_queue, prioritise, pop, relax, relax_one, drain, stuck_ids,
  classify,
}
use rezzy.Sorting.Kahn.Invariant.{IsKeyed}
use rezzy.Sorting.Kahn.Order.{IsOrdered}
use rezzy.Sorting.Kahn.Spec.{SameIds, IsSort}
use rezzy.Sorting.Kahn.Acyclic.{IsRanked, with_cycle_diagnostics-acyclic}
use rezzy.Sorting.Order.{cmp_trans}
use rezzy.Sorting.Fallback.{sort, sort_stuck, insert_stuck, compare_stuck}
use rezzy.Sorting.Fallback.Total.{Extends, sort-Extends}
use rezzy.Sorting.Fallback.Determinism.{sort-same}
use rezzy.Sorting.Greedy.{IsGreedy}
use rezzy.Sorting.Greedy.Determinism.{
  sorted_part, stuck_part, with_cycle_diagnostics-IsGreedy, with_cycle_diagnostics-same,
}

pub entries-hold {κ} :
    (P : String → LeanEvent → Type κ) (events : Events)
    → All (λ entry. P entry.0 entry.1) events
    → (k : String) (e : LeanEvent) → lookup k events ≡ some e
    → P k e
unfolding lookup
entries-hold P [] all k e h = absurd (ground arith)
entries-hold P ((id, ev) ∷ rest) all k e h = go (entries-hold P rest all.1 k e) (id == k) refl
  where
    go : (lookup k rest ≡ some e → P k e) → (b : Bool) → (id == k) ≡ b → P k e
    go later true t =
        let here : ev ≡ e = ground arith in
        subst (λ n. P n e) ((eq_iff id k).0 t) (subst (P id) here all.0)
    go later false t = later (ground arith)

abbrev cites : String → List String → LeanEvent
cites id auths = record empty_event { event_id = id; auth_events = auths }

abbrev chain : Events
chain =
    ("$power", cites "$power" ("$create" ∷ []))
    ∷ ("$create", cites "$create" [])
    ∷ ("$ban", cites "$ban" ("$power" ∷ "$create" ∷ "$elsewhere" ∷ []))
    ∷ []

abbrev shuffled : Events
shuffled =
    ("$create", cites "$create" [])
    ∷ ("$ban", cites "$ban" ("$power" ∷ "$create" ∷ "$elsewhere" ∷ []))
    ∷ ("$power", cites "$power" ("$create" ∷ []))
    ∷ []

abbrev cyclic : Events
cyclic =
    ("$create", cites "$create" [])
    ∷ ("$a", cites "$a" ("$b" ∷ "$create" ∷ []))
    ∷ ("$b", cites "$b" ("$a" ∷ []))
    ∷ []

chain-IsKeyed : IsKeyed chain
chain-IsKeyed = entries-hold (λ k e. e.event_id ≡ k) chain (refl, (refl, (refl, tt)))

cyclic-IsKeyed : IsKeyed cyclic
cyclic-IsKeyed = entries-hold (λ k e. e.event_id ≡ k) cyclic (refl, (refl, (refl, tt)))

chain-Distinct : Distinct chain
unfolding lookup
chain-Distinct = (refl, (refl, (refl, tt)))

shuffled-Distinct : Distinct shuffled
unfolding lookup
shuffled-Distinct = (refl, (refl, (refl, tt)))

cyclic-Distinct : Distinct cyclic
unfolding lookup
cyclic-Distinct = (refl, (refl, (refl, tt)))

same_entries : (k : String) → lookup k chain ≡ lookup k shuffled
unfolding lookup
same_entries k = go ("$power" == k) refl ("$create" == k) refl ("$ban" == k) refl
  where
    apart : (s t : String) → (s == t) ≡ false → (s == k) ≡ true → (t == k) ≡ true → ⊥
    apart s t d p q = ground (arith, eq_iff s k, eq_iff t k, eq_iff s t)

    go :
        (p : Bool)
        → ("$power" == k) ≡ p
        → (c : Bool) → ("$create" == k) ≡ c
        → (b : Bool) → ("$ban" == k) ≡ b
        → (if p
            then some (cites "$power" ("$create" ∷ []))
            else if c
            then some (cites "$create" [])
            else if b
            then some (cites "$ban" ("$power" ∷ "$create" ∷ "$elsewhere" ∷ []))
            else none)
          ≡ (if c
              then some (cites "$create" [])
              else if b
              then some (cites "$ban" ("$power" ∷ "$create" ∷ "$elsewhere" ∷ []))
              else if p
              then some (cites "$power" ("$create" ∷ []))
              else none)
    go true h true i b j = absurd (apart "$power" "$create" refl h i)
    go true h false i true j = absurd (apart "$power" "$ban" refl h j)
    go true h false i false j = refl
    go false h true i b j = refl
    go false h false i b j = refl

abbrev chain_rank : String → ℕ
chain_rank k = if k == "$create" then 0 else if k == "$power" then 1 else 2

abbrev all_below : List String → ℕ → Bool
all_below [] n = true
all_below (a ∷ rest) n =
    if is_some (lookup a chain)
    then (if ltb (chain_rank a) n then all_below rest n else false)
    else all_below rest n

all_below-rank :
    (cites : List String) (n : ℕ) (a : String)
    → all_below cites n ≡ true
    → has chain a ≡ true
    → contains cites a ≡ true
    → chain_rank a < n
all_below-rank [] n a h here cited = ground arith
all_below-rank (c ∷ rest) n a h here cited = ground (arith, eq_iff c a, all_below-rank rest n a)

chain-IsRanked : IsRanked chain v2 chain_rank
unfolding lookup dag_edges is_v2_2
chain-IsRanked k a e listed here cited =
    all_below-rank (dag_edges e v2) (chain_rank k) a
      (entries-hold (λ k e. all_below (dag_edges e v2) (chain_rank k) ≡ true) chain
        (refl, (refl, (refl, tt))) k e listed)
      here cited

with_cycle_diagnostics-acyclic_example :
    (sorted : List String) × (with_cycle_diagnostics chain (provider_of chain) none v2
      ≡ some (sorted_all sorted))
    × SameIds sorted (keys chain)
    × IsOrdered chain v2 [] sorted
with_cycle_diagnostics-acyclic_example =
    with_cycle_diagnostics-acyclic chain (provider_of chain) none v2 chain_rank chain-IsKeyed
      chain-Distinct chain-IsRanked

with_cycle_diagnostics-IsGreedy_example :
    (r : KahnSortResult) × (with_cycle_diagnostics cyclic (provider_of cyclic) none v2 ≡ some r)
    × IsSort cyclic v2 r
    × IsGreedy (provider_of cyclic) none v2 (λ k. lookup k cyclic) [] (sorted_part r)
with_cycle_diagnostics-IsGreedy_example =
    with_cycle_diagnostics-IsGreedy (provider_of cyclic) none v2 cyclic cyclic-IsKeyed
      cyclic-Distinct

with_cycle_diagnostics-same_example :
    (r : KahnSortResult) × (r' : KahnSortResult) × (with_cycle_diagnostics chain
        (provider_of chain)
        none
        v2
      ≡ some r)
    × (with_cycle_diagnostics shuffled (provider_of chain) none v2 ≡ some r')
    × (sorted_part r ≡ sorted_part r')
    × SameIds (stuck_part r) (stuck_part r')
with_cycle_diagnostics-same_example =
    with_cycle_diagnostics-same (provider_of chain) none v2 chain shuffled chain-IsKeyed
      chain-Distinct shuffled-Distinct same_entries

sort-Extends_example :
    (r : KahnSortResult) × (result : List String) × (with_cycle_diagnostics cyclic
        (provider_of cyclic)
        none
        v2
      ≡ some r)
    × (sort cyclic (provider_of cyclic) none v2 ≡ some result)
    × SameIds result (keys cyclic)
    × Extends cyclic r result
sort-Extends_example =
    sort-Extends cyclic (provider_of cyclic) none v2 cyclic-IsKeyed cyclic-Distinct

sort-same_example :
    (result : List String) × (sort chain (provider_of chain) none v2 ≡ some result)
    × (sort shuffled (provider_of chain) none v2 ≡ some result)
sort-same_example =
    sort-same (provider_of chain) none v2 chain shuffled chain-IsKeyed chain-Distinct
      shuffled-Distinct same_entries

-- A test of `sort` on a cycle.
cyclic_sorted : sort cyclic (provider_of cyclic) none v2 ≡ some ("$create" ∷ "$a" ∷ "$b" ∷ [])
unfolding sort dag_edges sort_stuck insert_stuck compare_stuck with_cycle_diagnostics build_graph
    add_edges add_edge touch fill_pl_cache get_power_level_from_auth_chain find_pl_event
    has_infinite_creators is_creator_of level_from_pl_event initial_queue prioritise pop relax
    relax_one drain stuck_ids classify cmp cmp_v1 cmp_v2 version_rank lookup put is_v2_2
cyclic_sorted = refl

-- A member's event, a moderator's and an older one.
abbrev rated : ℕ → ℕ → SortPriority
rated level ts = record {
  event = record empty_event { origin_server_ts = ts };
  power_level = pos level;
  version = v2;
}

low : cmp (rated 0 5) (rated 50 7) ≡ Ordering.lt
unfolding cmp cmp_v2 version_rank
low = refl

high : cmp (rated 50 7) (rated 50 3) ≡ Ordering.lt
unfolding cmp cmp_v2 version_rank
high = refl

cmp_trans_example : cmp (rated 0 5) (rated 50 3) ≡ Ordering.lt
cmp_trans_example = cmp_trans (rated 0 5) (rated 50 7) (rated 50 3) low high
