-- ===== src/Sorting/Mainline/Members.antt =====
-- The sorted events are those that were to be sorted (src/resolve/sorting.rs, `mainline_sort`).
use rezzy.Prelude.{
  ℕ, ◌≡◌, String, Option, none, some, List, [], ◌∷◌, arith, length, All, sort_by, sort_by-All,
  subst,
}
use rezzy.Basespec.Version.{StateResVersion}
use rezzy.Basespec.Event.{LeanEvent, EventProvider}
use rezzy.Sorting.Mainline.{
  Memo, Decorated, compute_closest_mainline_positions, decorate, cmp_mainline, undecorate,
  mainline_sort,
}

module _ (P : LeanEvent → Type 0) where
  decorate-All :
      (len : ℕ) (memo : Memo) (events : List LeanEvent)
      → All P events
      → All (λ d. P d.0) (decorate len memo events)
  unfolding decorate
  decorate-All len memo [] ps = tt
  decorate-All len memo (ev ∷ events) ps = (ps.0, decorate-All len memo events ps.1)

  undecorate-All : (ds : List Decorated) → All (λ d. P d.0) ds → All P (undecorate ds)
  undecorate-All [] ps = tt
  undecorate-All ((ev, pos) ∷ ds) ps = (ps.0, undecorate-All ds ps.1)

  pub mainline_sort-All :
      (fuel : ℕ) (events : List LeanEvent) (mainline : List String) (context : EventProvider)
      (version : StateResVersion) (result : List LeanEvent)
      → All P events
      → mainline_sort fuel events mainline context version ≡ some result
      → All P result
  unfolding mainline_sort
  mainline_sort-All fuel events mainline context version result ps =
      go (compute_closest_mainline_positions fuel events mainline context version)
    where
      go :
          (o : Option Memo)
          → (elim o [
            | none ↦ none
            | some dist ↦
                some (undecorate (sort_by cmp_mainline (decorate (length mainline) dist events)))
          ])
            ≡ some result
          → All P result
      go none h = absurd (ground (arith, h))
      go (some dist) h = subst (All P) (ground (arith, h)) (
          undecorate-All _ (
            sort_by-All cmp_mainline (λ d. P d.0) _
              (decorate-All (length mainline) dist events ps)))
