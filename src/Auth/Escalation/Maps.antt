-- ===== src/Auth/Escalation/Maps.antt =====
-- What the checks of the settings and of the level maps establish, entry by entry
-- (src/auth/mod.rs).
use rezzy.Prelude.{
  ◌≡◌, ◌≢◌, ◌⊎◌, inl, inr, refl, sym, String, Bool, Option, none, some, true, false, List, [], ◌∷◌,
  arith, ok, ◌==◌, eq_iff, ℤ, ltb_ℤ, leb_ℤ, ◌≤ℤ◌, ◌<ℤ◌, lookup, eqb_ℤ→eq, Option-cases,
  leb_ℤ_false→lt, ltb_ℤ_false→le, ◌∙◌,
}
use rezzy.Auth.PowerLevels.{
  opt_eq, collect_levels, check_scalar_pl, check_removed, check_added, check_level_map, check_users,
}

opt_eq→eq : (a b : Option ℤ) → opt_eq a b ≡ true → a ≡ b
opt_eq→eq none none h = ground arith
opt_eq→eq none (some b) h = ground arith
opt_eq→eq (some a) none h = ground arith
opt_eq→eq (some a) (some b) h = ground (arith, eqb_ℤ→eq a b)

-- Each value that a changed setting has or had is at most the bound.
abbrev pub AtMost : Option ℤ → ℤ → Type 0
AtMost none bound = Unit
AtMost (some v) bound = v ≤ℤ bound

abbrev pub KeepsOrBounds : Option ℤ → Option ℤ → ℤ → Type 0
KeepsOrBounds old new bound = (old ≡ new) ⊎ AtMost old bound × AtMost new bound

pub scalar_pl-KeepsOrBounds :
    (field : String) (old new : Option ℤ) (bound : ℤ)
    → check_scalar_pl field old new bound ≡ ok tt
    → KeepsOrBounds old new bound
unfolding check_scalar_pl
scalar_pl-KeepsOrBounds field none none bound h = inl (ground arith)
scalar_pl-KeepsOrBounds field none (some b) bound h = inr (tt, ground arith)
scalar_pl-KeepsOrBounds field (some a) none bound h = inr (ground arith, tt)
scalar_pl-KeepsOrBounds field (some a) (some b) bound h = ground (arith, eqb_ℤ→eq a b)

-- A new entry that the old map does not have is at most the bound.
check_added-le :
    (field : String) (bound : ℤ) (old new : List (String × ℤ)) (k : String) (v : ℤ)
    → check_added field bound old new ≡ ok tt
    → lookup k new ≡ some v
    → lookup k old ≢ some v
    → v ≤ℤ bound
unfolding check_added lookup
check_added-le field bound old [] k v h here changed = ground arith
check_added-le field bound old ((j, w) ∷ rest) k v h here changed =
    ground (
      arith,
      eq_iff j k,
      opt_eq→eq (lookup j old) (some w),
      check_added-le field bound old rest k v,
    )

-- An old entry that the new map does not have passes the test, unless its key is exempt.
check_removed-low :
    (field : String) (exempt : String → Bool) (too_high : ℤ → Bool) (bound : ℤ)
    (new old : List (String × ℤ)) (k : String) (v : ℤ)
    → check_removed field exempt too_high bound new old ≡ ok tt
    → exempt k ≡ false
    → lookup k old ≡ some v
    → lookup k new ≢ some v
    → too_high v ≡ false
unfolding check_removed lookup
check_removed-low field exempt too_high bound new [] k v h other here changed = ground arith
check_removed-low field exempt too_high bound new ((j, w) ∷ rest) k v h other here changed =
    ground (
      arith,
      eq_iff j k,
      opt_eq→eq (lookup j new) (some w),
      check_removed-low field exempt too_high bound new rest k v,
    )

-- A level map keeps or bounds each of its entries.
abbrev pub levels : List (String × ℤ) → String → Option ℤ
levels visited k = lookup k (collect_levels [] visited)

pub level_map-KeepsOrBounds :
    (field : String) (old new : List (String × ℤ)) (bound : ℤ) (k : String)
    → check_level_map field old new bound ≡ ok tt
    → KeepsOrBounds (levels old k) (levels new k) bound
unfolding check_level_map
level_map-KeepsOrBounds field old new bound k h = cases (levels old k) (levels new k) refl refl
  where
    removed :
        check_removed field
          (λ key. false)
          (ltb_ℤ bound)
          bound
          (collect_levels [] new)
          (collect_levels [] old)
        ≡ ok tt
    removed = ground arith

    added : check_added field bound (collect_levels [] old) (collect_levels [] new) ≡ ok tt
    added = ground arith

    below : (o : Option ℤ) → levels old k ≡ o → levels new k ≢ o → AtMost o bound
    below none e changed = tt
    below (some a) e changed =
        ltb_ℤ_false→le bound a (
          check_removed-low field (λ key. false) (ltb_ℤ bound) bound _ _ k a removed refl e changed)

    above : (n : Option ℤ) → levels new k ≡ n → levels old k ≢ n → AtMost n bound
    above none e changed = tt
    above (some b) e changed = check_added-le field bound _ _ k b added e changed

    cases :
        (o n : Option ℤ)
        → levels old k ≡ o
        → levels new k ≡ n
        → KeepsOrBounds (levels old k) (levels new k) bound
    cases o n e f = elim (Option-cases o n) [
      | inl same ↦ inl (e ∙ same ∙ sym f)
      | inr other ↦
          inr (rw e (below o e (λ x. other (sym x ∙ f))), rw f (above n f (λ x. other (sym e ∙ x))))
    ]

pub check_users-low :
    (sender : String) (old new : List (String × ℤ)) (bound : ℤ) (u : String) (w : ℤ)
    → check_users sender old new bound ≡ ok tt
    → u ≢ sender
    → levels old u ≡ some w
    → levels new u ≢ some w
    → w <ℤ bound
unfolding check_users
check_users-low sender old new bound u w h other here changed = leb_ℤ_false→lt bound w (
    check_removed-low "users" (λ key. key == sender) (leb_ℤ bound) bound _ _ u w (ground arith)
      (ground (arith, eq_iff u sender)) here changed)

pub check_users-le :
    (sender : String) (old new : List (String × ℤ)) (bound : ℤ) (u : String) (v : ℤ)
    → check_users sender old new bound ≡ ok tt
    → levels new u ≡ some v
    → levels old u ≢ some v
    → v ≤ℤ bound
unfolding check_users
check_users-le sender old new bound u v h here changed =
    check_added-le "users" bound _ _ u v (ground arith) here changed
