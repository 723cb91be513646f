-- ===== src/Sorting/Mainline/Closest.antt =====
-- The position of an event is that of the first mainline event on the way along the first cited
-- power-levels events (src/resolve/sorting.rs, `compute_closest_mainline_positions`).
pub mod Visit
use rezzy.Prelude.{
  ℕ, zero, suc, ◌+◌, ◌-◌, ◌≤◌, ◌<◌, ◌≡◌, refl, sym, ◌∙◌, String, Bool, true, false, Option, none,
  some, List, [], ◌∷◌, arith, ◌==◌, eq_iff, if◌then◌else◌, length, contains, lookup, put,
  lookup-put, Bool-cases, inl, inr,
}
use rezzy.Basespec.Version.{StateResVersion}
use rezzy.Basespec.Event.{EventProvider}
use rezzy.Sorting.Mainline.{Mark, in_progress, at, Memo, number_from, pl_edge}

module _ (context : EventProvider) (version : StateResVersion) (line : String → Option ℕ)
    (len : ℕ) where
  -- The walk of at most so many steps: it ends at a mainline event, or behind the mainline.
  abbrev pub walk : ℕ → String → ℕ
  walk zero id = len
  walk (suc n) id = elim (line id) [
    | some pos ↦ pos
    | none ↦ elim (pl_edge context version id) [ none ↦ len | some parent ↦ walk n parent ]
  ]

  -- Every walk that is long enough ends at this position.
  pub record IsClosest (id : String) (pos : ℕ) : Type 0 where
    pub enough : ℕ
    pub ends : (n : ℕ) → enough ≤ n → walk n id ≡ pos

  -- The first step of a walk.
  walk_first :
      (n : ℕ) (id : String)
      → 0 < n
      → walk n id ≡ (elim (line id) [
        | some pos ↦ pos
        | none ↦ elim (pl_edge context version id) [
          | none ↦ len
          | some parent ↦ walk (n - 1) parent
        ]
      ])
  walk_first zero id h = absurd (omega arith)
  walk_first (suc n) id h = ground arith

  pub IsClosest-line : (id : String) (pos : ℕ) → line id ≡ some pos → IsClosest id pos
  IsClosest-line id pos h = record { enough = 1; ends = λ n le. ground (arith, walk_first n id, h) }

  pub IsClosest-end :
      (id : String) → line id ≡ none → pl_edge context version id ≡ none → IsClosest id len
  IsClosest-end id h k = record { enough = 1; ends = λ n le. ground (arith, walk_first n id, h, k) }

  pub IsClosest-step :
      (id parent : String) (pos : ℕ)
      → line id ≡ none
      → pl_edge context version id ≡ some parent
      → IsClosest parent pos
      → IsClosest id pos
  IsClosest-step id parent pos h k c = record {
    enough = suc c.enough;
    ends = λ n le. ground (arith, walk_first n id, h, k, c.ends (n - 1));
  }

  -- The ids on the stack: each is behind the one that it cites, and none is on the mainline.
  abbrev pub IsPath : String → List String → Type 0
  IsPath top [] = Unit
  IsPath top (next ∷ rest) =
      (pl_edge context version next ≡ some top) × (line next ≡ none) × IsPath next rest

  -- A walk from an id on the stack reaches the top, or runs out of steps behind the mainline.
  path_down :
      (top : String) (rest : List String) (id : String) (n : ℕ)
      → line top ≡ none
      → IsPath top rest
      → contains (top ∷ rest) id ≡ true
      → ((m : ℕ) → m ≤ n → walk m top ≡ len)
      → walk n id ≡ len
  path_down top [] id n off p inside ends = ground (arith, eq_iff top id, ends n)
  path_down top (next ∷ rest) id n off p inside ends = elim (Bool-cases (top == id)) [
    | inl here ↦ ground (arith, eq_iff top id, here, ends n)
    | inr apart ↦
        path_down next rest id n p.1 p.2 (ground (arith, inside, apart))
          (next_walk next p.0 p.1 n ends)
  ]
    where
      next_walk :
          (next : String)
          → pl_edge context version next ≡ some top
          → line next ≡ none
          → (n : ℕ) → ((m : ℕ) → m ≤ n → walk m top ≡ len)
          → (m : ℕ) → m ≤ n
          → walk m next ≡ len
      next_walk next e off n ends zero h = refl
      next_walk next e off n ends (suc m) h = ground (arith, e, off, ends m)

  -- Where the top cites an id on the stack, the walk never ends.
  loop_walk :
      (top : String) (rest : List String) (id : String) (n : ℕ)
      → line top ≡ none
      → IsPath top rest
      → pl_edge context version top ≡ some id
      → contains (top ∷ rest) id ≡ true
      → (m : ℕ) → m ≤ n
      → walk m top ≡ len
  loop_walk top rest id n off p cites inside zero h = refl
  loop_walk top rest id zero off p cites inside (suc m) h = absurd (omega arith)
  loop_walk top rest id (suc n) off p cites inside (suc m) h =
      let below =
        path_down top rest id m off p inside
          (λ m' h'. loop_walk top rest id n off p cites inside m' (omega arith)) in
      ground (arith, off, cites, below)

  pub IsClosest-loop :
      (top : String) (rest : List String) (id : String)
      → line top ≡ none
      → IsPath top rest
      → pl_edge context version top ≡ some id
      → contains (top ∷ rest) id ≡ true
      → IsClosest top len
  IsClosest-loop top rest id off p cites inside = record {
    enough = 0;
    ends = λ n le. loop_walk top rest id n off p cites inside n (omega arith);
  }
