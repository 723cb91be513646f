-- ===== src/Prelude/Queue.antt =====
-- A loop over a queue, `while let Some(x) = queue.pop_front()`: a round may push behind the rest, or
-- break. It ends where each round pays, by a measure of the state, for what it pushes.
use Prim.Native.Nat.{ℕ, zero, suc, ◌+◌, ◌≤◌, ◌<◌}
use Prim.Native.String.{String}
use mathlib.Core.Path.{◌≡◌, refl, ap, subst}
use mathlib.Core.Logic.{inl, inr}
use mathlib.Core.Bool.{true, false, ◌||◌}
use mathlib.Core.Option.{Option, none, some}
use mathlib.Core.List.{List, [], ◌∷◌, ◌++◌}
use native.Mathlib.Omega.{arith}
use text.Mathlib.Text.{◌==◌}
use text.Mathlib.TextEquality.{eq_iff}
use rezzy.Prelude.Tests.{Bool-cases, if◌then◌else◌}
use rezzy.Prelude.Lists.{length, length-append, contains, All, All-append}

-- What a round comes to.
pub data Round {ℓ} (S A : Type ℓ) : Type ℓ where
  push : List A → S → Round S A
  break : S → Round S A

module _ {ℓ} {S A : Type ℓ} (round : A → S → Round S A) where
  -- `none` is fuel that ran out.
  unfoldable pub run_queue : ℕ → List A → S → Option S
  run_queue zero queue s = none
  run_queue (suc fuel) [] s = some s
  run_queue (suc fuel) (x ∷ queue) s = elim (round x s) [
    | push xs s' ↦ run_queue fuel (queue ++ xs) s'
    | break s' ↦ some s'
  ]

  -- What a round keeps, before this queue: an invariant of the queue and the state, and the measure
  -- of the state with what it pushed.
  abbrev pub KeepsQueue {κ} : (List A → S → Type κ) → (S → ℕ) → List A → S → Round S A → Type κ
  KeepsQueue P measure queue s (push xs s') =
      P (queue ++ xs) s' × (measure s' + length xs ≤ measure s)
  KeepsQueue P measure queue s (break s') = P [] s'

  pub run_queue-KeepsQueue {κ} :
      (P : List A → S → Type κ) (measure : S → ℕ)
      → ((x : A) (queue : List A) (s : S)
          → P (x ∷ queue) s
          → KeepsQueue P measure queue s (round x s))
      → (fuel : ℕ) (queue : List A) (s : S) → measure s + length queue < fuel
      → P queue s
      → (s' : S) × (run_queue fuel queue s ≡ some s') × P [] s'
  unfolding run_queue
  run_queue-KeepsQueue P measure keeps zero queue s h p = absurd (omega arith)
  run_queue-KeepsQueue P measure keeps (suc fuel) [] s h p = (s, refl, p)
  run_queue-KeepsQueue P measure keeps (suc fuel) (x ∷ queue) s h p =
      go (run_queue-KeepsQueue P measure keeps fuel) (round x s) (keeps x queue s p)
    where
      go :
          ((queue' : List A) (s' : S)
            → measure s' + length queue' < fuel
            → P queue' s'
            → (t : S) × (run_queue fuel queue' s' ≡ some t) × P [] t)
          → (r : Round S A) → KeepsQueue P measure queue s r
          → (t : S) × ((elim r [
            | push xs s' ↦ run_queue fuel (queue ++ xs) s'
            | break s' ↦ some s'
          ])
              ≡ some t)
            × P [] t
      go later (push xs s') (q, paid) =
          later (queue ++ xs) s' (omega (arith, length-append queue xs)) q
      go later (break s') q = (s', refl, q)

  -- The same for an invariant of the state alone.
  abbrev pub Keeps {κ} : (S → Type κ) → (S → ℕ) → S → Round S A → Type κ
  Keeps P measure s (push xs s') = P s' × (measure s' + length xs ≤ measure s)
  Keeps P measure s (break s') = P s'

  pub run_queue-returns {κ} :
      (P : S → Type κ) (measure : S → ℕ)
      → ((x : A) (s : S) → P s → Keeps P measure s (round x s))
      → (fuel : ℕ) (queue : List A) (s : S) → measure s + length queue < fuel
      → P s
      → (s' : S) × (run_queue fuel queue s ≡ some s') × P s'
  run_queue-returns P measure keeps =
      run_queue-KeepsQueue (λ queue s. P s) measure
        (λ x queue s p. go queue s (round x s) (keeps x s p))
    where
      go :
          (queue : List A) (s : S) (r : Round S A)
          → Keeps P measure s r
          → KeepsQueue (λ queue s. P s) measure queue s r
      go queue s (push xs s') k = k
      go queue s (break s') k = k

  -- What a round keeps, for what was queued: a predicate of the elements, and one of the state.
  abbrev pub KeepsEach {κ} : (A → Type κ) → (S → Type κ) → Round S A → Type κ
  KeepsEach I P (push xs s') = All I xs × P s'
  KeepsEach I P (break s') = P s'

  pub run_queue-KeepsEach {κ} :
      (I : A → Type κ) (P : S → Type κ)
      → ((x : A) (s : S) → I x → P s → KeepsEach I P (round x s))
      → (fuel : ℕ) (queue : List A) (s t : S) → All I queue
      → P s
      → run_queue fuel queue s ≡ some t
      → P t
  unfolding run_queue
  run_queue-KeepsEach I P keeps zero queue s t each p h = absurd (ground (arith, h))
  run_queue-KeepsEach I P keeps (suc fuel) [] s t each p h = subst P (ground (arith, h)) p
  run_queue-KeepsEach I P keeps (suc fuel) (x ∷ queue) s t each p h =
      go (run_queue-KeepsEach I P keeps fuel) (round x s) (keeps x s each.0 p) h
    where
      go :
          ((queue' : List A) (s' t : S)
            → All I queue'
            → P s'
            → run_queue fuel queue' s' ≡ some t
            → P t)
          → (r : Round S A) → KeepsEach I P r
          → (elim r [ push xs s' ↦ run_queue fuel (queue ++ xs) s' | break s' ↦ some s' ]) ≡ some t
          → P t
      go later (push xs s') q h = later (queue ++ xs) s' t (All-append I queue xs each.1 q.0) q.1 h
      go later (break s') q h = subst P (ground (arith, h)) q

-- What the texts that were not visited may still push.
abbrev pub unpaid : (String → ℕ) → List String → List String → ℕ
unpaid cost visited [] = 0
unpaid cost visited (u ∷ us) =
    if contains visited u then unpaid cost visited us else cost u + unpaid cost visited us

module _ (cost : String → ℕ) (x : String) (visited visited' : List String)
    (visits : (k : String) → contains visited' k ≡ (x == k || contains visited k)) where
  pub unpaid-le : (us : List String) → unpaid cost visited' us ≤ unpaid cost visited us
  unpaid-le [] = omega arith
  unpaid-le (u ∷ us) = ground (arith, visits u, unpaid-le us)

  pub unpaid-visit :
      (us : List String)
      → contains us x ≡ true
      → contains visited x ≡ false
      → unpaid cost visited' us + cost x ≤ unpaid cost visited us
  unpaid-visit [] h fresh = ground arith
  unpaid-visit (u ∷ us) h fresh = elim (Bool-cases (u == x)) [
    | inl here ↦
        let same = (eq_iff u x).0 here in
        ground (arith, here, same, eq_iff x u, visits u, fresh, unpaid-le us, ap cost same)
    | inr apart ↦ ground (arith, apart, h, eq_iff x u, eq_iff u x, visits u, unpaid-visit us)
  ]

pub unpaid-size : (visited us : List String) → unpaid (λ k. 1) visited us ≤ length us
unpaid-size visited [] = omega arith
unpaid-size visited (u ∷ us) = ground (arith, unpaid-size visited us)
