-- ===== src/Prelude/Orders.antt =====
-- Comparisons: of numbers, of texts and of pairs.
use Prim.Native.Nat.{ℕ, ◌<◌, compare, Ordering}
use Prim.Native.Char.{code}
use Prim.Native.String as Text
use Prim.Native.String.compare as text_compare
use Prim.Native.String.{String, [], ◌∷◌}
use mathlib.Core.Path.{◌≡◌, refl}
use mathlib.Core.Logic.{◌⊎◌, inl, inr}
use mathlib.Core.Bool.{false}
use text.Mathlib.Text.{is_lt}
use native.Mathlib.Omega.{arith}

abbrev pub flip : Ordering → Ordering
flip Ordering.lt = Ordering.gt
flip Ordering.eq = Ordering.eq
flip Ordering.gt = Ordering.lt

-- `match a { Equal => b, ord => ord }`
abbrev pub or_else : Ordering → Ordering → Ordering
or_else Ordering.lt b = Ordering.lt
or_else Ordering.eq b = b
or_else Ordering.gt b = Ordering.gt

pub flip-or_else : (a b : Ordering) → flip (or_else a b) ≡ or_else (flip a) (flip b)
flip-or_else Ordering.lt b = refl
flip-or_else Ordering.eq b = refl
flip-or_else Ordering.gt b = refl

pub compare-flip : (m n : ℕ) → compare n m ≡ flip (compare m n)
compare-flip m n = ground arith

-- The lexicographic product of two comparisons on a chain of three.
pub or_else_trans :
    (a b c a' b' c' : Ordering)
    → (a ≡ Ordering.lt → b ≡ Ordering.lt → c ≡ Ordering.lt)
    → (a ≡ Ordering.lt → b ≡ Ordering.eq → c ≡ Ordering.lt)
    → (a ≡ Ordering.eq → b ≡ c)
    → (a ≡ Ordering.eq → b ≡ Ordering.eq → a' ≡ Ordering.lt → b' ≡ Ordering.lt → c' ≡ Ordering.lt)
    → or_else a a' ≡ Ordering.lt
    → or_else b b' ≡ Ordering.lt
    → or_else c c' ≡ Ordering.lt
or_else_trans a b c a' b' c' ll le el second h k = ground arith

pub compare-or_else_trans :
    (m n o : ℕ) (a b c : Ordering)
    → (m ≡ n → n ≡ o → a ≡ Ordering.lt → b ≡ Ordering.lt → c ≡ Ordering.lt)
    → or_else (compare m n) a ≡ Ordering.lt
    → or_else (compare n o) b ≡ Ordering.lt
    → or_else (compare m o) c ≡ Ordering.lt
compare-or_else_trans m n o a b c second h k =
    or_else_trans (compare m n) (compare n o) (compare m o) a b c (λ p q. ground arith)
      (λ p q. ground arith) (λ p. ground arith) (λ p q. second (ground arith) (ground arith)) h k

pub or_else_eq :
    (a b : Ordering) → or_else a b ≡ Ordering.eq → (a ≡ Ordering.eq) × (b ≡ Ordering.eq)
or_else_eq a b h = ground arith

pub compare-eq : (m n : ℕ) → compare m n ≡ Ordering.eq → m ≡ n
compare-eq m n h = ground arith

pub text-flip : (s t : String) → Text.compare t s ≡ flip (Text.compare s t)
text-flip [] [] = refl
text-flip [] (d ∷ t) = ground (arith, text_compare.nil-cons d t, text_compare.cons-nil d t)
text-flip (c ∷ s) [] = ground (arith, text_compare.nil-cons c s, text_compare.cons-nil c s)
text-flip (c ∷ s) (d ∷ t) = ground (
  arith,
  text_compare.cons-cons c d s t,
  text_compare.cons-cons d c t s,
  compare-flip (code c) (code d),
  text-flip s t,
)

pub text_trans :
    (s t u : String)
    → Text.compare s t ≡ Ordering.lt
    → Text.compare t u ≡ Ordering.lt
    → Text.compare s u ≡ Ordering.lt
text_trans [] [] u h k = k
text_trans [] (d ∷ t) [] h k = ground (arith, text_compare.cons-nil d t)
text_trans [] (d ∷ t) (e ∷ u) h k = text_compare.nil-cons e u
text_trans (c ∷ s) [] u h k = ground (arith, text_compare.cons-nil c s)
text_trans (c ∷ s) (d ∷ t) [] h k = ground (arith, text_compare.cons-nil d t)
text_trans (c ∷ s) (d ∷ t) (e ∷ u) h k = ground (
  arith,
  text_compare.cons-cons c d s t,
  text_compare.cons-cons d e t u,
  text_compare.cons-cons c e s u,
  text_trans s t u,
)

-- By the number, and then by the text.
abbrev pub IsUpTo : ℕ → ℕ → String → String → Type 0
IsUpTo m n s t = (m < n) ⊎ ((m ≡ n) × (is_lt (Text.compare t s) ≡ false))

pub compare-IsUpTo :
    (m n : ℕ) (s t : String)
    → is_lt (or_else (compare n m) (Text.compare t s)) ≡ false
    → IsUpTo m n s t
compare-IsUpTo m n s t = go (compare n m) refl
  where
    go :
        (o : Ordering)
        → compare n m ≡ o
        → is_lt (or_else o (Text.compare t s)) ≡ false
        → IsUpTo m n s t
    go Ordering.lt e h = absurd (ground (arith, h))
    go Ordering.eq e h = inr (ground (arith, e), h)
    go Ordering.gt e h = inl (ground (arith, e))
