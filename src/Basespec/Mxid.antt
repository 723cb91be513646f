-- ===== src/Basespec/Mxid.antt =====
-- Matrix identifiers (src/basespec/rezzy_types.rs) and `str::parse::<u32>`, over the code points
-- of a text.
use Prim.Native.Char.{code}
use rezzy.Prelude.{
  ℕ, ◌+◌, ◌-◌, ◌*◌, ◌^◌, String, Bool, true, false, ◌&&◌, ◌||◌, not, Option, none, some, List, [],
  ◌∷◌, leb, ltb, eqb, if◌then◌else◌, is_empty, unwrap_or, and_then,
}

pub codes : String → List ℕ
codes String.[] = []
codes (String.◌∷◌ c s) = code c ∷ codes s

-- `s.strip_prefix(c)`
strip_prefix : ℕ → List ℕ → Option (List ℕ)
strip_prefix c [] = none
strip_prefix c (x ∷ xs) = if eqb x c then some xs else none

-- `s.split_once(c)`: the parts before and after the first `c`.
split_once : ℕ → List ℕ → Option (List ℕ × List ℕ)
split_once c [] = none
split_once c (x ∷ xs) =
    if eqb x c
    then some ([], xs)
    else and_then (split_once c xs) (λ (before, after). some (x ∷ before, after))

all : (ℕ → Bool) → List ℕ → Bool
all p [] = true
all p (x ∷ xs) = p x && all p xs

is_localpart_byte : ℕ → Bool
is_localpart_byte b =
    (leb b'a' b && leb b b'z')
    || (leb b'0' b && leb b b'9')
    || eqb b b'.'
    || eqb b b'_'
    || eqb b b'='
    || eqb b b'-'
    || eqb b b'/'
    || eqb b b'+'

-- `is_valid_mxid`; a byte above 127 fails the test, as every code point above 127 does.
unfoldable pub is_valid_mxid : String → Bool
unfolding codes strip_prefix split_once all is_localpart_byte
is_valid_mxid id = elim (and_then (strip_prefix b'@' (codes id)) (split_once b':')) [
  | none ↦ false
  | some (localpart, domain) ↦
      not (is_empty localpart) && not (is_empty domain) && all is_localpart_byte localpart
]

-- `extract_domain`
unfoldable pub extract_domain : List ℕ → Option (List ℕ)
unfolding split_once
extract_domain id = and_then (split_once b':' id) (λ (before, domain). some domain)

to_ascii_lowercase : ℕ → ℕ
to_ascii_lowercase c = if leb b'A' c && leb c b'Z' then c + 32 else c

-- `a.eq_ignore_ascii_case(b)`
unfoldable pub eq_ignore_ascii_case : List ℕ → List ℕ → Bool
unfolding to_ascii_lowercase
eq_ignore_ascii_case [] [] = true
eq_ignore_ascii_case (x ∷ xs) (y ∷ ys) =
    eqb (to_ascii_lowercase x) (to_ascii_lowercase y) && eq_ignore_ascii_case xs ys
eq_ignore_ascii_case _ _ = false

-- The domain that `domain_matches` compares: the whole text where there is no colon.
unfoldable pub domain_of : String → List ℕ
unfolding codes extract_domain
domain_of id = unwrap_or (extract_domain (codes id)) (codes id)

unfoldable pub domain_matches : String → String → Bool
unfolding domain_of eq_ignore_ascii_case
domain_matches id1 id2 =
    not (is_empty (domain_of id1))
    && not (is_empty (domain_of id2))
    && eq_ignore_ascii_case (domain_of id1) (domain_of id2)

-- `s.starts_with('@')`
unfoldable pub starts_with_at : String → Bool
unfolding codes
starts_with_at s = elim (codes s) [ [] ↦ false | c ∷ rest ↦ eqb c b'@' ]

-- `s.contains(':')`
unfoldable pub contains_colon : List ℕ → Bool
contains_colon [] = false
contains_colon (c ∷ rest) = eqb c b':' || contains_colon rest

digits_value : ℕ → List ℕ → Option ℕ
digits_value acc [] = if ltb acc (2 ^ 32) then some acc else none
digits_value acc (c ∷ rest) =
    let go = digits_value (acc * 10 + (c - b'0')) rest in
    if leb b'0' c && leb c b'9' then go else none

-- `str::parse::<u32>`: an optional `+`, then digits, at least one, of a value below 2^32.
unfoldable pub parse_u32 : List ℕ → Option ℕ
unfolding digits_value
parse_u32 [] = none
parse_u32 (c ∷ rest) =
    if eqb c b'+'
    then (if is_empty rest then none else digits_value 0 rest)
    else digits_value 0 (c ∷ rest)

-- `s.split('.').next()`
unfoldable pub before_dot : List ℕ → List ℕ
before_dot [] = []
before_dot (c ∷ rest) = if eqb c b'.' then [] else c ∷ before_dot rest
