-- ===== src/Auth/Cited/Required.antt =====
-- The loop over the state keys that an event has to cite (src/auth/mod.rs, rule 2.2).
use rezzy.Prelude.{
  ◌≡◌, String, Bool, true, false, not, ◌&&◌, Option, none, some, List, [], ◌∷◌, arith, ◌==◌, eq_iff,
  if◌then◌else◌, opt_is, opt_is_iff, ok, ◌>>◌, reject_if, >>-ok, Bool-cases, inl, inr, &&-both,
  reject_if-ok, subst, ◌∙◌,
}
use mathlib.Core.Path.{ap₂}
use rezzy.Basespec.Event.{LeanEvent, StateProvider}
use rezzy.Auth.Error.{incomplete_auth_events}
use rezzy.Auth.Citations.{StateKey, Seen, cited, check_required}
use rezzy.Auth.Cited.Loop.{not-false}

abbrev pub has_key : List StateKey → String → String → Bool
has_key [] t k = false
has_key ((t', k') ∷ keys) t k = if t' == t && k' == k then true else has_key keys t k

-- One round of the check of the required keys.
required_round :
    (state : StateProvider) (seen : Seen) (keys : List StateKey) (t k : String)
    → check_required state seen ((t, k) ∷ keys) ≡ ok tt
    → check_required state seen keys ≡ ok tt
unfolding check_required
required_round state seen keys t k h = go (state t k) h
  where
    go :
        (o : Option LeanEvent)
        → (elim o [
          | none ↦ check_required state seen keys
          | some own ↦
              reject_if (not (opt_is (cited seen t k) own.event_id)) (incomplete_auth_events t k)
              >> check_required state seen keys
        ])
          ≡ ok tt
        → check_required state seen keys ≡ ok tt
    go none h = h
    go (some own) h = (>>-ok (reject_if (not (opt_is (cited seen t k) own.event_id)) _) _ h).1

required_first :
    (state : StateProvider) (seen : Seen) (keys : List StateKey) (t k : String) (e : LeanEvent)
    → check_required state seen ((t, k) ∷ keys) ≡ ok tt
    → state t k ≡ some e
    → cited seen t k ≡ some e.event_id
unfolding check_required
required_first state seen keys t k e h here =
    let passed : (reject_if (not (opt_is (cited seen t k) e.event_id)) (incomplete_auth_events t k)
          >> check_required state seen keys)
        ≡ ok tt =
      subst
        (λ o.
          elim o [
            | none ↦ check_required state seen keys
            | some own ↦
                reject_if (not (opt_is (cited seen t k) own.event_id)) (incomplete_auth_events t k)
                >> check_required state seen keys
          ]
          ≡ ok tt)
        here h in
    let (right, _) = >>-ok (reject_if (not (opt_is (cited seen t k) e.event_id)) _) _ passed in
    (opt_is_iff (cited seen t k) e.event_id).0 (
      not-false (opt_is (cited seen t k) e.event_id)
        (reject_if-ok (not (opt_is (cited seen t k) e.event_id)) _ right))

pub required_cited :
    (state : StateProvider) (seen : Seen) (keys : List StateKey) (t k : String) (e : LeanEvent)
    → check_required state seen keys ≡ ok tt
    → has_key keys t k ≡ true
    → state t k ≡ some e
    → cited seen t k ≡ some e.event_id
required_cited state seen [] t k e h inside here = ground arith
required_cited state seen ((t', k') ∷ keys) t k e h inside here =
    elim (Bool-cases (t' == t && k' == k)) [
      | inl same ↦
          let (p, q) = &&-both (t' == t) (k' == k) same in
          subst (λ x. cited seen x k ≡ some e.event_id) ((eq_iff t' t).0 p)
            (subst (λ x. cited seen t' x ≡ some e.event_id) ((eq_iff k' k).0 q)
              (required_first state seen keys t' k' e h
                (ap₂ state ((eq_iff t' t).0 p) ((eq_iff k' k).0 q) ∙ here)))
      | inr apart ↦
          required_cited state seen keys t k e (required_round state seen keys t' k' h)
            (ground (arith, inside, apart)) here
    ]
