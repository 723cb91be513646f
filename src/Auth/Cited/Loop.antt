-- ===== src/Auth/Cited/Loop.antt =====
-- The loop over the cited events (src/auth/mod.rs, the rules 2.1 and 2.3).
use rezzy.Prelude.{
  ℕ, suc, ◌+◌, ◌≤◌, ◌≡◌, refl, String, Bool, true, false, not, ◌&&◌, Option, none, some, List, [],
  ◌∷◌, arith, ◌==◌, eq_iff, if◌then◌else◌, unwrap_or, is_some, contains, Result, ok, err, ◌>>◌,
  reject_if, >>-ok, Bool-cases, inl, inr, &&-both, reject_if-ok, ap, sym, subst, ◌∙◌,
}
use rezzy.Basespec.Version.{StateResVersion, is_v2_1_plus}
use rezzy.Basespec.Event.{LeanEvent, EventProvider, m_room_create}
use rezzy.Auth.Error.{AuthError, missing_auth_event}
use rezzy.Auth.Citations.{Seen, cited, valid_auth_types, check_citation, collect_citations}

abbrev pub state_key_of : LeanEvent → String
state_key_of e = unwrap_or e.state_key ""

pub not-false : (b : Bool) → not b ≡ false → b ≡ true
not-false true h = refl
not-false false h = ground arith

module _ (event : LeanEvent) (version : StateResVersion) (provider : EventProvider) where
  -- A cited event is known, was not rejected, and is of a type that may be cited.
  pub record IsCitable (id : String) : Type 0 where
    pub source : LeanEvent
    pub known : provider id ≡ some source
    pub kept : source.rejected ≡ false
    pub allowed : contains valid_auth_types source.event_type ≡ true
    pub no_create : is_v2_1_plus version ≡ true → (source.event_type == m_room_create) ≡ false

  -- How many of the cited events are of this type and state key.
  abbrev pub citations_of : String → String → List String → ℕ
  citations_of t k [] = 0
  citations_of t k (id ∷ rest) = elim (provider id) [
    | none ↦ citations_of t k rest
    | some e ↦
        if e.event_type == t && state_key_of e == k
        then suc (citations_of t k rest)
        else citations_of t k rest
  ]

  citation_passed :
      (seen : Seen) (id : String) (e : LeanEvent)
      → check_citation event version seen id e ≡ ok tt
      → (e.rejected ≡ false)
        × (contains valid_auth_types e.event_type ≡ true)
        × ((is_v2_1_plus version && e.event_type == m_room_create) ≡ false)
        × (is_some (cited seen e.event_type (state_key_of e)) ≡ false)
  unfolding check_citation
  citation_passed seen id e h =
      let (one, later) = >>-ok (reject_if e.rejected _) _ h in
      let (two, later') =
        >>-ok (reject_if (is_v2_1_plus version && e.event_type == m_room_create) _) _ later in
      let (three, four) =
        >>-ok (reject_if (not (contains valid_auth_types e.event_type)) _) _ later' in
      (
        reject_if-ok e.rejected _ one,
        not-false (contains valid_auth_types e.event_type)
            (reject_if-ok (not (contains valid_auth_types e.event_type)) _ three),
        reject_if-ok (is_v2_1_plus version && e.event_type == m_room_create) _ two,
        reject_if-ok (is_some (cited seen e.event_type (state_key_of e))) _ four,
      )

  -- One round of the loop.
  round_passed :
      (seen final : Seen) (id : String) (rest : List String)
      → collect_citations event version provider seen (id ∷ rest) ≡ ok final
      → (e : LeanEvent) × (provider id ≡ some e)
        × (check_citation event version seen id e ≡ ok tt)
        × (collect_citations event version provider ((e.event_type, state_key_of e, id) ∷ seen) rest
            ≡ ok final)
  unfolding collect_citations
  round_passed seen final id rest h = go (provider id) refl
    where
      go :
          (o : Option LeanEvent)
          → provider id ≡ o
          → (e : LeanEvent) × (provider id ≡ some e)
            × (check_citation event version seen id e ≡ ok tt)
            × (collect_citations event version provider
                  ((e.event_type, state_key_of e, id) ∷ seen)
                  rest
                ≡ ok final)
      go none p = absurd (ground arith)
      go (some e) p =
          let passed : (check_citation event version seen id e
                >> collect_citations event version provider
                    ((e.event_type, state_key_of e, id) ∷ seen) rest)
              ≡ ok final =
            subst
              (λ o.
                elim o [
                  | none ↦ err (missing_auth_event id)
                  | some auth_ev ↦
                      check_citation event version seen id auth_ev
                      >> collect_citations event version provider
                          ((auth_ev.event_type, state_key_of auth_ev, id) ∷ seen) rest
                ]
                ≡ ok final)
              p h in
          let (checked, later) = >>-ok (check_citation event version seen id e) _ passed in
          (e, p, checked, later)

  pub collected-IsCitable :
      (auths : List String) (seen final : Seen) (id : String)
      → collect_citations event version provider seen auths ≡ ok final
      → contains auths id ≡ true
      → IsCitable id
  collected-IsCitable [] seen final id h inside = absurd (ground arith)
  collected-IsCitable (a ∷ rest) seen final id h inside =
      let (e, known, checked, later) = round_passed seen final a rest h in
      elim (Bool-cases (a == id)) [
        | inl here ↦
            let (kept, allowed, created, fresh) = citation_passed seen a e checked in
            record {
              source = e;
              known = ap provider (sym ((eq_iff a id).0 here)) ∙ known;
              kept = kept;
              allowed = allowed;
              no_create = λ v. ground (arith, v, created);
            }
        | inr apart ↦
            collected-IsCitable rest ((e.event_type, state_key_of e, a) ∷ seen) final id later
              (ground (arith, inside, apart))
      ]

  pub collected_once :
      (auths : List String) (seen final : Seen) (t k : String)
      → collect_citations event version provider seen auths ≡ ok final
      → citations_of t k auths + (if is_some (cited seen t k) then 1 else 0) ≤ 1
  unfolding cited
  collected_once [] seen final t k h = ground arith
  collected_once (a ∷ rest) seen final t k h =
      let (e, known, checked, later) = round_passed seen final a rest h in
      let (kept, allowed, created, fresh) = citation_passed seen a e checked in
      let once = collected_once rest ((e.event_type, state_key_of e, a) ∷ seen) final t k later in
      elim (Bool-cases (e.event_type == t && state_key_of e == k)) [
        | inl here ↦
            let (same, same') = &&-both (e.event_type == t) (state_key_of e == k) here in
            let absent : is_some (cited seen t k) ≡ false =
              subst (λ x. is_some (cited seen x k) ≡ false) ((eq_iff e.event_type t).0 same)
                (subst (λ x. is_some (cited seen e.event_type x) ≡ false)
                  ((eq_iff (state_key_of e) k).0 same') fresh) in
            ground (arith, known, once, here, absent)
        | inr apart ↦ ground (arith, known, once, apart)
      ]

  abbrev seen_or : Seen → Result AuthError Seen → Seen
  seen_or seen (ok final) = final
  seen_or seen (err e) = seen

  -- What the map says was cited, was cited.
  abbrev pub IsBacked : List String → Seen → Type 0
  IsBacked auths seen =
      (t k id : String)
      → cited seen t k ≡ some id
      → (contains auths id ≡ true)
        × ((e : LeanEvent) × (provider id ≡ some e) × (e.event_type ≡ t) × (state_key_of e ≡ k))

  pub collected-IsBacked :
      (all auths : List String) (seen final : Seen)
      → ((id : String) → contains auths id ≡ true → contains all id ≡ true)
      → IsBacked all seen
      → collect_citations event version provider seen auths ≡ ok final
      → IsBacked all final
  unfolding collect_citations cited
  collected-IsBacked all [] seen final inside backed h =
      subst (λ r. IsBacked all (seen_or seen r)) h backed
  collected-IsBacked all (a ∷ rest) seen final inside backed h =
      let (e, known, checked, later) = round_passed seen final a rest h in
      collected-IsBacked all rest ((e.event_type, state_key_of e, a) ∷ seen) final
        (λ id i. inside id (ground (arith, i)))
        (λ t k id found. elim (Bool-cases (e.event_type == t && state_key_of e == k)) [
          | inl here ↦
              let (same, same') = &&-both (e.event_type == t) (state_key_of e == k) here in
              let own : a ≡ id = ground (arith, found, here) in
              (
                inside id (ground (arith, own, eq_iff a id)),
                (
                  e,
                  ap provider (sym own) ∙ known,
                  (eq_iff e.event_type t).0 same,
                  (eq_iff (state_key_of e) k).0 same',
                ),
              )
          | inr apart ↦ backed t k id (ground (arith, found, apart))
        ])
        later
