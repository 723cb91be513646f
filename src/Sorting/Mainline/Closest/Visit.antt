-- ===== src/Sorting/Mainline/Closest/Visit.antt =====
-- One id from the top of the stack: the loop returns to the rest of the stack with the position of
-- the id, within a number of rounds that the ids without a mark pay for.
use rezzy.Prelude.{
  ℕ, zero, suc, ◌+◌, ◌-◌, ◌*◌, ◌≤◌, ◌<◌, ◌≡◌, refl, subst, String, true, Option, none, some, List,
  [], ◌∷◌, arith, ◌==◌, eq_iff, if◌then◌else◌, is_some, contains, lookup, put, lookup-put,
  Bool-cases, inl, inr,
}
use rezzy.Basespec.Version.{StateResVersion}
use rezzy.Basespec.Event.{EventProvider}
use rezzy.Sorting.Mainline.{Mark, in_progress, at, Memo, pl_edge, popped, pushed, turn, climb}
use rezzy.Sorting.Mainline.Closest.{
  IsClosest, IsClosest-end, IsClosest-step, IsClosest-loop, IsPath,
}

-- How many ids of a list have no mark.
abbrev pub unmarked : Memo → List String → ℕ
unmarked memo [] = 0
unmarked memo (u ∷ us) =
    if is_some (lookup u memo) then unmarked memo us else suc (unmarked memo us)

unmarked-put :
    (k : String) (m : Mark) (memo : Memo) (us : List String)
    → unmarked (put k m memo) us ≤ unmarked memo us
unmarked-put k m memo [] = omega arith
unmarked-put k m memo (u ∷ us) = ground (arith, lookup-put k u m memo, unmarked-put k m memo us)

unmarked-put-lt :
    (k : String) (m : Mark) (memo : Memo) (us : List String)
    → contains us k ≡ true
    → lookup k memo ≡ none
    → unmarked (put k m memo) us < unmarked memo us
unmarked-put-lt k m memo [] h e = ground arith
unmarked-put-lt k m memo (u ∷ us) h e = ground (
  arith,
  eq_iff k u,
  eq_iff u k,
  lookup-put k u m memo,
  unmarked-put k m memo us,
  unmarked-put-lt k m memo us,
)

pl_edge-known :
    (context : EventProvider) (version : StateResVersion) (id aid : String)
    → pl_edge context version id ≡ some aid
    → is_some (context id) ≡ true
unfolding pl_edge
pl_edge-known context version id aid h = ground arith

module _ (context : EventProvider) (version : StateResVersion) (line : String → Option ℕ)
    (len : ℕ) where
  -- What holds of the memo between two rounds.
  pub record IsMemo (memo : Memo) (stack : List String) : Type 0 where
    pub numbered : (k : String) (pos : ℕ) → line k ≡ some pos → lookup k memo ≡ some (at pos)
    pub closest :
        (k : String) (pos : ℕ)
        → lookup k memo ≡ some (at pos)
        → IsClosest context version line len k pos
    pub busy : (k : String) → lookup k memo ≡ some in_progress → contains stack k ≡ true

  opened-IsMemo :
      (memo : Memo) (top : String) (rest : List String)
      → lookup top memo ≡ none
      → IsMemo memo rest
      → IsMemo (put top in_progress memo) (top ∷ rest)
  opened-IsMemo memo top rest fresh inv = record {
    numbered = λ k pos h.
        ground
          (arith, eq_iff top k, lookup-put top k in_progress memo, inv.numbered k pos h, fresh);
    closest = λ k pos h.
        inv.closest k pos (ground (arith, eq_iff top k, h, lookup-put top k in_progress memo));
    busy = λ k h. ground (arith, eq_iff top k, h, lookup-put top k in_progress memo, inv.busy k);
  }

  closed-IsMemo :
      (memo : Memo) (top : String) (rest : List String) (pos : ℕ)
      → line top ≡ none
      → IsClosest context version line len top pos
      → IsMemo memo (top ∷ rest)
      → IsMemo (put top (at pos) memo) rest
  closed-IsMemo memo top rest pos off found inv = record {
    numbered = λ k p h.
        ground (arith, eq_iff top k, lookup-put top k (at pos) memo, inv.numbered k p h, off, h);
    closest = λ k p h. elim (Bool-cases (top == k)) [
      | inl here ↦
          let same : pos ≡ p = ground (arith, h, here, lookup-put top k (at pos) memo) in
          subst (λ x. IsClosest context version line len x p) ((eq_iff top k).0 here)
            (subst (λ x. IsClosest context version line len top x) same found)
      | inr apart ↦ inv.closest k p (ground (arith, h, apart, lookup-put top k (at pos) memo))
    ];
    busy = λ k h. ground (arith, eq_iff top k, h, lookup-put top k (at pos) memo, inv.busy k);
  }

  climb_first :
      (fuel : ℕ) (top : String) (rest : List String) (memo : Memo)
      → 0 < fuel
      → climb context version len fuel (top ∷ rest) memo
        ≡ (elim (turn context version len top memo) [
          | popped memo' ↦ climb context version len (fuel - 1) rest memo'
          | pushed aid memo' ↦ climb context version len (fuel - 1) (aid ∷ top ∷ rest) memo'
        ])
  unfolding climb
  climb_first zero top rest memo h = absurd (omega arith)
  climb_first (suc fuel) top rest memo h = ground arith

  module _ (universe : List String)
      (listed : (k : String) → is_some (context k) ≡ true → contains universe k ≡ true) where
    -- What a visit of the top comes to.
    pub record Visited (memo : Memo) (top : String) (rest : List String) : Type 0 where
      pub memo' : Memo
      pub pos : ℕ
      pub steps : ℕ
      pub runs :
          (fuel : ℕ)
          → steps ≤ fuel
          → climb context version len fuel (top ∷ rest) memo
            ≡ climb context version len (fuel - steps) rest memo'
      pub inv : IsMemo memo' rest
      pub done : lookup top memo' ≡ some (at pos)
      pub kept : (k : String) (m : Mark) → lookup k memo ≡ some m → lookup k memo' ≡ some m
      pub paid : steps + 2 * unmarked memo' universe ≤ 2 * unmarked memo universe + 1

    -- A top that is settled at once.
    settled :
        (memo : Memo) (top : String) (rest : List String) (pos : ℕ)
        → lookup top memo ≡ none
        → line top ≡ none
        → IsMemo memo rest
        → IsClosest context version line len top pos
        → turn context version len top memo ≡ popped (put top (at pos) (put top in_progress memo))
        → Visited memo top rest
    settled memo top rest pos fresh off inv found run = record {
      memo' = put top (at pos) (put top in_progress memo);
      pos = pos;
      steps = 1;
      runs = λ fuel h. ground (arith, climb_first fuel top rest memo, run);
      inv =
          closed-IsMemo (put top in_progress memo) top rest pos off found
            (opened-IsMemo memo top rest fresh inv);
      done = ground (arith, eq_iff top top, lookup-put top top (at pos) (put top in_progress memo));
      kept = λ k m h. ground (
        arith,
        eq_iff top k,
        fresh,
        lookup-put top k (at pos) (put top in_progress memo),
        lookup-put top k in_progress memo,
      );
      paid = omega (
        arith,
        unmarked-put top (at pos) (put top in_progress memo) universe,
        unmarked-put top in_progress memo universe,
      );
    }

    -- A top that waits for what it cites.
    returned :
        (memo : Memo) (top aid : String) (rest : List String)
        → lookup top memo ≡ none
        → line top ≡ none
        → pl_edge context version top ≡ some aid
        → lookup aid (put top in_progress memo) ≡ none
        → Visited (put top in_progress memo) aid (top ∷ rest)
        → Visited memo top rest
    unfolding turn
    returned memo top aid rest fresh off cites unseen v =
        let marked : lookup top (put top in_progress memo) ≡ some in_progress =
          ground (arith, eq_iff top top, lookup-put top top in_progress memo) in
        let waiting = v.kept top in_progress marked in
        let found = v.inv.closest aid v.pos v.done in
        record {
          memo' = put top (at v.pos) v.memo';
          pos = v.pos;
          steps = suc (suc v.steps);
          runs = λ fuel h.
              let first = climb_first fuel top rest memo (omega arith) in
              let middle = v.runs (fuel - 1) (omega arith) in
              let last = climb_first (fuel - 1 - v.steps) top rest v.memo' (omega arith) in
              let opens : turn context version len top memo
                  ≡ pushed aid (put top in_progress memo) =
                ground (arith, fresh, cites, unseen) in
              let closes : turn context version len top v.memo'
                  ≡ popped (put top (at v.pos) v.memo') =
                ground (arith, waiting, cites, v.done) in
              ground (arith, first, middle, last, opens, closes);
          inv =
              closed-IsMemo v.memo' top rest v.pos off
                (IsClosest-step context version line len top aid v.pos off cites found) v.inv;
          done = ground (arith, eq_iff top top, lookup-put top top (at v.pos) v.memo');
          kept = λ k m h. ground (
            arith,
            eq_iff top k,
            fresh,
            h,
            lookup-put top k (at v.pos) v.memo',
            v.kept k m,
            lookup-put top k in_progress memo,
          );
          paid = omega (
            arith,
            v.paid,
            unmarked-put top (at v.pos) v.memo' universe,
            unmarked-put-lt top in_progress memo universe
                (listed top (pl_edge-known context version top aid cites)) fresh,
          );
        }

    off_line :
        (memo : Memo) (top : String) (rest : List String)
        → lookup top memo ≡ none
        → IsMemo memo rest
        → line top ≡ none
    off_line memo top rest fresh inv = go (line top) refl
      where
        go : (o : Option ℕ) → line top ≡ o → line top ≡ none
        go none h = h
        go (some pos) h = ground (arith, inv.numbered top pos h, fresh)

    -- Where nothing is left to push, or by the visit of what is pushed.
    visit_top :
        (memo : Memo) (top : String) (rest : List String)
        → lookup top memo ≡ none
        → IsMemo memo rest
        → IsPath context version line len top rest
        → ((aid : String)
            → pl_edge context version top ≡ some aid
            → lookup aid (put top in_progress memo) ≡ none
            → line top ≡ none
            → Visited (put top in_progress memo) aid (top ∷ rest))
        → Visited memo top rest
    unfolding turn
    visit_top memo top rest fresh inv path deeper =
        let off = off_line memo top rest fresh inv in go off (pl_edge context version top) refl
      where
        marked :
            line top ≡ none
            → (aid : String) → pl_edge context version top ≡ some aid
            → (m : Option Mark) → lookup aid (put top in_progress memo) ≡ m
            → Visited memo top rest
        marked off aid cites none e =
            returned memo top aid rest fresh off cites e (deeper aid cites e off)
        marked off aid cites (some in_progress) e =
            settled memo top rest len fresh off inv
              (IsClosest-loop context version line len top rest aid off path cites
                ((opened-IsMemo memo top rest fresh inv).busy aid e))
              (ground (arith, fresh, cites, e))
        marked off aid cites (some (at pos)) e =
            settled memo top rest pos fresh off inv
              (IsClosest-step context version line len top aid pos off cites
                ((opened-IsMemo memo top rest fresh inv).closest aid pos e))
              (ground (arith, fresh, cites, e))

        go :
            line top ≡ none
            → (o : Option String) → pl_edge context version top ≡ o
            → Visited memo top rest
        go off none cites =
            settled memo top rest len fresh off inv
              (IsClosest-end context version line len top off cites) (ground (arith, fresh, cites))
        go off (some aid) cites = marked off aid cites (lookup aid (put top in_progress memo)) refl

    pub visit :
        (u : ℕ) (memo : Memo) (top : String) (rest : List String)
        → lookup top memo ≡ none
        → unmarked memo universe ≤ u
        → IsMemo memo rest
        → IsPath context version line len top rest
        → Visited memo top rest
    visit zero memo top rest fresh bound inv path =
        visit_top memo top rest fresh inv path (λ aid cites unseen off. absurd (
          omega (
            arith,
            bound,
            unmarked-put-lt top in_progress memo universe
                (listed top (pl_edge-known context version top aid cites)) fresh,
          )))
    visit (suc u) memo top rest fresh bound inv path =
        visit_top memo top rest fresh inv path (λ aid cites unseen off.
          visit u (put top in_progress memo) aid (top ∷ rest) unseen
            (omega (
              arith,
              bound,
              unmarked-put-lt top in_progress memo universe
                  (listed top (pl_edge-known context version top aid cites)) fresh,
            ))
            (opened-IsMemo memo top rest fresh inv) (cites, off, path))
