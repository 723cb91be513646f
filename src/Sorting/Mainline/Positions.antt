-- ===== src/Sorting/Mainline/Positions.antt =====
-- The loop over all events settles each of them (src/resolve/sorting.rs,
-- `compute_closest_mainline_positions`).
use rezzy.Prelude.{
  ℕ, zero, suc, ◌+◌, ◌-◌, ◌*◌, ◌≤◌, ◌<◌, ◌≡◌, refl, ◌∙◌, String, true, Option, none, some, List, [],
  ◌∷◌, arith, ◌==◌, if◌then◌else◌, is_some, length, contains, lookup, All,
}
use rezzy.Basespec.Version.{StateResVersion}
use rezzy.Basespec.Event.{LeanEvent, EventProvider}
use rezzy.Sorting.Mainline.{Mark, in_progress, at, Memo, climb, climb_all, turn}
use rezzy.Sorting.Mainline.Closest.Visit.{unmarked, IsMemo, visit}

-- The position of an id in the mainline; of an id that stands there twice, the last.
abbrev pub line_of : ℕ → List String → String → Option ℕ
line_of pos [] k = none
line_of pos (id ∷ rest) k = elim (line_of (suc pos) rest k) [
  | some p ↦ some p
  | none ↦ if id == k then some pos else none
]

unmarked-le-length : (memo : Memo) (us : List String) → unmarked memo us ≤ length us
unmarked-le-length memo [] = omega arith
unmarked-le-length memo (u ∷ us) = ground (arith, unmarked-le-length memo us)

module _ (context : EventProvider) (version : StateResVersion) (line : String → Option ℕ) (len : ℕ)
    (universe : List String)
    (listed : (k : String) → is_some (context k) ≡ true → contains universe k ≡ true) where
  climb_empty :
      (fuel : ℕ) (memo : Memo) → 0 < fuel → climb context version len fuel [] memo ≡ some memo
  unfolding climb
  climb_empty zero memo h = absurd (omega arith)
  climb_empty (suc fuel) memo h = refl

  climb_settled :
      (fuel : ℕ) (id : String) (pos : ℕ) (memo : Memo)
      → 1 < fuel
      → lookup id memo ≡ some (at pos)
      → climb context version len fuel (id ∷ []) memo ≡ some memo
  unfolding climb turn
  climb_settled zero id pos memo h done = absurd (omega arith)
  climb_settled (suc fuel) id pos memo h done =
      ground (arith, done, climb_empty fuel memo (omega arith))

  -- One event.
  pub record Settled (fuel : ℕ) (id : String) (memo : Memo) : Type 0 where
    pub memo' : Memo
    pub pos : ℕ
    pub returns : climb context version len fuel (id ∷ []) memo ≡ some memo'
    pub inv : IsMemo context version line len memo' []
    pub done : lookup id memo' ≡ some (at pos)
    pub kept : (k : String) (m : Mark) → lookup k memo ≡ some m → lookup k memo' ≡ some m

  settle_one :
      (fuel : ℕ) (id : String) (memo : Memo)
      → 2 * length universe + 1 < fuel
      → IsMemo context version line len memo []
      → Settled fuel id memo
  settle_one fuel id memo enough inv = go (lookup id memo) refl
    where
      go : (m : Option Mark) → lookup id memo ≡ m → Settled fuel id memo
      go none fresh =
          let v =
            visit context version line len universe listed (unmarked memo universe) memo id [] fresh
              (omega arith) inv tt in
          let few = unmarked-le-length memo universe in
          record {
            memo' = v.memo';
            pos = v.pos;
            returns =
                v.runs fuel (omega (arith, v.paid, few))
                ∙ climb_empty (fuel - v.steps) v.memo' (omega (arith, v.paid, few));
            inv = v.inv;
            done = v.done;
            kept = v.kept;
          }
      go (some in_progress) busy = absurd (ground (arith, inv.busy id busy))
      go (some (at pos)) done = record {
        memo' = memo;
        pos = pos;
        returns = climb_settled fuel id pos memo (omega arith) done;
        inv = inv;
        done = done;
        kept = λ k m h. h;
      }

  pub record AllSettled (fuel : ℕ) (events : List LeanEvent) (memo : Memo) : Type 0 where
    pub memo' : Memo
    pub returns : climb_all context version len fuel events memo ≡ some memo'
    pub inv : IsMemo context version line len memo' []
    pub done : All (λ ev. (pos : ℕ) × (lookup ev.event_id memo' ≡ some (at pos))) events
    pub kept : (k : String) (m : Mark) → lookup k memo ≡ some m → lookup k memo' ≡ some m

  pub settle_all :
      (fuel : ℕ) (events : List LeanEvent) (memo : Memo)
      → 2 * length universe + 1 < fuel
      → IsMemo context version line len memo []
      → AllSettled fuel events memo
  unfolding climb_all
  settle_all fuel [] memo enough inv = record {
    memo' = memo;
    returns = refl;
    inv = inv;
    done = tt;
    kept = λ k m h. h;
  }
  settle_all fuel (ev ∷ events) memo enough inv =
      let one = settle_one fuel ev.event_id memo enough inv in
      let rest = settle_all fuel events one.memo' enough one.inv in
      record {
        memo' = rest.memo';
        returns = ground (arith, one.returns, rest.returns);
        inv = rest.inv;
        done = ((one.pos, rest.kept ev.event_id (at one.pos) one.done), rest.done);
        kept = λ k m h. rest.kept k m (one.kept k m h);
      }
