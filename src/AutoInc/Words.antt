-- ===== src/AutoInc/Words.antt =====
-- The word arithmetic of get_auto_increment, within the ranges where it runs.
use duckdb_engine.Prelude.{ℕ, ◌+◌, ◌*◌, ◌/◌, ◌%◌, ◌≤◌, ◌<◌, true, some, ◌≡◌, arith, subst}
use native.Mathlib.Nat.{mod-le, div-mul-le_self, mul-le-mul_right}
use duckdb_engine.AutoInc.{
  AutoincRange, word, last_id, need_ids, has_room, claim_range, want_ids, publish_range,
}

-- What a range within the ids of a sequence looks like.
abbrev pub IsRange : AutoincRange → Type 0
IsRange r = (r.next ≤ r.end) × (r.end ≤ last_id + 1)

pub has_room-le :
    (r : AutoincRange) (need : ℕ) → IsRange r → has_room r need ≡ true → r.next + need ≤ r.end
unfolding has_room
has_room-le r need h e = ground arith

pub claim_range-eq :
    (r : AutoincRange) (need : ℕ)
    → IsRange r
    → r.next + need ≤ r.end
    → claim_range r need ≡ record { next = r.next + need; end = r.end }
unfolding claim_range
claim_range-eq r need h k = ground arith

pub publish_range-eq :
    (first need want : ℕ)
    → need ≤ want
    → first + want ≤ last_id + 1
    → publish_range first need want ≡ record { next = first + need; end = first + want }
unfolding publish_range
publish_range-eq first need want h k = ground arith

pub want_ids-ge : (need cache_size : ℕ) → need ≤ want_ids need cache_size
unfolding want_ids
want_ids-ge need cache_size = omega arith

need_ids-inv :
    (nb increment need : ℕ)
    → need_ids nb increment ≡ some need
    → (need ≡ nb * increment % word) × (need / increment ≡ nb)
unfolding need_ids
need_ids-inv nb increment need h = ground arith

-- A product that wraps is noticed: what passes the test is the product itself.
pub need_ids-exact :
    (nb increment need : ℕ) → need_ids nb increment ≡ some need → need ≡ nb * increment
need_ids-exact nb increment need h =
    let (low, quotient) = need_ids-inv nb increment need h in
    let below : nb * increment ≤ need =
      subst (λ q. q * increment ≤ need) quotient (div-mul-le_self need increment) in
    omega (arith, mod-le (nb * increment) word)

-- The ids that the server uses, from its rounded start in steps of the increment, all lie in the
-- ids that were taken for the call.
pub grid_in_need :
    (nb increment offset need j : ℕ)
    → need_ids nb increment ≡ some need
    → offset < increment
    → j < nb
    → offset + j * increment < need
grid_in_need nb increment offset need j h k l =
    omega (arith, need_ids-exact nb increment need h, mul-le-mul_right increment l)
