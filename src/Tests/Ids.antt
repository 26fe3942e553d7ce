-- ===== src/Tests/Ids.antt =====
-- A share that serves an INSERT of two rows after a refill, and then one of one row from its cache.
use duckdb_engine.Prelude.{ℕ, List, [], ◌∷◌, some, All, ◌≡◌, refl, arith, map}
use duckdb_engine.AutoInc.{
  Share, loop, waiting, free, held, reserved, enter, claim, exhausted, lock, reserve, publish,
  Reach, here, next, opened, at_thread, outside, need_ids, has_room, claim_range, want_ids,
  publish_range, reserve_autoinc_block,
}
use duckdb_engine.AutoInc.Block.{span_of, run_of, Any, reserve_autoinc_block-run}
use duckdb_engine.AutoInc.Invariant.{AllApart, OffRange, EndsBy, claims-AllApart}

abbrev entered : Share
entered = let s = opened 1 in record s { threads = at_thread s.threads 7 (loop 2 s.range) }

abbrev starved : Share
starved = let s = entered in record s { threads = at_thread s.threads 7 (waiting 2) }

abbrev locked : Share
locked = let s = starved in record s { refill = held 7 }

abbrev filled : Share
filled = let s = locked in record s { refill = reserved 7 2 1 4; sequence = 5 }

abbrev published : Share
published =
    let s = filled in
    record s {
      range = publish_range 1 2 4;
      refill = free;
      threads = at_thread s.threads 7 outside;
      claims = record { first = 1; count = 2 } ∷ s.claims;
    }

abbrev again : Share
again = let s = published in record s { threads = at_thread s.threads 8 (loop 1 s.range) }

abbrev served : Share
served =
    let s = again in
    record s {
      range = claim_range s.range 1;
      threads = at_thread s.threads 8 outside;
      claims = record { first = s.range.next; count = 1 } ∷ s.claims;
    }

served-Reach : Reach 4 (opened 1) served
unfolding need_ids has_room claim_range want_ids publish_range reserve_autoinc_block
served-Reach =
    let r1 : Reach 4 (opened 1) entered = next here (enter 7 2 1 2 refl refl) in
    let r2 : Reach 4 (opened 1) starved = next r1 (exhausted 7 2 (opened 1).range refl refl) in
    let r3 : Reach 4 (opened 1) locked = next r2 (lock 7 2 refl refl) in
    let r4 : Reach 4 (opened 1) filled = next r3 (
      reserve 7 2 1 (some (1, 4) ∷ []) refl refl refl refl (λ e. omega arith) (omega arith)
        (omega arith)) in
    let r5 : Reach 4 (opened 1) published = next r4 (publish 7 2 1 4 refl) in
    let r6 : Reach 4 (opened 1) again = next r5 (enter 8 1 1 1 refl refl) in
    next r6 (claim 8 1 again.range refl refl refl)

claims-AllApart_example :
    AllApart served.claims
    × All (OffRange served.range) served.claims
    × All (EndsBy served.sequence) served.claims
claims-AllApart_example = claims-AllApart 4 1 (omega arith) served-Reach

-- The first query shares its ids with another writer, the second has them for itself.
abbrev blocks : List (List ℕ)
blocks = (5 ∷ 7 ∷ 8 ∷ []) ∷ (9 ∷ 10 ∷ 11 ∷ []) ∷ []

reserve_autoinc_block-run_example :
    Any (λ b. b ≡ run_of (reserve_autoinc_block 3 (map span_of blocks)) 3) blocks
unfolding reserve_autoinc_block
reserve_autoinc_block-run_example =
    reserve_autoinc_block-run 3 blocks
      (
        (refl, omega arith, (omega arith, (omega arith, tt)), omega arith),
        ((refl, omega arith, (omega arith, (omega arith, tt)), omega arith), tt),
      )
      (λ e. omega arith)
