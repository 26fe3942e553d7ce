-- ===== src/AutoInc.antt =====
-- AUTO_INCREMENT ids: Duckdb_share::Autoinc_range (ha_duckdb.h), reserve_autoinc_block and
-- ha_duckdb::get_auto_increment (ha_duckdb.cc). Any number of threads run get_auto_increment over
-- one share; a thread's steps are its loads, compare-and-swaps, lock and unlock calls and its query.
pub mod Words
pub mod Block
pub mod Invariant
use duckdb_engine.Prelude.{
  ℕ, zero, suc, ◌+◌, ◌-◌, ◌*◌, ◌/◌, ◌%◌, ◌^◌, ◌≤◌, ◌<◌, max, Bool, true, false, List, [], ◌∷◌,
  Option, none, some, ◌==◌, leb, if◌then◌else◌, ◌≡◌, ◌≢◌,
}

-- ulonglong arithmetic is modulo this.
abbrev pub word : ℕ
word = 2 ^ 64

pub record AutoincRange : Type 0 where
  pub next : ℕ
  pub end : ℕ

-- nb_desired_values * increment, or nothing if the product overflows.
unfoldable pub need_ids : ℕ → ℕ → Option ℕ
need_ids nb_desired_values increment =
    let need = nb_desired_values * increment % word in
    if need / increment == nb_desired_values then some need else none

-- cur.end - cur.next >= need
unfoldable pub has_room : AutoincRange → ℕ → Bool
has_room cur need = leb need ((cur.end + word - cur.next) % word)

-- {cur.next + need, cur.end}
unfoldable pub claim_range : AutoincRange → ℕ → AutoincRange
claim_range cur need = record { next = (cur.next + need) % word; end = cur.end }

-- How many ids a refill asks the sequence for.
unfoldable pub want_ids : ℕ → ℕ → ℕ
want_ids need autoinc_cache_size = max need autoinc_cache_size

-- {first + need, first + want}
unfoldable pub publish_range : ℕ → ℕ → ℕ → AutoincRange
publish_range first need want = record { next = (first + need) % word; end = (first + want) % word }

-- The attempts of reserve_autoinc_block, given the answers to its queries: nothing for an error or
-- an empty result, and otherwise the least and the greatest id. The result 0 is a failure.
unfoldable pub reserve_attempts : ℕ → ℕ → List (Option (ℕ × ℕ)) → ℕ
reserve_attempts zero want answers = 0
reserve_attempts (suc n) want [] = 0
reserve_attempts (suc n) want (none ∷ answers) = 0
reserve_attempts (suc n) want (some (lo, hi) ∷ answers) =
    let again = reserve_attempts n want answers in
    if ((hi + word - lo) % word + 1) % word == want then lo else again

unfoldable pub reserve_autoinc_block : ℕ → List (Option (ℕ × ℕ)) → ℕ
unfolding reserve_attempts
reserve_autoinc_block want answers = reserve_attempts 3 want answers

-- Where a thread stands: outside, at the head of the loop with what it last loaded, or at the
-- refill mutex.
pub data Local : Type 0 where
  outside : Local
  loop : ℕ → AutoincRange → Local
  waiting : ℕ → Local

-- The refill mutex, with the locals of the thread that holds it: nothing so far, or the block that
-- it has reserved and not yet published.
pub data Refill : Type 0 where
  free : Refill
  held : ℕ → Refill
  reserved : ℕ → ℕ → ℕ → ℕ → Refill

-- Ids handed to the server: the first and how many.
pub record Claim : Type 0 where
  pub first : ℕ
  pub count : ℕ

-- `sequence` is one past the last id that the table's sequence has given to anybody.
pub record Share : Type 0 where
  pub range : AutoincRange
  pub refill : Refill
  pub sequence : ℕ
  pub threads : ℕ → Local
  pub claims : List Claim

abbrev pub at_thread : (ℕ → Local) → ℕ → Local → ℕ → Local
at_thread threads t l u = if u == t then l else threads u

-- What DuckDB documents of a sequence: ids grow and are BIGINTs.
abbrev pub last_id : ℕ
last_id = 2 ^ 63 - 1

-- The steps of get_auto_increment, and `others` for a DuckDB-side writer that takes ids.
pub data Step (cache_size : ℕ) (s : Share) : Share → Type 0 where
  enter :
      (t nb increment need : ℕ)
      → s.threads t ≡ outside
      → need_ids nb increment ≡ some need
      → Step cache_size s (record s { threads = at_thread s.threads t (loop need s.range) })
  claim :
      (t need : ℕ) (cur : AutoincRange)
      → s.threads t ≡ loop need cur
      → has_room cur need ≡ true
      → s.range ≡ cur
      → Step cache_size s (record s {
        range = claim_range cur need;
        threads = at_thread s.threads t outside;
        claims = record { first = cur.next; count = need } ∷ s.claims;
      })
  reload :
      (t need : ℕ) (cur : AutoincRange)
      → s.threads t ≡ loop need cur
      → has_room cur need ≡ true
      → Step cache_size s (record s { threads = at_thread s.threads t (loop need s.range) })
  exhausted :
      (t need : ℕ) (cur : AutoincRange)
      → s.threads t ≡ loop need cur
      → has_room cur need ≡ false
      → Step cache_size s (record s { threads = at_thread s.threads t (waiting need) })
  lock :
      (t need : ℕ)
      → s.threads t ≡ waiting need
      → s.refill ≡ free
      → Step cache_size s (record s { refill = held t })
  refilled :
      (t need : ℕ)
      → s.threads t ≡ waiting need
      → s.refill ≡ held t
      → has_room s.range need ≡ true
      → Step cache_size s
          (record s { refill = free; threads = at_thread s.threads t (loop need s.range) })
  reserve :
      (t need first : ℕ) (answers : List (Option (ℕ × ℕ)))
      → s.threads t ≡ waiting need
      → s.refill ≡ held t
      → has_room s.range need ≡ false
      → reserve_autoinc_block (want_ids need cache_size) answers ≡ first
      → first ≢ 0
      → s.sequence ≤ first
      → first + want_ids need cache_size ≤ last_id + 1
      → Step cache_size s (record s {
        refill = reserved t need first (want_ids need cache_size);
        sequence = first + want_ids need cache_size;
      })
  failed :
      (t need : ℕ) (answers : List (Option (ℕ × ℕ)))
      → s.threads t ≡ waiting need
      → s.refill ≡ held t
      → reserve_autoinc_block (want_ids need cache_size) answers ≡ 0
      → Step cache_size s (record s { refill = free; threads = at_thread s.threads t outside })
  publish :
      (t need first want : ℕ)
      → s.refill ≡ reserved t need first want
      → Step cache_size s (record s {
        range = publish_range first need want;
        refill = free;
        threads = at_thread s.threads t outside;
        claims = record { first = first; count = need } ∷ s.claims;
      })
  others :
      (n : ℕ) → s.sequence ≤ n → n ≤ last_id + 1 → Step cache_size s (record s { sequence = n })

pub data Reach (cache_size : ℕ) (s : Share) : Share → Type 0 where
  here : Reach cache_size s s
  next : {u v : Share} → Reach cache_size s u → Step cache_size u v → Reach cache_size s v

-- A share that has just been opened.
abbrev pub opened : ℕ → Share
opened sequence = record {
  range = record { next = 0; end = 0 };
  refill = free;
  sequence = sequence;
  threads = λ _. outside;
  claims = [];
}
