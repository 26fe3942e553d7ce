-- ===== src/Pushdown/Suffix.antt =====
-- What extract_source_query finds: the loop over the text, round for round, and the text that it
-- gives.
use duckdb_engine.Prelude.{
  ℕ, zero, suc, ◌≤◌, Bool, true, false, Bytes, [], ◌∷◌, Option, none, some, length, if◌then◌else◌,
  ◌≡◌, ◌≢◌, ◌⊎◌, inl, inr, refl, sym, subst, arith,
}
use duckdb_engine.Sql.Forward.{mariadb_query_has_unsafe_quote_escape}
use duckdb_engine.Pushdown.Source.{
  SourceStep, refuse, find, go_on, source_step, source_from, whole, extract_source_query,
}
use duckdb_engine.Pushdown.Reading.{Passes, stops, refuses_end, IsOutcome}
use duckdb_engine.Pushdown.Rounds.{Means, source_step-Means}

-- What is read behind a part of the text that the reading passes.
behind :
    (strip_prefix e : Bool) (depth depth' : ℕ) (s rest : Bytes) (o : Option Bytes)
    → ((last : ℕ) (found : Bytes)
        → Passes strip_prefix e last found depth' rest
        → Passes strip_prefix e last found depth s)
    → IsOutcome strip_prefix e depth' rest o
    → IsOutcome strip_prefix e depth s o
behind strip_prefix e depth depth' s rest none pass (last, t, p, r) = (last, t, pass last t p, r)
behind strip_prefix e depth depth' s rest (some found) pass (p, q) = (pass 0 found p, q)

round :
    (fuel : ℕ) (strip_prefix e : Bool) (depth c : ℕ) (s : Bytes) (step : SourceStep)
    → Means strip_prefix e depth c s step
    → length s ≤ fuel
    → ((depth' : ℕ) (rest : Bytes)
        → length rest ≤ fuel
        → IsOutcome strip_prefix e depth' rest (source_from fuel strip_prefix e depth' rest))
    → IsOutcome strip_prefix e depth (c ∷ s) (elim step [
      | refuse ↦ none
      | find ↦ some (c ∷ s)
      | go_on depth' rest ↦ source_from fuel strip_prefix e depth' rest
    ])
round fuel strip_prefix e depth c s refuse h short more = (depth, c ∷ s, stops, h)
round fuel strip_prefix e depth c s find (top, query) short more =
    (subst (λ d. Passes strip_prefix e 0 (c ∷ s) d (c ∷ s)) (sym top) stops, query)
round fuel strip_prefix e depth c s (go_on depth' rest) (shorter, pass) short more =
    behind strip_prefix e depth depth' (c ∷ s) rest (source_from fuel strip_prefix e depth' rest)
      pass (more depth' rest (omega arith))

-- The length of the text is enough fuel.
source_from-IsOutcome :
    (fuel : ℕ) (strip_prefix e : Bool) (depth : ℕ) (s : Bytes)
    → length s ≤ fuel
    → IsOutcome strip_prefix e depth s (source_from fuel strip_prefix e depth s)
unfolding source_from
source_from-IsOutcome zero strip_prefix e depth [] h = (depth, [], stops, refuses_end)
source_from-IsOutcome (suc fuel) strip_prefix e depth [] h = (depth, [], stops, refuses_end)
source_from-IsOutcome zero strip_prefix e depth (c ∷ s) h = absurd (omega arith)
source_from-IsOutcome (suc fuel) strip_prefix e depth (c ∷ s) h =
    round fuel strip_prefix e depth c s (source_step strip_prefix e depth c s)
      (source_step-Means strip_prefix e depth c s) (omega arith)
      (source_from-IsOutcome fuel strip_prefix e)

-- What extract_source_query may make of a text, where `answer` is what the check of its quotes says:
-- nothing where the check does not pass it or the reading is refused, and else the text, of an
-- INSERT from the query on.
abbrev pub IsSource : Bool → Bool → Option Bool → Bytes → Option Bytes → Type 0
IsSource strip_prefix e answer sql none =
    (answer ≢ some false) ⊎ IsOutcome strip_prefix e 0 sql none
IsSource strip_prefix e answer sql (some source) =
    (answer ≡ some false)
    × (found : Bytes) × IsOutcome strip_prefix e 0 sql (some found)
    × (source ≡ (if strip_prefix then found else sql))

whole-IsSource :
    (strip_prefix e : Bool) (answer : Option Bool) (sql : Bytes) (o : Option Bytes)
    → answer ≡ some false
    → IsOutcome strip_prefix e 0 sql o
    → IsSource strip_prefix e answer sql (whole strip_prefix sql o)
whole-IsSource strip_prefix e answer sql none a h = inr h
whole-IsSource true e answer sql (some found) a h = (a, found, h, refl)
whole-IsSource false e answer sql (some found) a h = (a, found, h, refl)

answered-IsSource :
    (strip_prefix e : Bool) (answer : Option Bool) (sql : Bytes) (o : Option Bytes)
    → IsOutcome strip_prefix e 0 sql o
    → IsSource strip_prefix e answer sql (elim answer [
      | none ↦ none
      | some unsafe ↦ if unsafe then none else whole strip_prefix sql o
    ])
answered-IsSource strip_prefix e none sql o h = inl (λ p. cc)
answered-IsSource strip_prefix e (some true) sql o h = inl (λ p. cc)
answered-IsSource strip_prefix e (some false) sql o h =
    whole-IsSource strip_prefix e (some false) sql o refl h

-- The source of an INSERT ... SELECT is the end of its text from the first word SELECT or WITH on
-- that stands outside of parentheses, strings and comments, and a SELECT is its own source if only
-- spaces and comments stand in front of such a word. Where there is no source, the check of the
-- quotes does not pass the text, or the reading comes without such a word to the end of the text or
-- to a place that it refuses.
pub extract_source_query-IsSource :
    (strip_prefix escapes ansi_quotes : Bool) (sql : Bytes)
    → IsSource strip_prefix escapes
        (mariadb_query_has_unsafe_quote_escape escapes ansi_quotes sql)
        sql
        (extract_source_query strip_prefix escapes ansi_quotes sql)
unfolding extract_source_query
extract_source_query-IsSource strip_prefix escapes ansi_quotes sql =
    answered-IsSource strip_prefix escapes
      (mariadb_query_has_unsafe_quote_escape escapes ansi_quotes sql) sql
      (source_from (length sql) strip_prefix escapes 0 sql)
      (source_from-IsOutcome (length sql) strip_prefix escapes 0 sql (omega arith))
