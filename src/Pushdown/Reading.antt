-- ===== src/Pushdown/Reading.antt =====
-- What extract_source_query is to find: the reading of a statement from its start to the first word
-- SELECT or WITH that stands outside of parentheses, strings and comments.
use duckdb_engine.Prelude.{
  ℕ, ◌+◌, ◌-◌, Bool, true, false, ◌&&◌, Bytes, [], ◌∷◌, Option, none, some, ◌≡◌, ◌≢◌, ◌⊎◌,
}
use duckdb_engine.Sql.Region.{
  RegionType, outside, comment, quoted, unterminated, is_space, scan_sql_region,
}
use duckdb_engine.Pushdown.Source.{starts_token, token_rest, is_query_token}

-- A text that begins with a word of a query.
abbrev pub starts_query : Bytes → Bool
starts_query [] = false
starts_query (c ∷ s) = starts_token c && is_query_token (c ∷ (token_rest s).0)

-- A region of a kind begins at the byte, which is no space.
abbrev pub Opens : Bool → RegionType → ℕ → Bytes → Type 0
Opens e kind c s = (is_space c ≡ false) × ((scan_sql_region e (c ∷ s)).region ≡ kind)

-- Neither a parenthesis nor the first byte of a word.
abbrev pub IsOther : ℕ → Type 0
IsOther c = (c ≢ b'(') × (c ≢ b')') × (starts_token c ≡ false)

-- In a SELECT nothing but spaces and comments may stand in front of the query; in an INSERT anything
-- may.
abbrev pub IsAllowed : Bool → ℕ → Type 0
IsAllowed strip_prefix depth = (strip_prefix ≡ true) ⊎ (depth ≢ 0)

-- The reading passes from a text, in `depth` open parentheses, to a part of it, in `last`: one
-- space, comment, string, parenthesis, word or other byte after the other. A word of a query
-- outside of parentheses is not passed.
pub data Passes (strip_prefix e : Bool) (last : ℕ) (found : Bytes) : ℕ → Bytes → Type 0 where
  stops : Passes strip_prefix e last found last found
  passes_space :
      (depth c : ℕ) (s : Bytes)
      → is_space c ≡ true
      → Passes strip_prefix e last found depth s
      → Passes strip_prefix e last found depth (c ∷ s)
  passes_comment :
      (depth c : ℕ) (s : Bytes)
      → Opens e comment c s
      → Passes strip_prefix e last found depth (scan_sql_region e (c ∷ s)).rest
      → Passes strip_prefix e last found depth (c ∷ s)
  passes_string :
      (depth c : ℕ) (s : Bytes)
      → Opens e quoted c s
      → IsAllowed strip_prefix depth
      → Passes strip_prefix e last found depth (scan_sql_region e (c ∷ s)).rest
      → Passes strip_prefix e last found depth (c ∷ s)
  passes_open :
      (depth c : ℕ) (s : Bytes)
      → Opens e outside c s
      → c ≡ b'('
      → IsAllowed strip_prefix depth
      → Passes strip_prefix e last found (depth + 1) s
      → Passes strip_prefix e last found depth (c ∷ s)
  passes_close :
      (depth c : ℕ) (s : Bytes)
      → Opens e outside c s
      → c ≡ b')'
      → depth ≢ 0
      → Passes strip_prefix e last found (depth - 1) s
      → Passes strip_prefix e last found depth (c ∷ s)
  passes_word :
      (depth c : ℕ) (s : Bytes)
      → Opens e outside c s
      → starts_token c ≡ true
      → strip_prefix ≡ true
      → (depth ≢ 0) ⊎ (starts_query (c ∷ s) ≡ false)
      → Passes strip_prefix e last found depth (token_rest s).1
      → Passes strip_prefix e last found depth (c ∷ s)
  passes_other :
      (depth c : ℕ) (s : Bytes)
      → Opens e outside c s
      → IsOther c
      → IsAllowed strip_prefix depth
      → Passes strip_prefix e last found depth s
      → Passes strip_prefix e last found depth (c ∷ s)

-- Where a reading ends without a query: at the end of the text, at a region that does not end, at a
-- parenthesis that nothing opened, and in a SELECT at what may not stand there.
pub data Refuses (strip_prefix e : Bool) (depth : ℕ) : Bytes → Type 0 where
  refuses_end : Refuses strip_prefix e depth []
  refuses_region :
      (c : ℕ) (s : Bytes) → Opens e unterminated c s → Refuses strip_prefix e depth (c ∷ s)
  refuses_string :
      (c : ℕ) (s : Bytes)
      → Opens e quoted c s
      → strip_prefix ≡ false
      → depth ≡ 0
      → Refuses strip_prefix e depth (c ∷ s)
  refuses_open :
      (c : ℕ) (s : Bytes)
      → Opens e outside c s
      → c ≡ b'('
      → strip_prefix ≡ false
      → depth ≡ 0
      → Refuses strip_prefix e depth (c ∷ s)
  refuses_close :
      (c : ℕ) (s : Bytes)
      → Opens e outside c s
      → c ≡ b')'
      → depth ≡ 0
      → Refuses strip_prefix e depth (c ∷ s)
  refuses_word :
      (c : ℕ) (s : Bytes)
      → Opens e outside c s
      → starts_token c ≡ true
      → strip_prefix ≡ false
      → (depth ≢ 0) ⊎ (starts_query (c ∷ s) ≡ false)
      → Refuses strip_prefix e depth (c ∷ s)
  refuses_other :
      (c : ℕ) (s : Bytes)
      → Opens e outside c s
      → IsOther c
      → strip_prefix ≡ false
      → depth ≡ 0
      → Refuses strip_prefix e depth (c ∷ s)

-- The outcome of a reading: where the query begins, or that it is refused at some place.
abbrev pub IsOutcome : Bool → Bool → ℕ → Bytes → Option Bytes → Type 0
IsOutcome strip_prefix e depth s none =
    (last : ℕ) × (t : Bytes) × Passes strip_prefix e last t depth s × Refuses strip_prefix e last t
IsOutcome strip_prefix e depth s (some found) =
    Passes strip_prefix e 0 found depth s × (starts_query found ≡ true)
