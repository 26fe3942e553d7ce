-- ===== src/Pushdown/Code.antt =====
-- ha_duckdb_pushdown.cc: find_in_code, rfind_in_code and ci_starts_with, which init_scan looks for
-- MariaDB's syntax with. The text is taken from the position on, and the loops take fuel, of which
-- the length of the text is enough.
use duckdb_engine.Prelude.{
  ℕ, zero, suc, ◌+◌, ◌-◌, Bool, true, false, ◌&&◌, ◌||◌, Bytes, [], ◌∷◌, Option, none, some, length,
  ltb, leb, ◌==◌, if◌then◌else◌,
}
use duckdb_engine.Sql.Region.{is_quote, quoted_body}

-- toupper() in the C locale.
abbrev pub to_upper : ℕ → ℕ
to_upper c = if leb 97 c && leb c 122 then c - 32 else c

-- The text begins with the pattern, in either case: the comparison in find_in_code, and
-- ci_starts_with.
unfoldable pub ci_starts_with : Bytes → Bytes → Bool
ci_starts_with s [] = true
ci_starts_with [] (p ∷ pattern) = false
ci_starts_with (c ∷ s) (p ∷ pattern) = (to_upper c == to_upper p) && ci_starts_with s pattern

-- Behind `--`: up to the line feed, which is left.
unfoldable pub skip_line : Bytes → Bytes
skip_line [] = []
skip_line (c ∷ s) = let rest = skip_line s in if c == 0x0A then c ∷ s else rest

-- Behind `/*`: a comment that does not end leaves the last byte of the text.
unfoldable pub skip_block : Bytes → Bytes
skip_block [] = []
skip_block (c ∷ []) = c ∷ []
skip_block (c ∷ d ∷ s) =
    let rest = skip_block (d ∷ s) in if (c == b'*') && (d == b'/') then s else rest

-- What the loop does at a byte: skip to what follows a region, or look for the pattern there.
unfoldable pub skipped : ℕ → Bytes → Option Bytes
unfolding skip_line skip_block
skipped c [] = if is_quote c then some [] else none
skipped c (d ∷ s) =
    if is_quote c
    then some (quoted_body (c == b'\'' || c == b'"') c (d ∷ s)).rest
    else if (c == b'-') && (d == b'-')
    then some (skip_line s)
    else if (c == b'/') && (d == b'*')
    then some (skip_block s)
    else none

-- The text from the first match on.
unfoldable pub find_from : ℕ → Bytes → Bytes → Option Bytes
find_from fuel pattern [] = none
find_from zero pattern (c ∷ s) = none
find_from (suc fuel) pattern (c ∷ s) =
    if ltb (length (c ∷ s)) (length pattern) then none else elim (skipped c s) [
      | some rest ↦ find_from fuel pattern rest
      | none ↦
          let later = find_from fuel pattern s in
          if ci_starts_with (c ∷ s) pattern then some (c ∷ s) else later
    ]

abbrev pub drop_bytes : ℕ → Bytes → Bytes
drop_bytes zero s = s
drop_bytes (suc n) [] = []
drop_bytes (suc n) (c ∷ s) = drop_bytes n s

-- The position of the first match from `start` on. An empty pattern has none.
unfoldable pub find_in_code : Bytes → Bytes → ℕ → Option ℕ
find_in_code sql [] start = none
find_in_code sql (p ∷ pattern) start =
    elim (find_from (length sql) (p ∷ pattern) (drop_bytes start sql)) [
      | none ↦ none
      | some found ↦ some (length sql - length found)
    ]

-- The last match at or before `before`, from the one before `pos` on. A round moves on by a byte.
unfoldable pub rfind_from : ℕ → Bytes → Bytes → ℕ → ℕ → Option ℕ → Option ℕ
rfind_from zero sql pattern before pos last = last
rfind_from (suc fuel) sql pattern before pos last = elim (find_in_code sql pattern pos) [
  | none ↦ last
  | some found ↦
      let later = rfind_from fuel sql pattern before (found + 1) (some found) in
      if ltb before found then last else later
]

unfoldable pub rfind_in_code : Bytes → Bytes → ℕ → Option ℕ
unfolding rfind_from
rfind_in_code sql pattern before = rfind_from (length sql + 1) sql pattern before 0 none
