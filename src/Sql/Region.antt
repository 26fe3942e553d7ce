-- ===== src/Sql/Region.antt =====
-- runtime/duckdb_query.cc: scan_sql_region. The code takes the text and a position `start`, and
-- returns the region's kind and `end`; the model takes the text from `start` on, and returns the
-- kind, the bytes between `start` and `end`, and the bytes from `end` on.
pub mod Progress
pub mod Enclosed
pub mod Shape
pub mod Found
use duckdb_engine.Prelude.{
  ℕ, Bool, true, false, not, ◌&&◌, ◌||◌, List, [], ◌∷◌, Bytes, leb, ◌==◌, if◌then◌else◌,
}

pub data RegionType : Type 0 where
  outside comment quoted unterminated : RegionType

pub record Scan : Type 0 where
  pub region : RegionType
  pub text : Bytes
  pub rest : Bytes

-- One more byte in front of the scanned text.
abbrev pub consume : ℕ → Scan → Scan
consume c r = record r { text = c ∷ r.text }

abbrev pub backslash : ℕ
backslash = 0x5C

abbrev pub backtick : ℕ
backtick = 0x60

-- The part of a block comment behind `/*`.
pub block_comment : Bytes → Scan
block_comment [] = record { region = unterminated; text = []; rest = [] }
block_comment (c ∷ []) = record { region = unterminated; text = c ∷ []; rest = [] }
block_comment (c ∷ d ∷ s) =
    let rest = block_comment (d ∷ s) in
    if c == b'*' && d == b'/'
    then record { region = comment; text = c ∷ d ∷ []; rest = s }
    else consume c rest

-- The part of a line comment behind `#` or `--`.
pub line_comment : Bytes → Scan
line_comment [] = record { region = comment; text = []; rest = [] }
line_comment (c ∷ s) =
    let rest = line_comment s in
    if c == 0x0A then record { region = comment; text = c ∷ []; rest = s } else consume c rest

-- isspace() in the C locale.
abbrev pub is_space : ℕ → Bool
is_space c = c == 0x20 || leb 0x09 c && leb c 0x0D

-- What the loop over a quoted region does at byte `c`, with `d` behind it: take both, take `c`, or
-- end behind `c`.
pub data QuoteStep : Type 0 where
  both one close : QuoteStep

pub quote_step : Bool → ℕ → ℕ → ℕ → QuoteStep
quote_step escapes q c d =
    if c == backslash && escapes
    then both
    else if not (c == q)
    then one
    else if d == q
    then both
    else close

-- The part of a quoted region behind the opening quote `q`.
pub quoted_body : Bool → ℕ → Bytes → Scan
quoted_body escapes q [] = record { region = unterminated; text = []; rest = [] }
quoted_body escapes q (c ∷ []) = record {
  region = if c == q then quoted else unterminated;
  text = c ∷ [];
  rest = [];
}
quoted_body escapes q (c ∷ d ∷ s) = elim (quote_step escapes q c d) [
  | both ↦ consume c (consume d (quoted_body escapes q s))
  | one ↦ consume c (quoted_body escapes q (d ∷ s))
  | close ↦ record { region = quoted; text = c ∷ []; rest = d ∷ s }
]

-- `#`, or `--` at the end of the text or before a space.
pub opens_line : ℕ → Bytes → Bool
opens_line c [] = c == b'#'
opens_line c (d ∷ []) = c == b'#' || c == b'-' && d == b'-'
opens_line c (d ∷ e ∷ s) = c == b'#' || c == b'-' && d == b'-' && is_space e

pub opens_block : ℕ → Bytes → Bool
opens_block c [] = false
opens_block c (d ∷ s) = c == b'/' && d == b'*'

abbrev pub is_quote : ℕ → Bool
is_quote c = c == b'\'' || c == b'"' || c == backtick

-- The tests at the first byte, in the order of the code.
pub data Opening : Type 0 where
  block line quote plain : Opening

pub opening : ℕ → Bytes → Opening
unfolding opens_block opens_line
opening c s =
    if opens_block c s
    then block
    else if opens_line c s
    then line
    else if is_quote c
    then quote
    else plain

-- A comment's second byte is taken before the search for its end.
behind_first : (Bytes → Scan) → Bytes → Scan
behind_first f [] = f []
behind_first f (d ∷ s) = consume d (f s)

pub line_rest : ℕ → Bytes → Scan
unfolding behind_first
line_rest c s = if c == b'#' then line_comment s else behind_first line_comment s

pub scan_sql_region : Bool → Bytes → Scan
unfolding opening behind_first line_rest
scan_sql_region escapes [] = record { region = outside; text = []; rest = [] }
scan_sql_region escapes (c ∷ s) = elim (opening c s) [
  | block ↦ consume c (behind_first block_comment s)
  | line ↦ consume c (line_rest c s)
  | quote ↦ consume c (quoted_body escapes c s)
  | plain ↦ record { region = outside; text = []; rest = c ∷ s }
]
