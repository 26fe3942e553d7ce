-- ===== src/Sql/Region/Progress.antt =====
-- What every scan gives: a split of its input, with progress unless it is outside any region.
use duckdb_engine.Prelude.{
  ◌⊎◌, inl, inr, ℕ, Bool, [], ◌∷◌, ◌++◌, Bytes, ◌≡◌, ◌≢◌, refl, ap, arith, ◌<◌, ◌+◌, length,
  length-append, true, false, ◌||◌, ◌==◌,
}
use duckdb_engine.Sql.Region.{
  RegionType, quoted, unterminated, outside, comment, Scan, block_comment, line_comment,
  quoted_body, opening, opens_block, opens_line, behind_first, line_rest, scan_sql_region, is_quote,
}

abbrev pub joined : Scan → Bytes
joined r = r.text ++ r.rest

pub block_comment-joined : (s : Bytes) → joined (block_comment s) ≡ s
unfolding block_comment
block_comment-joined [] = refl
block_comment-joined (c ∷ []) = refl
block_comment-joined (c ∷ d ∷ s) = ground (arith, block_comment-joined (d ∷ s))

line_comment-joined : (s : Bytes) → joined (line_comment s) ≡ s
unfolding line_comment
line_comment-joined [] = refl
line_comment-joined (c ∷ s) = ground (arith, line_comment-joined s)

pub quoted_body-joined : (e : Bool) (q : ℕ) (s : Bytes) → joined (quoted_body e q s) ≡ s
unfolding quoted_body
quoted_body-joined e q [] = refl
quoted_body-joined e q (c ∷ []) = refl
quoted_body-joined e q (c ∷ d ∷ s) =
    ground (arith, quoted_body-joined e q s, quoted_body-joined e q (d ∷ s))

behind_first-joined :
    (f : Bytes → Scan)
    → ((s : Bytes) → joined (f s) ≡ s)
    → (s : Bytes) → joined (behind_first f s) ≡ s
unfolding behind_first
behind_first-joined f h [] = h []
behind_first-joined f h (d ∷ s) = ap (◌∷◌ d) (h s)

line_rest-joined : (c : ℕ) (s : Bytes) → joined (line_rest c s) ≡ s
unfolding line_rest
line_rest-joined c s =
    ground (arith, line_comment-joined s, behind_first-joined line_comment line_comment-joined s)

-- The text of a region and what is behind it make up the input, whatever the region.
pub scan-joined : (e : Bool) (s : Bytes) → joined (scan_sql_region e s) ≡ s
unfolding scan_sql_region
scan-joined e [] = refl
scan-joined e (c ∷ s) = ground (
  arith,
  quoted_body-joined e c s,
  line_rest-joined c s,
  behind_first-joined block_comment block_comment-joined s,
)

pub scan-text :
    (e : Bool) (s : Bytes)
    → (scan_sql_region e s).region ≢ outside
    → 0 < length (scan_sql_region e s).text
unfolding scan_sql_region
scan-text e [] h = absurd (h refl)
scan-text e (c ∷ s) h = ground arith

pub scan-length :
    (e : Bool) (s : Bytes)
    → length (scan_sql_region e s).text + length (scan_sql_region e s).rest ≡ length s
scan-length e s = omega (
  arith,
  length-append (scan_sql_region e s).text (scan_sql_region e s).rest,
  ap length (scan-joined e s),
)

-- In a region at least one byte is taken, so a loop that goes on behind it ends.
pub scan-progress :
    (e : Bool) (s : Bytes)
    → (scan_sql_region e s).region ≢ outside
    → length (scan_sql_region e s).rest < length s
scan-progress e s h = omega (arith, scan-text e s h, scan-length e s)

pub quoted_body-ne-comment :
    (e : Bool) (q : ℕ) (s : Bytes)
    → ((quoted_body e q s).region ≢ comment) × ((quoted_body e q s).region ≢ outside)
unfolding quoted_body
quoted_body-ne-comment e q [] = ground arith
quoted_body-ne-comment e q (c ∷ []) = ground arith
quoted_body-ne-comment e q (c ∷ d ∷ s) =
    ground (arith, quoted_body-ne-comment e q s, quoted_body-ne-comment e q (d ∷ s))

-- A comment is read alike with and without backslash escapes.
pub scan_comment :
    (e : Bool) (c : ℕ) (s : Bytes)
    → (scan_sql_region false (c ∷ s)).region ≡ comment
    → scan_sql_region e (c ∷ s) ≡ scan_sql_region false (c ∷ s)
unfolding scan_sql_region
scan_comment e c s h = ground (arith, quoted_body-ne-comment false c s)

-- A quote always opens a region.
pub scan_quote :
    (e : Bool) (c : ℕ) (s : Bytes)
    → is_quote c ≡ true
    → (scan_sql_region e (c ∷ s)).region ≢ outside
unfolding scan_sql_region opening
scan_quote e c [] h = ground (arith, quoted_body-ne-comment e c [])
scan_quote e c (d ∷ []) h = ground (arith, quoted_body-ne-comment e c (d ∷ []))
scan_quote e c (d ∷ d' ∷ s) h = ground (arith, quoted_body-ne-comment e c (d ∷ d' ∷ s))

-- Any byte but a quote and the first bytes of a comment opens none.
pub scan_plain :
    (e : Bool) (c : ℕ) (s : Bytes)
    → (is_quote c || (c == b'/' || (c == b'#' || c == b'-'))) ≡ false
    → (scan_sql_region e (c ∷ s)).region ≡ outside
unfolding scan_sql_region opening opens_block opens_line
scan_plain e c [] h = ground arith
scan_plain e c (d ∷ []) h = ground arith
scan_plain e c (d ∷ f ∷ s) h = ground arith

outside-cases : (r : RegionType) → (r ≡ outside) ⊎ (r ≢ outside)
outside-cases outside = inl refl
outside-cases comment = inr (λ e. cc)
outside-cases quoted = inr (λ e. cc)
outside-cases unterminated = inr (λ e. cc)

-- A scan splits the text: what it took and what is left are the text again, and it found no region
-- there or less than the whole text is left.
pub scan-splits :
    (e : Bool) (s : Bytes)
    → (joined (scan_sql_region e s) ≡ s)
      × (((scan_sql_region e s).region ≡ outside) ⊎ (length (scan_sql_region e s).rest < length s))
scan-splits e s = (
  scan-joined e s,
  elim (outside-cases (scan_sql_region e s).region) [
    | inl out ↦ inl out
    | inr inside ↦ inr (scan-progress e s inside)
  ],
)
