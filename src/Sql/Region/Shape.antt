-- ===== src/Sql/Region/Shape.antt =====
-- What the regions of a text look like, by MariaDB's rules for strings and comments, and that
-- scan_sql_region finds such ones.
use duckdb_engine.Prelude.{
  ℕ, Bool, true, false, ◌&&◌, [], ◌∷◌, ◌++◌, Bytes, ◌==◌, ◌≡◌, ◌≢◌, ◌⊎◌, inl, inr, refl, arith,
  Bool-cases, if-keeps, subst, sym, ◌∙◌,
}
use mathlib.Core.List.{head-eq_of_cons-eq}
use duckdb_engine.Sql.Region.Progress.{block_comment-joined}
use duckdb_engine.Sql.Region.{
  comment, quoted, Scan, consume, backslash, block_comment, line_comment, QuoteStep, both, one,
  close, quote_step, quoted_body,
}

-- The text does not begin with the byte.
abbrev pub NotNext : ℕ → Bytes → Type 0
NotNext c [] = Unit
NotNext c (d ∷ s) = d ≢ c

-- A string behind its opening quote `q`, up to the quote that ends it; behind it stands `rest`. A
-- doubled quote does not end it, and where backslashes escape, nor does a quote behind one.
pub data InQuotes (escapes : Bool) (q : ℕ) (rest : Bytes) : Bytes → Type 0 where
  closing : NotNext q rest → InQuotes escapes q rest (q ∷ [])
  doubled : (t : Bytes) → InQuotes escapes q rest t → InQuotes escapes q rest (q ∷ q ∷ t)
  escaped :
      (d : ℕ) (t : Bytes)
      → escapes ≡ true
      → InQuotes escapes q rest t
      → InQuotes escapes q rest (backslash ∷ d ∷ t)
  other_byte :
      (c : ℕ) (t : Bytes)
      → c ≢ q
      → (c ≢ backslash) ⊎ (escapes ≡ false)
      → InQuotes escapes q rest t
      → InQuotes escapes q rest (c ∷ t)

-- A comment up to the end of its line, or of the text.
pub data InLine (rest : Bytes) : Bytes → Type 0 where
  text_end : rest ≡ [] → InLine rest []
  line_end : InLine rest (0x0A ∷ [])
  line_byte : (c : ℕ) (t : Bytes) → c ≢ 0x0A → InLine rest t → InLine rest (c ∷ t)

-- A comment behind its slash and star, up to the first star with a slash behind it.
pub data InBlock : Bytes → Type 0 where
  block_end : InBlock (b'*' ∷ b'/' ∷ [])
  block_byte : (c : ℕ) (t : Bytes) → (c ≢ b'*') ⊎ NotNext b'/' t → InBlock t → InBlock (c ∷ t)

quote_end : (e : Bool) (q c d : ℕ) → quote_step e q c d ≡ close → (c ≡ q) × (d ≢ q)
unfolding quote_step
quote_end e q c d h = ground arith

quote_one :
    (e : Bool) (q c d : ℕ) → quote_step e q c d ≡ one → (c ≢ q) × ((c ≢ backslash) ⊎ (e ≡ false))
unfolding quote_step
quote_one e q c d h = ground arith

quote_both :
    (e : Bool) (q c d : ℕ)
    → quote_step e q c d ≡ both
    → ((c ≡ backslash) × (e ≡ true)) ⊎ ((c ≡ q) × (d ≡ q))
unfolding quote_step
quote_both e q c d h = ground arith

-- The scan that a step of the loop over a quoted region leads to.
abbrev after_step : Bool → ℕ → ℕ → ℕ → Bytes → QuoteStep → Scan
after_step e q c d s step = elim step [
  | both ↦ consume c (consume d (quoted_body e q s))
  | one ↦ consume c (quoted_body e q (d ∷ s))
  | close ↦ record { region = quoted; text = c ∷ []; rest = d ∷ s }
]

-- A scan that is a string behind its opening quote is one by the rules.
abbrev pub IsString : Bool → ℕ → Scan → Type 0
IsString e q r = r.region ≡ quoted → InQuotes e q r.rest r.text

two_bytes :
    (e : Bool) (q c d : ℕ) (rest t : Bytes)
    → ((c ≡ backslash) × (e ≡ true)) ⊎ ((c ≡ q) × (d ≡ q))
    → InQuotes e q rest t
    → InQuotes e q rest (c ∷ d ∷ t)
two_bytes e q c d rest t (inl (same, escapes)) h =
    subst (λ b. InQuotes e q rest (b ∷ d ∷ t)) (sym same) (escaped d t escapes h)
two_bytes e q c d rest t (inr (first, second)) h =
    subst (λ b. InQuotes e q rest (b ∷ d ∷ t)) (sym first)
      (subst (λ b. InQuotes e q rest (q ∷ b ∷ t)) (sym second) (doubled t h))

step-IsString :
    (e : Bool) (q c d : ℕ) (s : Bytes) (step : QuoteStep)
    → quote_step e q c d ≡ step
    → IsString e q (quoted_body e q s)
    → IsString e q (quoted_body e q (d ∷ s))
    → IsString e q (after_step e q c d s step)
step-IsString e q c d s both h two next k = two_bytes e q c d _ _ (quote_both e q c d h) (two k)
step-IsString e q c d s one h two next k =
    let (other, plain) = quote_one e q c d h in other_byte c _ other plain (next k)
step-IsString e q c d s close h two next k =
    let (same, more) = quote_end e q c d h in
    subst (λ b. InQuotes e q (d ∷ s) (b ∷ [])) (sym same) (closing more)

pub quoted_body-IsString : (e : Bool) (q : ℕ) (s : Bytes) → IsString e q (quoted_body e q s)
unfolding quoted_body
quoted_body-IsString e q [] h = cc
quoted_body-IsString e q (c ∷ []) h =
    let same : q ≡ c = ground arith in subst (λ b. InQuotes e q [] (b ∷ [])) same (closing tt)
quoted_body-IsString e q (c ∷ d ∷ s) h =
    step-IsString e q c d s (quote_step e q c d) refl (quoted_body-IsString e q s)
      (quoted_body-IsString e q (d ∷ s)) h

pub line_comment-InLine : (s : Bytes) → InLine (line_comment s).rest (line_comment s).text
unfolding line_comment
line_comment-InLine [] = text_end refl
line_comment-InLine (c ∷ s) =
    if-keeps (λ (r : Scan). InLine r.rest r.text) (c == 0x0A)
      (λ h. subst (λ b. InLine s (b ∷ [])) (ground arith) line_end)
      (λ h. line_byte c _ (ground arith) (line_comment-InLine s))

NotNext-first : (c d : ℕ) (s t rest : Bytes) → t ++ rest ≡ d ∷ s → d ≢ c → NotNext c t
NotNext-first c d s [] rest e h = tt
NotNext-first c d s (x ∷ t) rest e h = λ same. h (sym (head-eq_of_cons-eq e) ∙ same)

pub block_comment-InBlock :
    (s : Bytes) → (block_comment s).region ≡ comment → InBlock (block_comment s).text
unfolding block_comment
block_comment-InBlock [] h = cc
block_comment-InBlock (c ∷ []) h = cc
block_comment-InBlock (c ∷ d ∷ s) h =
    if-keeps (λ (r : Scan). r.region ≡ comment → InBlock r.text) (c == b'*' && d == b'/')
      (λ e _.
        subst (λ a. InBlock (a ∷ d ∷ [])) (ground arith)
          (subst (λ b. InBlock (b'*' ∷ b ∷ [])) (ground arith) block_end))
      (λ e k. block_byte c _ (not_end e) (block_comment-InBlock (d ∷ s) k)) h
  where
    not_end :
        (c == b'*' && d == b'/') ≡ false → (c ≢ b'*') ⊎ NotNext b'/' (block_comment (d ∷ s)).text
    not_end e = elim (Bool-cases (c == b'*')) [
      | inr other ↦ inl (ground arith)
      | inl star ↦ inr (
          NotNext-first b'/' d s (block_comment (d ∷ s)).text (block_comment (d ∷ s)).rest
            (block_comment-joined (d ∷ s)) (ground arith))
    ]
