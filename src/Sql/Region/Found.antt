-- ===== src/Sql/Region/Found.antt =====
-- The region that scan_sql_region finds at a byte is one by the rules.
use duckdb_engine.Prelude.{
  ℕ, Bool, true, false, [], ◌∷◌, Bytes, ◌==◌, ◌≡◌, ◌≢◌, ◌⊎◌, inl, inr, refl, arith, if-keeps,
}
use duckdb_engine.Sql.Region.{
  RegionType, outside, comment, quoted, unterminated, Scan, consume, block_comment, line_comment,
  quoted_body, Opening, block, line, quote, plain, opening, opens_block, opens_line, is_quote,
  behind_first, line_rest, scan_sql_region,
}
use duckdb_engine.Sql.Region.Progress.{quoted_body-ne-comment}
use duckdb_engine.Sql.Region.Shape.{
  InQuotes, InLine, InBlock, quoted_body-IsString, line_comment-InLine, block_comment-InBlock,
}

abbrev pub IsString : Bool → Bytes → Bytes → Type 0
IsString e rest [] = ⊥
IsString e rest (q ∷ text) = (is_quote q ≡ true) × InQuotes e q rest text

-- A comment from its two first bytes on: two dashes, or a slash and a star.
abbrev pub IsLong : ℕ → Bytes → Bytes → Type 0
IsLong c rest [] = ⊥
IsLong c rest (d ∷ text) =
    ((c ≡ b'-') × (d ≡ b'-') × InLine rest text) ⊎ ((c ≡ b'/') × (d ≡ b'*') × InBlock text)

abbrev pub IsComment : Bytes → Bytes → Type 0
IsComment rest [] = ⊥
IsComment rest (c ∷ text) = ((c ≡ b'#') × InLine rest text) ⊎ IsLong c rest text

-- A byte that opens neither a string nor a comment.
abbrev pub IsPlain : Bytes → Bytes → Type 0
IsPlain rest [] = ⊥
IsPlain rest (c ∷ text) =
    (text ≡ []) × (is_quote c ≡ false) × (opens_block c rest ≡ false) × (opens_line c rest ≡ false)

-- A piece of a text, with what stands behind it. One that does not end goes on to the end of the
-- text.
abbrev pub IsPiece : Bool → RegionType → Bytes → Bytes → Type 0
IsPiece e outside text rest = IsPlain rest text
IsPiece e comment text rest = IsComment rest text
IsPiece e quoted text rest = IsString e rest text
IsPiece e unterminated text rest = rest ≡ []

-- What a scan that starts at the byte `c` finds.
abbrev pub Finds : Bool → ℕ → Bytes → Scan → RegionType → Type 0
Finds e c s r outside = IsPiece e outside (c ∷ []) s
Finds e c s r comment = IsPiece e comment r.text r.rest
Finds e c s r quoted = IsPiece e quoted r.text r.rest
Finds e c s r unterminated = IsPiece e unterminated r.text r.rest

quoted_end :
    (e : Bool) (q : ℕ) (s : Bytes)
    → (quoted_body e q s).region ≡ unterminated
    → (quoted_body e q s).rest ≡ []
unfolding quoted_body
quoted_end e q [] h = refl
quoted_end e q (c ∷ []) h = refl
quoted_end e q (c ∷ d ∷ s) h = ground (arith, quoted_end e q s, quoted_end e q (d ∷ s))

block_open : (s : Bytes) → (block_comment s).region ≡ unterminated → (block_comment s).rest ≡ []
unfolding block_comment
block_open [] h = refl
block_open (c ∷ []) h = refl
block_open (c ∷ d ∷ s) h = ground (arith, block_open (d ∷ s))

block_region :
    (s : Bytes) → ((block_comment s).region ≢ quoted) × ((block_comment s).region ≢ outside)
unfolding block_comment
block_region [] = ground arith
block_region (c ∷ []) = ground arith
block_region (c ∷ d ∷ s) = ground (arith, block_region (d ∷ s))

line_region : (s : Bytes) → (line_comment s).region ≡ comment
unfolding line_comment
line_region [] = refl
line_region (c ∷ s) = ground (arith, line_region s)

opened_block : (c : ℕ) (d : ℕ) (s : Bytes) → opens_block c (d ∷ s) ≡ true → (c ≡ b'/') × (d ≡ b'*')
unfolding opens_block
opened_block c d s h = ground arith

opened_dashes :
    (c d : ℕ) (s : Bytes)
    → opens_line c (d ∷ s) ≡ true
    → (c == b'#') ≡ false
    → (c ≡ b'-') × (d ≡ b'-')
unfolding opens_line
opened_dashes c d [] h k = ground arith
opened_dashes c d (f ∷ s) h k = ground arith

block-Finds :
    (e : Bool) (c : ℕ) (s : Bytes) (t : RegionType)
    → opens_block c s ≡ true
    → (consume c (behind_first block_comment s)).region ≡ t
    → Finds e c s (consume c (behind_first block_comment s)) t
unfolding behind_first
block-Finds e c [] t h k = absurd (unfold opens_block in cc h)
block-Finds e c (d ∷ s) outside h k = absurd ((block_region s).1 k)
block-Finds e c (d ∷ s) quoted h k = absurd ((block_region s).0 k)
block-Finds e c (d ∷ s) unterminated h k = block_open s k
block-Finds e c (d ∷ s) comment h k =
    let (slash, star) = opened_block c d s h in inr (inr (slash, star, block_comment-InBlock s k))

quote-Finds :
    (e : Bool) (c : ℕ) (s : Bytes) (t : RegionType)
    → is_quote c ≡ true
    → (consume c (quoted_body e c s)).region ≡ t
    → Finds e c s (consume c (quoted_body e c s)) t
quote-Finds e c s outside h k = absurd ((quoted_body-ne-comment e c s).1 k)
quote-Finds e c s comment h k = absurd ((quoted_body-ne-comment e c s).0 k)
quote-Finds e c s unterminated h k = quoted_end e c s k
quote-Finds e c s quoted h k = (h, quoted_body-IsString e c s k)

commented :
    (e : Bool) (c : ℕ) (s : Bytes) (r : Scan) (t : RegionType)
    → r.region ≡ comment
    → IsComment r.rest r.text
    → r.region ≡ t
    → Finds e c s r t
commented e c s r comment h p k = p
commented e c s r outside h p k = cc (h, k)
commented e c s r quoted h p k = cc (h, k)
commented e c s r unterminated h p k = cc (h, k)

line-Finds :
    (e : Bool) (c : ℕ) (s : Bytes) (t : RegionType)
    → opens_line c s ≡ true
    → (consume c (line_rest c s)).region ≡ t
    → Finds e c s (consume c (line_rest c s)) t
unfolding line_rest behind_first
line-Finds e c s t h =
    if-keeps (λ (r : Scan). (consume c r).region ≡ t → Finds e c s (consume c r) t) (c == b'#')
      (λ hash.
        commented e c s (consume c (line_comment s)) t (line_region s)
          (inl (ground arith, line_comment-InLine s)))
      (λ dash. dashes s h dash)
  where
    dashes :
        (s : Bytes)
        → opens_line c s ≡ true
        → (c == b'#') ≡ false
        → (consume c (behind_first line_comment s)).region ≡ t
        → Finds e c s (consume c (behind_first line_comment s)) t
    dashes [] h k = absurd (unfold opens_line in cc (h, k))
    dashes (d ∷ s) h k =
        let (first, second) = opened_dashes c d s h k in
        commented e c (d ∷ s) (consume c (consume d (line_comment s))) t (line_region s)
          (inr (inl (first, second, line_comment-InLine s)))

-- Whatever the scan at a byte finds is a piece by the rules of strings and comments.
pub scan-Finds :
    (e : Bool) (c : ℕ) (s : Bytes) (t : RegionType)
    → (scan_sql_region e (c ∷ s)).region ≡ t
    → Finds e c s (scan_sql_region e (c ∷ s)) t
unfolding scan_sql_region opening
scan-Finds e c s t =
    if-keeps (λ (o : Opening). (after o).region ≡ t → Finds e c s (after o) t) (opens_block c s)
      (λ h. block-Finds e c s t h)
      (λ no_block.
        if-keeps (λ (o : Opening). (after o).region ≡ t → Finds e c s (after o) t) (opens_line c s)
          (λ h. line-Finds e c s t h)
          (λ no_line.
            if-keeps (λ (o : Opening). (after o).region ≡ t → Finds e c s (after o) t) (is_quote c)
              (λ h. quote-Finds e c s t h) (λ no_quote. nothing t no_block no_line no_quote)))
  where
    after : Opening → Scan
    after o = elim o [
      | block ↦ consume c (behind_first block_comment s)
      | line ↦ consume c (line_rest c s)
      | quote ↦ consume c (quoted_body e c s)
      | plain ↦ record { region = outside; text = []; rest = c ∷ s }
    ]

    nothing :
        (t : RegionType)
        → opens_block c s ≡ false
        → opens_line c s ≡ false
        → is_quote c ≡ false
        → outside ≡ t
        → Finds e c s (record { region = outside; text = []; rest = c ∷ s }) t
    nothing outside no_block no_line no_quote k = (refl, no_quote, no_block, no_line)
    nothing comment no_block no_line no_quote k = cc
    nothing quoted no_block no_line no_quote k = cc
    nothing unterminated no_block no_line no_quote k = cc
