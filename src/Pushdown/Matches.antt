-- ===== src/Pushdown/Matches.antt =====
-- What find_in_code finds.
use duckdb_engine.Prelude.{
  ℕ, zero, suc, ◌-◌, true, ◌&&◌, ◌||◌, Bytes, [], ◌∷◌, ◌++◌, Option, none, some, length,
  length-append, ltb, ◌==◌, if◌then◌else◌, ◌≡◌, refl, sym, ap, ◌∙◌, subst, arith, if-keeps,
  append_assoc,
}
use duckdb_engine.Sql.Region.{is_quote, quoted_body}
use duckdb_engine.Sql.Region.Progress.{quoted_body-joined}
use duckdb_engine.Pushdown.Code.{
  ci_starts_with, skip_line, skip_block, skipped, find_from, drop_bytes, find_in_code,
}

abbrev pub EndsWith : Bytes → Bytes → Type 0
EndsWith s rest = (before : Bytes) × (s ≡ before ++ rest)

longer : (c : ℕ) (s rest : Bytes) → EndsWith s rest → EndsWith (c ∷ s) rest
longer c s rest (before, e) = (c ∷ before, ap (◌∷◌ c) e)

skip_line-EndsWith : (s : Bytes) → EndsWith s (skip_line s)
unfolding skip_line
skip_line-EndsWith [] = ([], refl)
skip_line-EndsWith (c ∷ s) =
    if-keeps (EndsWith (c ∷ s)) (c == 0x0A) (λ _. ([], refl))
      (λ _. longer c s _ (skip_line-EndsWith s))

skip_block-EndsWith : (s : Bytes) → EndsWith s (skip_block s)
unfolding skip_block
skip_block-EndsWith [] = ([], refl)
skip_block-EndsWith (c ∷ []) = ([], refl)
skip_block-EndsWith (c ∷ d ∷ s) =
    if-keeps (EndsWith (c ∷ d ∷ s)) ((c == b'*') && (d == b'/')) (λ _. (c ∷ d ∷ [], refl))
      (λ _. longer c (d ∷ s) _ (skip_block-EndsWith (d ∷ s)))

abbrev pub SkipsIn : Bytes → Option Bytes → Type 0
SkipsIn s none = Unit {0}
SkipsIn s (some rest) = EndsWith s rest

skipped-SkipsIn : (c : ℕ) (s : Bytes) → SkipsIn s (skipped c s)
unfolding skipped
skipped-SkipsIn c [] = if-keeps (SkipsIn []) (is_quote c) (λ _. ([], refl)) (λ _. tt)
skipped-SkipsIn c (d ∷ s) =
    if-keeps Here (is_quote c)
      (λ _. (
        (quoted_body (c == b'\'' || c == b'"') c (d ∷ s)).text,
        sym (quoted_body-joined (c == b'\'' || c == b'"') c (d ∷ s)),
      ))
      (λ _.
        if-keeps Here ((c == b'-') && (d == b'-')) (λ _. longer d s _ (skip_line-EndsWith s))
          (λ _.
            if-keeps Here ((c == b'/') && (d == b'*')) (λ _. longer d s _ (skip_block-EndsWith s))
              (λ _. tt)))
  where
    Here : Option Bytes → Type 0
    Here o = SkipsIn (d ∷ s) o

-- A suffix of the text that begins with the pattern, in either case.
abbrev pub MatchesIn : Bytes → Bytes → Option Bytes → Type 0
MatchesIn pattern s none = Unit {0}
MatchesIn pattern s (some found) = EndsWith s found × (ci_starts_with found pattern ≡ true)

behind-MatchesIn :
    (pattern s rest : Bytes) (o : Option Bytes)
    → EndsWith s rest
    → MatchesIn pattern rest o
    → MatchesIn pattern s o
behind-MatchesIn pattern s rest none e h = tt
behind-MatchesIn pattern s rest (some found) (before, e) ((more, f), h) =
    ((before ++ more, e ∙ ap (◌++◌ before) f ∙ sym (append_assoc before more found)), h)

find_from-MatchesIn :
    (fuel : ℕ) (pattern s : Bytes) → MatchesIn pattern s (find_from fuel pattern s)
unfolding find_from
find_from-MatchesIn zero pattern [] = tt
find_from-MatchesIn (suc fuel) pattern [] = tt
find_from-MatchesIn zero pattern (c ∷ s) = tt
find_from-MatchesIn (suc fuel) pattern (c ∷ s) =
    if-keeps (MatchesIn pattern (c ∷ s)) (ltb (length (c ∷ s)) (length pattern)) (λ _. tt)
      (λ _.
        round (skipped c s) (skipped-SkipsIn c s) (λ rest. find_from-MatchesIn fuel pattern rest))
  where
    round :
        (o : Option Bytes)
        → SkipsIn s o
        → ((rest : Bytes) → MatchesIn pattern rest (find_from fuel pattern rest))
        → MatchesIn pattern (c ∷ s) (elim o [
          | some rest ↦ find_from fuel pattern rest
          | none ↦
              let later = find_from fuel pattern s in
              if ci_starts_with (c ∷ s) pattern then some (c ∷ s) else later
        ])
    round (some rest) skips more =
        behind-MatchesIn pattern (c ∷ s) rest _ (longer c s rest skips) (more rest)
    round none skips more =
        if-keeps (MatchesIn pattern (c ∷ s)) (ci_starts_with (c ∷ s) pattern) (λ e. (([], refl), e))
          (λ _. behind-MatchesIn pattern (c ∷ s) s _ (c ∷ [], refl) (more s))

drop_bytes-EndsWith : (n : ℕ) (s : Bytes) → EndsWith s (drop_bytes n s)
drop_bytes-EndsWith zero s = ([], refl)
drop_bytes-EndsWith (suc n) [] = ([], refl)
drop_bytes-EndsWith (suc n) (c ∷ s) = longer c s _ (drop_bytes-EndsWith n s)

drop_bytes-append : (before rest : Bytes) → drop_bytes (length before) (before ++ rest) ≡ rest
drop_bytes-append [] rest = refl
drop_bytes-append (c ∷ before) rest = drop_bytes-append before rest

-- A position of the text at which the pattern stands.
abbrev pub StandsAt : Bytes → Bytes → Option ℕ → Type 0
StandsAt sql pattern none = Unit {0}
StandsAt sql pattern (some pos) = ci_starts_with (drop_bytes pos sql) pattern ≡ true

-- Where find_in_code finds a pattern, the pattern stands there, in either case.
pub find_in_code-StandsAt :
    (sql pattern : Bytes) (start : ℕ) → StandsAt sql pattern (find_in_code sql pattern start)
unfolding find_in_code
find_in_code-StandsAt sql [] start = tt
find_in_code-StandsAt sql (p ∷ pattern) start =
    at_position (find_from (length sql) (p ∷ pattern) (drop_bytes start sql)) (
      behind-MatchesIn (p ∷ pattern) sql (drop_bytes start sql) _ (drop_bytes-EndsWith start sql)
        (find_from-MatchesIn (length sql) (p ∷ pattern) (drop_bytes start sql)))
  where
    at_position :
        (o : Option Bytes)
        → MatchesIn (p ∷ pattern) sql o
        → StandsAt sql
            (p ∷ pattern)
            (elim o [ none ↦ none | some found ↦ some (length sql - length found) ])
    at_position none h = tt
    at_position (some found) ((before, e), h) =
        subst (λ s. ci_starts_with s (p ∷ pattern) ≡ true) (sym dropped) h
      where
        dropped : drop_bytes (length sql - length found) sql ≡ found
        dropped =
            ap (λ n. drop_bytes n sql) (omega (arith, ap length e, length-append before found))
            ∙ ap (drop_bytes (length before)) e
            ∙ drop_bytes-append before found
