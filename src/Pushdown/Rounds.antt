-- ===== src/Pushdown/Rounds.antt =====
-- The rounds of the loop of extract_source_query: what each means for the reading, and that it goes
-- on with no longer a text.
use duckdb_engine.Prelude.{
  ℕ, ◌≤◌, Bool, true, false, not, ◌&&◌, Bytes, [], ◌∷◌, length, ◌==◌, if◌then◌else◌, ◌≡◌, ◌≢◌, ◌⊎◌,
  inl, inr, refl, arith, if-keeps,
}
use duckdb_engine.Sql.Region.{
  RegionType, outside, comment, quoted, unterminated, Scan, is_space, scan_sql_region,
}
use duckdb_engine.Sql.Region.Progress.{scan-progress}
use duckdb_engine.Pushdown.Source.{
  starts_token, token_rest, is_query_token, SourceStep, refuse, find, go_on, plain_step,
  source_step,
}
use duckdb_engine.Pushdown.Reading.{
  starts_query, Opens, IsAllowed, Passes, passes_space, passes_comment, passes_string, passes_open,
  passes_close, passes_word, passes_other, Refuses, refuses_region, refuses_string, refuses_open,
  refuses_close, refuses_word, refuses_other,
}

token_rest-length : (s : Bytes) → length (token_rest s).1 ≤ length s
unfolding token_rest
token_rest-length [] = omega arith
token_rest-length (c ∷ s) = ground (arith, token_rest-length s)

-- The test for what may not stand in front of a SELECT.
allowed :
    (strip_prefix : Bool) (depth : ℕ)
    → (not strip_prefix && (depth == 0)) ≡ false
    → IsAllowed strip_prefix depth
allowed true depth h = inl refl
allowed false depth h = inr (ground arith)

foreign :
    (strip_prefix : Bool) (depth : ℕ)
    → (not strip_prefix && (depth == 0)) ≡ true
    → (strip_prefix ≡ false) × (depth ≡ 0)
foreign true depth h = cc
foreign false depth h = (refl, ground arith)

not_here :
    (depth : ℕ) (query : Bool) → ((depth == 0) && query) ≡ false → (depth ≢ 0) ⊎ (query ≡ false)
not_here depth true h = inl (ground arith)
not_here depth false h = inr refl

-- What a step at a byte means for the reading.
module _ (strip_prefix e : Bool) (depth c : ℕ) (s : Bytes) where
  abbrev pub Means : SourceStep → Type 0
  Means refuse = Refuses strip_prefix e depth (c ∷ s)
  Means find = (depth ≡ 0) × (starts_query (c ∷ s) ≡ true)
  Means (go_on depth' rest) =
      (length rest ≤ length s)
      × ((last : ℕ) (found : Bytes)
          → Passes strip_prefix e last found depth' rest
          → Passes strip_prefix e last found depth (c ∷ s))

  plain-Means : Opens e outside c s → Means (plain_step strip_prefix depth c s)
  unfolding plain_step
  plain-Means opens =
      if-keeps Means (c == b'(')
        (λ opened.
          if-keeps Means (not strip_prefix && (depth == 0))
            (λ h.
              let (select, top) = foreign strip_prefix depth h in
              refuses_open c s opens (ground arith) select top)
            (λ h. (
              omega arith,
              λ last found p.
                  passes_open depth c s opens (ground arith) (allowed strip_prefix depth h) p,
            )))
        (λ no_open.
          if-keeps Means (c == b')')
            (λ close.
              if-keeps Means (depth == 0)
                (λ h. refuses_close c s opens (ground arith) (ground arith))
                (λ h. (
                  omega arith,
                  λ last found p. passes_close depth c s opens (ground arith) (ground arith) p,
                )))
            (λ no_close. word_or_other no_open no_close))
    where
      word_or_other :
          (c == b'(') ≡ false
          → (c == b')') ≡ false
          → Means (
              if starts_token c
              then (let query_token = (depth == 0) && is_query_token (c ∷ (token_rest s).0) in
                  if query_token
                  then find
                  else if not strip_prefix
                  then refuse
                  else go_on depth (token_rest s).1)
              else if not strip_prefix && (depth == 0)
              then refuse
              else go_on depth s)
      word_or_other no_open no_close =
          if-keeps Means (starts_token c)
            (λ starts.
              if-keeps Means ((depth == 0) && is_query_token (c ∷ (token_rest s).0))
                (λ h. (ground arith, ground arith))
                (λ h.
                  let away : (depth ≢ 0) ⊎ (starts_query (c ∷ s) ≡ false) =
                    not_here depth (starts_query (c ∷ s)) (ground arith) in
                  if-keeps Means (not strip_prefix)
                    (λ select. refuses_word c s opens starts (ground arith) away)
                    (λ insert. (
                      token_rest-length s,
                      λ last found p. passes_word depth c s opens starts (ground arith) away p,
                    ))))
            (λ no_word.
              if-keeps Means (not strip_prefix && (depth == 0))
                (λ h.
                  let (select, top) = foreign strip_prefix depth h in
                  refuses_other c s opens (ground arith, ground arith, no_word) select top)
                (λ h. (
                  omega arith,
                  λ last found p.
                      passes_other depth c s opens (ground arith, ground arith, no_word)
                        (allowed strip_prefix depth h) p,
                )))

  pub source_step-Means : Means (source_step strip_prefix e depth c s)
  unfolding source_step
  source_step-Means =
      if-keeps Means (is_space c) (λ h. (omega arith, λ last found p. passes_space depth c s h p))
        (λ h. of_region h (scan_sql_region e (c ∷ s)).region refl)
    where
      r : Scan
      r = scan_sql_region e (c ∷ s)

      shorter : r.region ≢ outside → length r.rest ≤ length s
      shorter h = omega (arith, scan-progress e (c ∷ s) h)

      of_region :
          is_space c ≡ false
          → (t : RegionType) → r.region ≡ t
          → Means (elim t [
            | unterminated ↦ refuse
            | comment ↦ go_on depth r.rest
            | quoted ↦ if not strip_prefix && (depth == 0) then refuse else go_on depth r.rest
            | outside ↦ plain_step strip_prefix depth c s
          ])
      of_region no_space unterminated h = refuses_region c s (no_space, h)
      of_region no_space comment h =
          (shorter (λ o. cc (h, o)), λ last found p. passes_comment depth c s (no_space, h) p)
      of_region no_space quoted h =
          if-keeps Means (not strip_prefix && (depth == 0))
            (λ t.
              let (select, top) = foreign strip_prefix depth t in
              refuses_string c s (no_space, h) select top)
            (λ t. (
              shorter (λ o. cc (h, o)),
              λ last found p.
                  passes_string depth c s (no_space, h) (allowed strip_prefix depth t) p,
            ))
      of_region no_space outside h = plain-Means (no_space, h)
