-- ===== src/Functions/Texts/Trim.antt =====
-- LTRIM and RTRIM take all copies of the pattern, and no more.
use duckdb_engine.Prelude.{
  ℕ, zero, suc, ◌-◌, ◌≤◌, ◌<◌, true, false, [], ◌∷◌, ◌++◌, Bytes, none, length, length-append, ltb,
  ltb→lt, ◌≡◌, refl, sym, ap, ◌∙◌, arith, append_assoc, append-nil, option-keeps, if-keeps, Option,
  ◌==◌,
}
use duckdb_engine.Convert.Types.Compare.{same_bytes-eq}
use duckdb_engine.Functions.Texts.{
  strip, drop, take, ltrim_from, ltrim_substr, ends_with, rtrim_from, rtrim_substr,
}
use duckdb_engine.Functions.Texts.Search.{strip-append}

unfoldable pub copies : ℕ → Bytes → Bytes
copies zero p = []
copies (suc k) p = p ++ copies k p

copies-last : (k : ℕ) (p : Bytes) → copies k p ++ p ≡ p ++ copies k p
unfolding copies
copies-last zero p = sym (append-nil p)
copies-last (suc k) p = append_assoc p (copies k p) p ∙ ap (λ t. p ++ t) (copies-last k p)

take-drop : (n : ℕ) (s : Bytes) → take n s ++ drop n s ≡ s
take-drop zero s = refl
take-drop (suc n) [] = refl
take-drop (suc n) (c ∷ s) = ap (◌∷◌ c) (take-drop n s)

length-take-le : (n : ℕ) (s : Bytes) → length (take n s) ≤ n
length-take-le zero s = omega arith
length-take-le (suc n) [] = omega arith
length-take-le (suc n) (c ∷ s) = omega (arith, length-take-le n s)

strip-room : (p s : Bytes) → length s < length p → strip p s ≡ none
unfolding strip
strip-room [] s h = absurd (omega arith)
strip-room (p ∷ pattern) [] h = refl
strip-room (p ∷ pattern) (c ∷ s) h =
    if-keeps (λ (o : Option Bytes). o ≡ none) (c == p) (λ _. strip-room pattern s (omega arith))
      (λ _. refl)

ends_with-drop :
    (p s : Bytes)
    → ends_with p s ≡ true
    → (length p ≤ length s) × (drop (length s - length p) s ≡ p)
unfolding ends_with
ends_with-drop p s h = (ground arith, same_bytes-eq _ p (ground arith))

ends_with-room : (p s : Bytes) → length s < length p → ends_with p s ≡ false
unfolding ends_with
ends_with-room p s h = ground arith

module _ (p : ℕ) (pattern : Bytes) where
  -- What is left of a text, in front of or behind copies of the pattern.
  TrimmedLeft : Bytes → Bytes → Type 0
  TrimmedLeft s r = (k : ℕ) × (s ≡ copies k (p ∷ pattern) ++ r) × (strip (p ∷ pattern) r ≡ none)

  TrimmedRight : Bytes → Bytes → Type 0
  TrimmedRight s r =
      (k : ℕ) × (s ≡ r ++ copies k (p ∷ pattern)) × (ends_with (p ∷ pattern) r ≡ false)

  ltrim_from-copies :
      (fuel : ℕ) (s : Bytes) → length s ≤ fuel → TrimmedLeft s (ltrim_from fuel (p ∷ pattern) s)
  unfolding ltrim_from copies TrimmedLeft
  ltrim_from-copies zero [] h = (0, refl, unfold strip in refl)
  ltrim_from-copies zero (c ∷ s) h = absurd (omega arith)
  ltrim_from-copies (suc fuel) s h =
      option-keeps (TrimmedLeft s) (strip (p ∷ pattern) s) (λ e. (0, refl, e))
        λ rest e.
          let split = strip-append (p ∷ pattern) s rest e in
          let (k, q, n) =
            ltrim_from-copies fuel rest
              (omega (arith, ap length split, length-append (p ∷ pattern) rest)) in
          (suc k, split ∙ ap (λ t. (p ∷ pattern) ++ t) q ∙ sym (append_assoc (p ∷ pattern) _ _), n)

  rtrim_from-copies :
      (fuel : ℕ) (s : Bytes) → length s ≤ fuel → TrimmedRight s (rtrim_from fuel (p ∷ pattern) s)
  unfolding rtrim_from copies TrimmedRight
  rtrim_from-copies zero [] h = (0, refl, ends_with-room (p ∷ pattern) [] (omega arith))
  rtrim_from-copies zero (c ∷ s) h = absurd (omega arith)
  rtrim_from-copies (suc fuel) s h =
      if-keeps (TrimmedRight s) (ends_with (p ∷ pattern) s)
        (λ e.
          let (room, tail) = ends_with-drop (p ∷ pattern) s e in
          let n = length s - length (p ∷ pattern) in
          let (k, q, m) = rtrim_from-copies fuel (take n s) (omega (arith, length-take-le n s)) in
          (
            suc k,
            sym (take-drop n s)
                ∙ ap (λ t. take n s ++ t) tail
                ∙ ap (λ t. t ++ (p ∷ pattern)) q
                ∙ append_assoc _ (copies k (p ∷ pattern)) (p ∷ pattern)
                ∙ ap (λ t. rtrim_from fuel (p ∷ pattern) (take n s) ++ t)
                    (copies-last k (p ∷ pattern)),
            m,
          ))
        (λ e. (0, sym (append-nil s), e))

  -- LTRIM and RTRIM with a pattern of at least one byte take whole copies of it from the left and
  -- from the right end, as many as there are: what is left is the text without them, and neither
  -- begins, or ends, with the pattern.
  pub trim-copies :
      (s : Bytes)
      → ((k : ℕ) × (s ≡ copies k (p ∷ pattern) ++ ltrim_substr s (p ∷ pattern))
          × (strip (p ∷ pattern) (ltrim_substr s (p ∷ pattern)) ≡ none))
        × ((k : ℕ) × (s ≡ rtrim_substr s (p ∷ pattern) ++ copies k (p ∷ pattern))
            × (ends_with (p ∷ pattern) (rtrim_substr s (p ∷ pattern)) ≡ false))
  unfolding ltrim_substr rtrim_substr TrimmedLeft TrimmedRight
  trim-copies s = (
    if-keeps (TrimmedLeft s) (ltb (length s) (length (p ∷ pattern)))
        (λ e. (0, unfold copies in refl, strip-room (p ∷ pattern) s (ltb→lt _ _ e)))
        (λ _. ltrim_from-copies (length s) s (omega arith)),
    if-keeps (TrimmedRight s) (ltb (length s) (length (p ∷ pattern)))
        (λ e.
          (0, unfold copies in sym (append-nil s), ends_with-room (p ∷ pattern) s (ltb→lt _ _ e)))
        (λ _. rtrim_from-copies (length s) s (omega arith)),
  )
