-- ===== src/Functions/Texts/Search.antt =====
-- LOCATE finds the first occurrence.
use duckdb_engine.Prelude.{
  ℕ, zero, suc, ◌+◌, ◌-◌, ◌≤◌, ◌<◌, [], ◌∷◌, ◌++◌, Bytes, none, some, length, ltb, leb, ◌≡◌, ◌⊎◌,
  inl, inr, refl, ap, subst, ◌∙◌, length-append, arith, Option-cases, if-keeps, ltb→lt,
}
use native.Mathlib.Decide.{ℕ_discrete}
use duckdb_engine.Functions.Texts.{strip, drop, locate_from, locate_2arg, locate_3arg}

-- The text holds the needle from an offset on.
abbrev pub OccursAt : Bytes → Bytes → ℕ → Type 0
OccursAt needle s i = (rest : Bytes) × (drop i s ≡ needle ++ rest)

pub strip-append : (p s rest : Bytes) → strip p s ≡ some rest → s ≡ p ++ rest
unfolding strip
strip-append [] s rest h = ground arith
strip-append (p ∷ pattern) [] rest h = cc
strip-append (p ∷ pattern) (c ∷ s) rest h = ground (arith, strip-append pattern s rest)

strip_of_append : (p rest : Bytes) → strip p (p ++ rest) ≡ some rest
unfolding strip
strip_of_append [] rest = refl
strip_of_append (p ∷ pattern) rest = ground (arith, strip_of_append pattern rest)

drop-one : (n : ℕ) (s : Bytes) → drop 1 (drop n s) ≡ drop (n + 1) s
drop-one n s = lemma n s ∙ ap (λ k. drop k s) {x = suc n} (omega arith)
  where
    lemma : (n : ℕ) (s : Bytes) → drop 1 (drop n s) ≡ drop (suc n) s
    lemma zero s = refl
    lemma (suc n) [] = refl
    lemma (suc n) (c ∷ s) = lemma n s

pub length-drop : (n : ℕ) (s : Bytes) → length (drop n s) ≡ length s - n
length-drop zero s = omega arith
length-drop (suc n) [] = omega arith
length-drop (suc n) (c ∷ s) = omega (arith, length-drop n s)

-- What a search that starts at an offset finds: nothing, or the first occurrence.
abbrev pub IsFirst : Bytes → Bytes → ℕ → ℕ → Type 0
IsFirst needle s start found =
    ((found ≡ 0) × ((i : ℕ) → start ≤ i → OccursAt needle s i → ⊥))
    ⊎ ((i : ℕ) × (found ≡ i + 1)
        × (start ≤ i)
        × OccursAt needle s i
        × ((j : ℕ) → start ≤ j → j < i → OccursAt needle s j → ⊥))

-- An occurrence has room behind its offset.
OccursAt-room : (needle s : Bytes) (i : ℕ) → OccursAt needle s i → length needle ≤ length s - i
OccursAt-room needle s i (rest, e) =
    omega (arith, length-drop i s, ap length e, length-append needle rest)

-- Nothing at the offset itself: what is found is found behind it.
IsFirst-next :
    (needle s : Bytes) (start found : ℕ)
    → (OccursAt needle s start → ⊥)
    → IsFirst needle s (start + 1) found
    → IsFirst needle s start found
IsFirst-next needle s start found here (inl (e, none_behind)) = inl (
  e,
  λ i le o. elim (ℕ_discrete i start) [
    | yes p ↦ here (subst (OccursAt needle s) p o)
    | no p ↦ none_behind i (ground arith) o
  ],
)
IsFirst-next needle s start found here (inr (i, e, le, o, first)) = inr (
  i,
  e,
  omega arith,
  o,
  λ j le' lt o'. elim (ℕ_discrete j start) [
    | yes p ↦ here (subst (OccursAt needle s) p o')
    | no p ↦ first j (ground arith) lt o'
  ],
)

no_room :
    (needle s : Bytes) (start : ℕ) → length s - start < length needle → IsFirst needle s start 0
no_room needle s start h = inl (refl, λ i le o. absurd (omega (arith, OccursAt-room needle s i o)))

locate_from-IsFirst :
    (needle : Bytes) (rounds : ℕ) (s : Bytes) (start : ℕ)
    → 1 ≤ length needle
    → length s - start + 1 ≤ rounds + length needle
    → IsFirst needle s start (locate_from needle rounds (drop start s) start)
unfolding locate_from
locate_from-IsFirst needle zero s start n h = no_room needle s start (omega arith)
locate_from-IsFirst needle (suc rounds) s start n h =
    elim (Option-cases (strip needle (drop start s))) [
      | inr (rest, e) ↦ rw e (
          inr (
            start,
            refl,
            omega arith,
            (rest, strip-append needle (drop start s) rest e),
            λ j le lt o. absurd (omega arith),
          ))
      | inl e ↦
          rw (e, drop-one start s)
            (IsFirst-next needle s start _ (λ o. absurd_of e (strip_of_append needle o.0) o.1)
              (locate_from-IsFirst needle rounds s (start + 1) n (omega arith)))
    ]
  where
    absurd_of :
        {rest : Bytes}
        → strip needle (drop start s) ≡ none
        → strip needle (needle ++ rest) ≡ some rest
        → drop start s ≡ needle ++ rest
        → ⊥
    absurd_of e f g = cc

-- LOCATE from a position on, for a text to find that has at least one byte: it is 0 where the text
-- does not occur at the position or behind it, and else the position of the first occurrence
-- there, counted in bytes from 1. Without a position it is the same from 1 on.
pub locate-IsFirst :
    (n : ℕ) (needle haystack : Bytes) (start : ℕ)
    → IsFirst (n ∷ needle) haystack start (locate_3arg (n ∷ needle) haystack (suc start))
      × IsFirst (n ∷ needle) haystack 0 (locate_2arg (n ∷ needle) haystack)
unfolding locate_3arg locate_2arg
locate-IsFirst n needle haystack start = (
  if-keeps (IsFirst (n ∷ needle) haystack start) (leb (length haystack) start)
      (λ e. no_room (n ∷ needle) haystack start (ground arith))
      (λ _.
        if-keeps (IsFirst (n ∷ needle) haystack start)
          (ltb (length haystack - start) (length (n ∷ needle)))
          (λ e. no_room (n ∷ needle) haystack start (ltb→lt _ _ e))
          (λ e. locate_from-IsFirst (n ∷ needle) _ haystack start (omega arith) (ground arith))),
  if-keeps (IsFirst (n ∷ needle) haystack 0) (ltb (length haystack) (length (n ∷ needle)))
      (λ e. no_room (n ∷ needle) haystack 0 (ground arith))
      (λ e. locate_from-IsFirst (n ∷ needle) _ haystack 0 (omega arith) (ground arith)),
)
