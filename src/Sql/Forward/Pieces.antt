-- ===== src/Sql/Forward/Pieces.antt =====
-- A reading of a text splits it into strings, comments and other bytes.
use duckdb_engine.Prelude.{
  ℕ, zero, suc, Bool, [], ◌∷◌, ◌++◌, Option, none, some, Bytes, ◌≡◌, refl, sym, subst,
}
use mathlib.Core.List.{head-eq_of_cons-eq}
use duckdb_engine.Sql.Region.{
  RegionType, outside, comment, quoted, unterminated, Scan, scan_sql_region,
}
use duckdb_engine.Sql.Region.Progress.{scan-joined}
use duckdb_engine.Sql.Region.Found.{IsPiece, Finds, scan-Finds}
use duckdb_engine.Sql.Forward.Agreement.{Reading, prepend, regions_from, read_round}

-- The pieces of the reading, each with what is left behind it, make up the text, and each is a
-- string, a comment or another byte by the rules, where a backslash escapes in the strings that a
-- byte of `escapes` opens.
abbrev pub IsReading : (ℕ → Bool) → Bytes → Reading → Type 0
IsReading escapes s [] = s ≡ []
IsReading escapes s ((t, []) ∷ ts) = ⊥
IsReading escapes s ((t, c ∷ text) ∷ ts) =
    (rest : Bytes) × (c ∷ (text ++ rest) ≡ s)
    × IsPiece (escapes c) t (c ∷ text) rest
    × IsReading escapes rest ts

prepend-parts :
    (t : RegionType × Bytes) (o : Option Reading) (ts : Reading)
    → prepend t o ≡ some ts
    → (us : Reading) × (o ≡ some us) × (t ∷ us ≡ ts)
prepend-parts t none ts h = cc
prepend-parts t (some us) ts h = (us, refl, cc h)

-- A region that a scan finds, in front of a reading of what is behind it.
one_piece :
    (escapes : ℕ → Bool) (c : ℕ) (s : Bytes) (t : RegionType) (text rest : Bytes) (us : Reading)
    → text ++ rest ≡ c ∷ s
    → IsPiece (escapes c) t text rest
    → IsReading escapes rest us
    → IsReading escapes (c ∷ s) ((t, text) ∷ us)
one_piece escapes c s outside [] rest us e h k = h
one_piece escapes c s comment [] rest us e h k = h
one_piece escapes c s quoted [] rest us e h k = h
one_piece escapes c s unterminated [] rest us e h k = cc (e, h)
one_piece escapes c s t (d ∷ text) rest us e h k =
    (rest, e, subst (λ b. IsPiece (escapes b) t (d ∷ text) rest) (sym (head-eq_of_cons-eq e)) h, k)

round-IsReading :
    (escapes : ℕ → Bool) (c : ℕ) (s : Bytes) (r : Scan) (f : Bytes → Option Reading) (ts : Reading)
    → r.text ++ r.rest ≡ c ∷ s
    → ((t : RegionType) → r.region ≡ t → Finds (escapes c) c s r t)
    → ((s' : Bytes) (us : Reading) → f s' ≡ some us → IsReading escapes s' us)
    → read_round c s r f ≡ some ts
    → IsReading escapes (c ∷ s) ts
round-IsReading escapes c s r f ts split finds more = of_region r.region refl
  where
    behind :
        (t : RegionType)
        → IsPiece (escapes c) t r.text r.rest
        → prepend (t, r.text) (f r.rest) ≡ some ts
        → IsReading escapes (c ∷ s) ts
    behind t piece h =
        let (us, found, e) = prepend-parts (t, r.text) (f r.rest) ts h in
        subst (IsReading escapes (c ∷ s)) e
          (one_piece escapes c s t r.text r.rest us split piece (more r.rest us found))

    of_region :
        (t : RegionType)
        → r.region ≡ t
        → elim t [
          | outside ↦ prepend (outside, c ∷ []) (f s)
          | other ↦ prepend (other, r.text) (f r.rest)
        ]
          ≡ some ts
        → IsReading escapes (c ∷ s) ts
    of_region outside e h =
        let (us, found, same) = prepend-parts (outside, c ∷ []) (f s) ts h in
        subst (IsReading escapes (c ∷ s)) same (s, refl, finds outside e, more s us found)
    of_region comment e h = behind comment (finds comment e) h
    of_region quoted e h = behind quoted (finds quoted e) h
    of_region unterminated e h = behind unterminated (finds unterminated e) h

pub regions-IsReading :
    (escapes : ℕ → Bool) (fuel : ℕ) (s : Bytes) (ts : Reading)
    → regions_from escapes fuel s ≡ some ts
    → IsReading escapes s ts
unfolding regions_from
regions-IsReading escapes zero [] ts h =
    let e : [] ≡ ts = cc h in subst (IsReading escapes []) e refl
regions-IsReading escapes (suc fuel) [] ts h =
    let e : [] ≡ ts = cc h in subst (IsReading escapes []) e refl
regions-IsReading escapes zero (c ∷ s) ts h = cc
regions-IsReading escapes (suc fuel) (c ∷ s) ts h =
    round-IsReading escapes c s (scan_sql_region (escapes c) (c ∷ s)) (regions_from escapes fuel) ts
      (scan-joined (escapes c) (c ∷ s)) (scan-Finds (escapes c) c s)
      (regions-IsReading escapes fuel) h
