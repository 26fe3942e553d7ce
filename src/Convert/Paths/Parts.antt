-- ===== src/Convert/Paths/Parts.antt =====
-- A path gives back the database and the table that it was made of.
use duckdb_engine.Prelude.{
  ℕ, true, false, Bytes, [], ◌∷◌, ◌++◌, if◌then◌else◌, ◌≡◌, refl, sym, ap, ◌∙◌, All, append_assoc,
  subst,
}
use mathlib.Core.List.{reverse, reverse-append, reverse-reverse}
use duckdb_engine.Convert.Paths.{
  is_separator, seek_separator, skip_separators, is_temporary, DatabaseTableNames,
  database_table_names,
}

-- A name within a path.
abbrev pub IsName : Bytes → Type 0
IsName = All (λ c. is_separator c ≡ false)

abbrev pub AreSeparators : Bytes → Type 0
AreSeparators = All (λ c. is_separator c ≡ true)

-- A name in a path, from either side.
All-append : (P : ℕ → Type 0) (s t : Bytes) → All P s → All P t → All P (s ++ t)
All-append P [] t a b = b
All-append P (c ∷ s) t (p, a) b = (p, All-append P s t a b)

All-reverse : (P : ℕ → Type 0) (s : Bytes) → All P s → All P (reverse s)
All-reverse P [] a = tt
All-reverse P (c ∷ s) (p, a) =
    subst (All P) (sym (reverse-append (c ∷ []) s))
      (All-append P (reverse s) (c ∷ []) (All-reverse P s a) (p, tt))

-- Nothing, or something that begins with a separator: where a scan for a separator stops.
abbrev pub Stops : Bytes → Type 0
Stops [] = Unit
Stops (c ∷ s) = is_separator c ≡ true

seek-name :
    (name rest : Bytes) → IsName name → Stops rest → seek_separator (name ++ rest) ≡ (name, rest)
unfolding seek_separator
seek-name [] [] n stops = refl
seek-name [] (c ∷ s) n stops = rw stops refl
seek-name (c ∷ name) rest (p, n) stops =
    rw p (ap (λ (r : Bytes × Bytes). (c ∷ r.0, r.1)) (seek-name name rest n stops))

-- Nothing, or something that begins with no separator.
abbrev Starts : Bytes → Type 0
Starts [] = Unit
Starts (c ∷ s) = is_separator c ≡ false

skip-separators :
    (seps rest : Bytes) → AreSeparators seps → Starts rest → skip_separators (seps ++ rest) ≡ rest
unfolding skip_separators
skip-separators [] [] a starts = refl
skip-separators [] (c ∷ s) a starts = rw starts refl
skip-separators (c ∷ seps) rest (p, a) starts = rw p (skip-separators seps rest a starts)

separators-Stops :
    (s : Bytes) (c : ℕ) (t : Bytes) → AreSeparators s → is_separator c ≡ true → Stops (s ++ c ∷ t)
separators-Stops [] c t a e = e
separators-Stops (d ∷ s) c t (p, a) e = p

name-Starts :
    (s : Bytes) (c : ℕ) (t : Bytes) → IsName s → is_separator c ≡ false → Starts (s ++ c ∷ t)
name-Starts [] c t n e = e
name-Starts (d ∷ s) c t (p, n) e = p

reverse-split : (c : ℕ) (s t : Bytes) → reverse (c ∷ s) ++ t ≡ reverse s ++ c ∷ t
reverse-split c s t =
    ap (λ u. u ++ t) (reverse-append (c ∷ []) s) ∙ append_assoc (reverse s) (c ∷ []) t

reverse-path :
    (dir db seps table : Bytes)
    → reverse (dir ++ (db ++ (seps ++ table)))
      ≡ reverse table ++ (reverse seps ++ (reverse db ++ reverse dir))
reverse-path dir db seps table =
    reverse-append dir (db ++ (seps ++ table))
    ∙ ap (λ t. t ++ reverse dir) (reverse-append db (seps ++ table))
    ∙ ap (λ t. (t ++ reverse db) ++ reverse dir) (reverse-append seps table)
    ∙ append_assoc (reverse table ++ reverse seps) (reverse db) (reverse dir)
    ∙ append_assoc (reverse table) (reverse seps) (reverse db ++ reverse dir)

-- The names that a constructor makes of the parts of a path.
abbrev names : (Bytes → Bytes) → Bytes → Bytes → DatabaseTableNames
names decode db table = record {
  db_name = decode (reverse db);
  table_name = if is_temporary (reverse table) then reverse table else decode (reverse table);
}

abbrev pub named : (Bytes → Bytes) → Bytes → Bytes → DatabaseTableNames
named decode db table = record {
  db_name = decode db;
  table_name = if is_temporary table then table else decode table;
}

-- A path of a directory, a database, one or more separators and a table gives back the database and
-- the table, decoded; the table's name is left as it is where it begins with #sql. The directory is
-- empty or ends in a separator, and the database has at least one byte.
pub database_table_names-parts :
    (decode : Bytes → Bytes) (dir db seps table : Bytes) (d sep : ℕ)
    → Stops (reverse dir)
    → IsName (d ∷ db)
    → AreSeparators (sep ∷ seps)
    → IsName table
    → database_table_names decode (dir ++ ((d ∷ db) ++ ((sep ∷ seps) ++ table)))
      ≡ named decode (d ∷ db) table
unfolding database_table_names
database_table_names-parts decode dir db seps table d sep stops name separators table_name =
    let front = reverse (d ∷ db) ++ reverse dir in
    let before = reverse (sep ∷ seps) ++ front in
    let scan =
      seek-name (reverse table) before (All-reverse (λ c. is_separator c ≡ false) table table_name)
        (subst Stops (sym (reverse-split sep seps front)) (
          separators-Stops (reverse seps) sep front
            (All-reverse (λ c. is_separator c ≡ true) seps separators.1) separators.0)) in
    let skip =
      skip-separators (reverse (sep ∷ seps)) front
        (All-reverse (λ c. is_separator c ≡ true) (sep ∷ seps) separators)
        (subst Starts (sym (reverse-split d db (reverse dir))) (
          name-Starts (reverse db) d (reverse dir)
            (All-reverse (λ c. is_separator c ≡ false) db name.1) name.0)) in
    let again =
      seek-name (reverse (d ∷ db)) (reverse dir)
        (All-reverse (λ c. is_separator c ≡ false) (d ∷ db) name) stops in
    ap
      (λ path.
        let r = seek_separator path in names decode (seek_separator (skip_separators r.1)).0 r.0)
      (reverse-path dir (d ∷ db) (sep ∷ seps) table)
    ∙ ap (λ (r : Bytes × Bytes). names decode (seek_separator (skip_separators r.1)).0 r.0) scan
    ∙ ap (λ t. names decode (seek_separator t).0 (reverse table)) skip
    ∙ ap (λ (r : Bytes × Bytes). names decode r.0 (reverse table)) again
    ∙ ap
        (λ t. record {
          db_name = decode t;
          table_name =
              if is_temporary (reverse (reverse table))
              then reverse (reverse table)
              else decode (reverse (reverse table));
        })
        (reverse-reverse (d ∷ db))
    ∙ ap (λ t. named decode (d ∷ db) t) (reverse-reverse table)
