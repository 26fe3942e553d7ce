-- ===== src/Ddl/Defaults/Blob.antt =====
-- The blob of the expressions of a table, read back.
use duckdb_engine.Prelude.{
  ℕ, zero, suc, ◌+◌, ◌*◌, ◌/◌, ◌%◌, ◌≤◌, Bool, true, false, ◌&&◌, [], ◌∷◌, ◌++◌, List, Bytes,
  length, length-append, Option, some, leb, ◌==◌, if◌then◌else◌, ◌≡◌, refl, ap, arith,
}
use duckdb_engine.Functions.Texts.{take, drop}
use duckdb_engine.Ddl.Defaults.{read_string, default_expr_from, get_default_expr_from_vcol_defs}

-- An entry of the blob. A type of 2 is a default.
pub record Entry : Type 0 where
  pub type : ℕ
  pub field_nr : ℕ
  pub name : Bytes
  pub expr : Bytes

-- pack_vcols of the server: a header of six bytes, the name, the expression.
unfoldable pub encode : List Entry → Bytes
encode [] = []
encode (e ∷ es) =
    e.type
    ∷ e.field_nr % 256
    ∷ e.field_nr / 256
    ∷ length e.expr % 256
    ∷ length e.expr / 256
    ∷ length e.name
    ∷ (e.name ++ (e.expr ++ encode es))

-- The expression of the first default of a field, or "".
unfoldable pub default_in : List Entry → ℕ → Bytes
default_in [] target = []
default_in (e ∷ es) target =
    if (e.type == 2) && (e.field_nr == target) then e.expr else default_in es target

drop-append : (s t : Bytes) → drop (length s) (s ++ t) ≡ t
drop-append [] t = refl
drop-append (c ∷ s) t = drop-append s t

take-append : (s t : Bytes) → take (length s) (s ++ t) ≡ s
take-append [] t = refl
take-append (c ∷ s) t = ap (◌∷◌ c) (take-append s t)

read-append : (s t : Bytes) → read_string (length s) (s ++ t) ≡ some s
unfolding read_string
read-append s t = rw (room, take-append s t)
  where
    room : leb (length s) (length (s ++ t)) ≡ true
    room = ground (arith, length-append s t)

two_bytes : (n : ℕ) → n % 256 + 256 * (n / 256) ≡ n
two_bytes n = omega arith

some_if :
    (b : Bool) (s t : Bytes)
    → ◌≡◌ {A = Option Bytes} (if b then some s else some t) (some (if b then s else t))
some_if true s t = refl
some_if false s t = refl

read_entries :
    (fuel : ℕ) (es : List Entry) (target : ℕ)
    → length es ≤ fuel
    → default_expr_from fuel (encode es) target ≡ some (default_in es target)
unfolding encode default_in default_expr_from
read_entries zero [] target h = refl
read_entries (suc fuel) [] target h = refl
read_entries zero (e ∷ es) target h = absurd (omega arith)
read_entries (suc fuel) (e ∷ es) target h =
    rw
      (
        two_bytes e.field_nr,
        two_bytes (length e.expr),
        drop-append e.name (e.expr ++ encode es),
        drop-append e.expr (encode es),
        read-append e.expr (encode es),
        read_entries fuel es target (omega arith),
      )
      (some_if ((e.type == 2) && (e.field_nr == target)) e.expr (default_in es target))

entries-le : (es : List Entry) → length es ≤ length (encode es)
unfolding encode
entries-le [] = omega arith
entries-le (e ∷ es) = omega (
  arith,
  entries-le es,
  length-append e.name (e.expr ++ encode es),
  length-append e.expr (encode es),
)

-- Reading the blob of a table's expressions gives the expression of the field's first default, or
-- none, whatever other expressions, names and bytes are in the blob: the loop ends, and it does not
-- read behind the blob.
pub get_default_expr-encode :
    (es : List Entry) (target : ℕ)
    → get_default_expr_from_vcol_defs (encode es) target ≡ some (default_in es target)
unfolding get_default_expr_from_vcol_defs
get_default_expr-encode es target = read_entries (length (encode es)) es target (entries-le es)
