-- ===== src/Sql/Forward/Decides.antt =====
-- The check of a forwarded statement always answers, and what its answer is worth.
use duckdb_engine.Prelude.{ℕ, ◌<◌, Bool, false, some, Bytes, length, ◌≡◌}
use duckdb_engine.Sql.Forward.{is_literal, Verdict, unsafe, next_byte, go_on}
use duckdb_engine.Sql.Rewrite.{backticks_to_double_quotes}
use duckdb_engine.Sql.Rewrite.Pieces.{joined}
use duckdb_engine.Sql.Forward.Pieces.{IsReading}
use duckdb_engine.Sql.Forward.Agreement.{Reading}

-- The verdict on a byte sends the loop on behind it.
Shortens : ℕ → Verdict → Type 0
Shortens n unsafe = Unit
Shortens n next_byte = Unit
Shortens n (go_on rest) = length rest < n

-- What it means that a statement passes: one split of it into strings, comments and other bytes is
-- the right one with and without backslash escapes, and the rewriting goes by it.
abbrev pub Agreed : Bool → Bytes → Reading → Type 0
Agreed ansi sql ts =
    IsReading (is_literal ansi) sql ts
    × IsReading (λ b. false) sql ts
    × (backticks_to_double_quotes sql ≡ some (joined ts))
