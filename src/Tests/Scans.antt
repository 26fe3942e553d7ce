-- ===== src/Tests/Scans.antt =====
-- A table of three rows, read in chunks of two.
use duckdb_engine.Prelude.{ℕ, true, false, List, [], ◌∷◌, some, ◌≡◌, arith}
use duckdb_engine.Scan.{end_of_data, failure, fiber_scan, direct_scan, drain, fiber_of, direct_of}
use duckdb_engine.Scan.Fiber.{Fails, fiber_scan-drain}
use duckdb_engine.Scan.Direct.{direct_scan-drain}

abbrev three_rows : List ℕ
three_rows = 10 ∷ 20 ∷ 30 ∷ []

fiber_scan-drain_example :
    (drain (fiber_scan 1) 4 (fiber_of true false three_rows end_of_data) ≡ some (three_rows, false))
    × Fails three_rows (drain (fiber_scan 1) 4 (fiber_of true false three_rows failure))
    × (drain (fiber_scan 1) 4 (fiber_of true true three_rows failure) ≡ some ([], false))
    × (drain (fiber_scan 1) 4 (fiber_of false true three_rows failure) ≡ some ([], false))
fiber_scan-drain_example = fiber_scan-drain 1 4 three_rows failure true (omega arith)

direct_scan-drain_example :
    (drain (direct_scan 1) 4 (direct_of true false three_rows failure) ≡ some (three_rows, false))
    × (drain (direct_scan 1) 4 (direct_of true true three_rows failure) ≡ some ([], false))
    × (drain (direct_scan 1) 4 (direct_of false true three_rows failure) ≡ some ([], false))
direct_scan-drain_example = direct_scan-drain 1 4 three_rows failure true (omega arith)
