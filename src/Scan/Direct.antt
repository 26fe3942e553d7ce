-- ===== src/Scan/Direct.antt =====
-- A direct scan gives the rows that the handler gives, and takes every error of the handler for the
-- end of the data.
use duckdb_engine.Prelude.{
  ℕ, zero, suc, ◌<◌, Bool, true, false, List, [], ◌∷◌, some, length, length-append, append-nil, ◌≡◌,
  inl, inr, refl, sym, ap, ◌∙◌, arith,
}
use duckdb_engine.Scan.{
  Ending, MdbScanGlobalState, send_rows, direct_deliver, direct_scan, prepend, drain, direct_of,
}
use duckdb_engine.Scan.Fiber.{Ready, Ready-after, send_rows-cases, drain-chunk, drain-empty}

module _ {A : Type 0} where
  -- A scan under way.
  abbrev running : Bool → Bool → List A → Ending → MdbScanGlobalState (List A × Ending)
  running inited fails rows ending = record {
    source = (rows, ending);
    has_table = true;
    inited = inited;
    init_fails = fails;
    finished = false;
  }

  direct_step :
      (inited fails : Bool) (room : ℕ) (rows : List A) (ending : Ending)
      (r : List A × List A × Bool)
      → Ready inited fails
      → send_rows room rows ≡ r
      → direct_scan room (running inited fails rows ending)
        ≡ direct_deliver (running true fails rows ending) r
  unfolding direct_scan
  direct_step inited fails room rows ending r ready e = rw (ready, e)

  abbrev ended : Bool → Ending → MdbScanGlobalState (List A × Ending)
  ended fails ending = record {
    source = ([], ending);
    has_table = true;
    inited = true;
    init_fails = fails;
    finished = true;
  }

  drain-ended :
      (fails : Bool) (room fuel : ℕ) (ending : Ending)
      → drain (direct_scan room) (suc fuel) (ended fails ending) ≡ some ([], false)
  unfolding drain direct_scan
  drain-ended fails room fuel ending = refl

  direct_last :
      (inited fails : Bool) (room fuel : ℕ) (rows : List A) (ending : Ending)
      → Ready inited fails
      → send_rows room rows ≡ (rows, [], false)
      → length rows < suc fuel
      → drain (direct_scan room) (suc fuel) (running inited fails rows ending) ≡ some (rows, false)
  direct_last inited fails room fuel [] ending ready e h =
      drain-empty (direct_scan room) fuel (running inited fails [] ending) (ended fails ending)
        (direct_step inited fails room [] ending ([], [], false) ready e)
  direct_last inited fails room zero (r ∷ rs) ending ready e h = absurd (omega arith)
  direct_last inited fails room (suc fuel) (r ∷ rs) ending ready e h =
      drain-chunk (direct_scan room) (suc fuel) (running inited fails (r ∷ rs) ending)
        (ended fails ending) r rs
        (direct_step inited fails room (r ∷ rs) ending (r ∷ rs, [], false) ready e)
      ∙ ap (prepend (r ∷ rs)) (drain-ended fails room fuel ending)
      ∙ ap (λ t. some (r ∷ t, false)) (append-nil rs)

  direct_rows :
      (inited fails : Bool) (room fuel : ℕ) (rows : List A) (ending : Ending)
      → Ready inited fails
      → length rows < fuel
      → drain (direct_scan room) fuel (running inited fails rows ending) ≡ some (rows, false)
  direct_rows inited fails room zero rows ending ready h = absurd (omega arith)
  direct_rows inited fails room (suc fuel) rows ending ready h = elim (send_rows-cases room rows) [
    | inl (r, rs, behind, e, split) ↦
        drain-chunk (direct_scan room) fuel (running inited fails rows ending)
          (running true fails behind ending) r rs
          (direct_step inited fails room rows ending (r ∷ rs, behind, true) ready e)
        ∙ ap (prepend (r ∷ rs)) (
            direct_rows true fails room fuel behind ending (Ready-after fails)
              (omega (arith, ap length split, length-append rs behind)))
        ∙ ap (λ t. some (t, false)) (sym split)
    | inr e ↦ direct_last inited fails room fuel rows ending ready e h
  ]

  -- A direct scan that DuckDB drains gives every row that the handler gave, once and in order, and
  -- then an end: also where the handler stopped at a failure, so that rows may be missing and nobody
  -- is told. Where ha_rnd_init fails, or the table is missing, it gives an end with no rows.
  pub direct_scan-drain :
      (room fuel : ℕ) (rows : List A) (ending : Ending) (fails : Bool)
      → length rows < fuel
      → (drain (direct_scan room) fuel (direct_of true false rows ending) ≡ some (rows, false))
        × (drain (direct_scan room) fuel (direct_of true true rows ending) ≡ some ([], false))
        × (drain (direct_scan room) fuel (direct_of false fails rows ending) ≡ some ([], false))
  direct_scan-drain room zero rows ending fails h = absurd (omega arith)
  direct_scan-drain room (suc fuel) rows ending fails h = (
    direct_rows false false room (suc fuel) rows ending refl h,
    unfold drain direct_scan in refl,
    unfold drain direct_scan in refl,
  )
