-- ===== src/Scan.antt =====
-- runtime/fiber_scan.cc and runtime/cross_engine_scan.cc: the scan of another engine's table, as
-- chunks of rows. On the fiber path a SELECT of the server runs on a fiber that yields whenever its
-- chunk is full; on the direct path the scan function calls the handler itself. What the server does
-- is a parameter: the rows that it produces and how it ends.
pub mod Fiber
pub mod Direct
use duckdb_engine.Prelude.{
  ℕ, zero, suc, Bool, true, false, not, ◌&&◌, List, [], ◌∷◌, ◌++◌, Option, none, some, ◌||◌,
  if◌then◌else◌,
}

pub data Ending : Type 0 where
  end_of_data failure : Ending

-- FiberScanState, with the part of the SELECT that is still to run.
pub record FiberScanState {ℓ} (A : Type ℓ) : Type ℓ where
  pub rows : List A
  pub ending : Ending
  pub buffer : List A
  pub finished : Bool
  pub error : Bool

-- MdbScanGlobalState, over the source that it reads from. `has_table` is that the table was found.
-- `inited` is scan_started on the fiber path and rnd_inited on the direct one, and `init_fails` what
-- FiberScanState::init or ha_rnd_init answers.
pub record MdbScanGlobalState {ℓ} (S : Type ℓ) : Type ℓ where
  pub source : S
  pub has_table : Bool
  pub inited : Bool
  pub init_fails : Bool
  pub finished : Bool

-- What a call of the scan function gives DuckDB: a chunk, or an exception.
pub data Output {ℓ} (A : Type ℓ) : Type ℓ where
  chunk : List A → Output A
  thrown : Output A

module _ {ℓ} {A : Type ℓ} where
  -- send_data row by row: the rows of the chunk, those behind it, and whether the chunk got full and
  -- the fiber yielded. `room` is one less than the rows that still fit.
  unfoldable pub send_rows : ℕ → List A → List A × List A × Bool
  send_rows room [] = ([], [], false)
  send_rows zero (r ∷ rs) = (r ∷ [], rs, true)
  send_rows (suc room) (r ∷ rs) =
      let (sent, behind, yielded) = send_rows room rs in (r ∷ sent, behind, yielded)

  -- The fiber at its next yield or at its end: send_eof gives the rest of the rows, an error none.
  abbrev pub settle : FiberScanState A → List A × List A × Bool → FiberScanState A
  settle f (sent, behind, true) = record f { rows = behind; buffer = sent }
  settle f (sent, behind, false) = elim f.ending [
    | end_of_data ↦ record f { rows = []; buffer = sent; finished = true }
    | failure ↦ record f { rows = []; buffer = []; finished = true; error = true }
  ]

  -- fiber_context_spawn or fiber_context_continue
  unfoldable pub resume : ℕ → FiberScanState A → FiberScanState A
  unfolding send_rows
  resume room f = settle f (send_rows room f.rows)

  -- What mdb_scan_function makes of the fiber behind it.
  abbrev pub deliver :
      MdbScanGlobalState (FiberScanState A)
      → FiberScanState A
      → MdbScanGlobalState (FiberScanState A) × Output A
  deliver s f =
      if f.error
      then (record s { source = f; finished = true }, thrown)
      else elim f.buffer as (λ _. MdbScanGlobalState (FiberScanState A) × Output A) [
        | [] ↦ (record s { source = f; finished = true }, chunk [])
        | r ∷ rs ↦ (record s { source = f; finished = f.finished || s.finished }, chunk (r ∷ rs))
      ]

  -- The fiber path of mdb_scan_function.
  unfoldable pub fiber_scan :
      ℕ → MdbScanGlobalState (FiberScanState A) → MdbScanGlobalState (FiberScanState A) × Output A
  unfolding resume
  fiber_scan room s =
      if s.finished
      then (s, chunk [])
      else if not s.has_table || s.init_fails && not s.inited
      then (record s { finished = true }, chunk [])
      else deliver (record s { inited = true }) (resume room s.source)

  abbrev pub direct_deliver :
      MdbScanGlobalState (List A × Ending)
      → List A × List A × Bool
      → MdbScanGlobalState (List A × Ending) × Output A
  direct_deliver s (sent, behind, full) =
      (record s { source = (behind, s.source.1); finished = not full }, chunk sent)

  -- The direct path: ha_rnd_next until the chunk is full or the handler gives an error, of which
  -- HA_ERR_END_OF_FILE is one.
  unfoldable pub direct_scan :
      ℕ → MdbScanGlobalState (List A × Ending) → MdbScanGlobalState (List A × Ending) × Output A
  unfolding send_rows
  direct_scan room s =
      if s.finished
      then (s, chunk [])
      else if not s.has_table || s.init_fails && not s.inited
      then (record s { finished = true }, chunk [])
      else direct_deliver (record s { inited = true }) (send_rows room s.source.0)

  -- DuckDB calls the scan function until it gets an empty chunk or an exception: the rows that it
  -- got, and whether the scan ended by an exception.
  abbrev pub prepend : List A → Option (List A × Bool) → Option (List A × Bool)
  prepend rs none = none
  prepend rs (some (more, failed)) = some (rs ++ more, failed)

  abbrev pub collect : Output A → Option (List A × Bool) → Option (List A × Bool)
  collect thrown more = some ([], true)
  collect (chunk []) more = some ([], false)
  collect (chunk (r ∷ rs)) more = prepend (r ∷ rs) more

  unfoldable pub drain {κ} : {S : Type κ} → (S → S × Output A) → ℕ → S → Option (List A × Bool)
  drain call zero s = none
  drain call (suc fuel) s = collect (call s).1 (drain call fuel (call s).0)

  -- A scan before its first call.
  abbrev pub fiber_of : Bool → Bool → List A → Ending → MdbScanGlobalState (FiberScanState A)
  fiber_of has_table init_fails rows ending = record {
    source = record { rows = rows; ending = ending; buffer = []; finished = false; error = false };
    has_table = has_table;
    inited = false;
    init_fails = init_fails;
    finished = false;
  }

  abbrev pub direct_of : Bool → Bool → List A → Ending → MdbScanGlobalState (List A × Ending)
  direct_of has_table init_fails rows ending = record {
    source = (rows, ending);
    has_table = has_table;
    inited = false;
    init_fails = init_fails;
    finished = false;
  }
