-- ===== src/Scan/Fiber.antt =====
-- A scan over a fiber gives every row once and in order, or ends by an exception.
use duckdb_engine.Prelude.{
  ℕ, zero, suc, ◌<◌, Bool, true, false, not, ◌&&◌, List, [], ◌∷◌, ◌++◌, Option, some, length,
  length-append, append-nil, append_assoc, ◌≡◌, ◌⊎◌, inl, inr, refl, sym, ap, ◌∙◌, arith,
}
use duckdb_engine.Scan.{
  Ending, end_of_data, failure, FiberScanState, MdbScanGlobalState, Output, chunk, thrown,
  send_rows, resume, fiber_scan, prepend, collect, drain, fiber_of, settle, deliver,
}

-- The source is initialised, or the initialisation will not fail.
abbrev pub Ready : Bool → Bool → Type 0
Ready inited fails = (fails && not inited) ≡ false

pub Ready-after : (fails : Bool) → Ready true fails
Ready-after true = refl
Ready-after false = refl

module _ {A : Type 0} where
  -- A chunk that got full, with the rows behind it.
  abbrev pub Full : ℕ → List A → Type 0
  Full room rows =
      (r : A) × (rs : List A) × (behind : List A) × (send_rows room rows ≡ (r ∷ rs, behind, true))
      × (rows ≡ r ∷ (rs ++ behind))

  pub send_rows-cases :
      (room : ℕ) (rows : List A) → Full room rows ⊎ (send_rows room rows ≡ (rows, [], false))
  unfolding send_rows
  send_rows-cases room [] = inr refl
  send_rows-cases zero (r ∷ rs) = inl (r, [], rs, refl, refl)
  send_rows-cases (suc room) (r ∷ rs) = elim (send_rows-cases room rs) [
    | inl (x, xs, behind, e, split) ↦ inl (r, x ∷ xs, behind, rw e refl, ap (◌∷◌ r) split)
    | inr e ↦ inr (rw e refl)
  ]

  pub drain-chunk :
      {S : Type 0} (call : S → S × Output A) (fuel : ℕ) (s s' : S) (r : A) (rs : List A)
      → call s ≡ (s', chunk (r ∷ rs))
      → drain call (suc fuel) s ≡ prepend (r ∷ rs) (drain call fuel s')
  unfolding drain
  drain-chunk call fuel s s' r rs e = ap (λ p. collect p.1 (drain call fuel p.0)) e

  pub drain-empty :
      {S : Type 0} (call : S → S × Output A) (fuel : ℕ) (s s' : S)
      → call s ≡ (s', chunk [])
      → drain call (suc fuel) s ≡ some ([], false)
  unfolding drain
  drain-empty call fuel s s' e = ap (λ p. collect p.1 (drain call fuel p.0)) e

  drain-thrown :
      {S : Type 0} (call : S → S × Output A) (fuel : ℕ) (s s' : S)
      → call s ≡ (s', thrown)
      → drain call (suc fuel) s ≡ some ([], true)
  unfolding drain
  drain-thrown call fuel s s' e = ap (λ p. collect p.1 (drain call fuel p.0)) e

  -- A scan under way, whose fiber is initialised, or that has its table and whose fiber can be.
  abbrev running : Bool → Bool → List A → Ending → List A → MdbScanGlobalState (FiberScanState A)
  running inited fails rows ending buffer = record {
    source = record {
      rows = rows;
      ending = ending;
      buffer = buffer;
      finished = false;
      error = false;
    };
    has_table = true;
    inited = inited;
    init_fails = fails;
    finished = false;
  }

  scan_step :
      (inited fails : Bool) (room : ℕ) (rows : List A) (ending : Ending) (buffer : List A)
      (r : List A × List A × Bool)
      → Ready inited fails
      → send_rows room rows ≡ r
      → fiber_scan room (running inited fails rows ending buffer)
        ≡ deliver
            (running true fails rows ending buffer)
            (settle (running true fails rows ending buffer).source r)
  unfolding fiber_scan resume
  scan_step false true room rows ending buffer r ready e = cc ready
  scan_step false false room rows ending buffer r ready e =
      ap
        (λ p.
          deliver (running true false rows ending buffer)
            (settle (running true false rows ending buffer).source p))
        e
  scan_step true true room rows ending buffer r ready e =
      ap
        (λ p.
          deliver (running true true rows ending buffer)
            (settle (running true true rows ending buffer).source p))
        e
  scan_step true false room rows ending buffer r ready e =
      ap
        (λ p.
          deliver (running true false rows ending buffer)
            (settle (running true false rows ending buffer).source p))
        e

  abbrev ended : Bool → List A → MdbScanGlobalState (FiberScanState A)
  ended fails rows = record {
    source = record {
      rows = [];
      ending = end_of_data;
      buffer = rows;
      finished = true;
      error = false;
    };
    has_table = true;
    inited = true;
    init_fails = fails;
    finished = true;
  }

  drain-ended :
      (fails : Bool) (room fuel : ℕ) (rows : List A)
      → drain (fiber_scan room) (suc fuel) (ended fails rows) ≡ some ([], false)
  unfolding drain fiber_scan
  drain-ended fails room fuel rows = refl

  -- The last chunk of a SELECT that ends well.
  scan_last :
      (inited fails : Bool) (room fuel : ℕ) (rows buffer : List A)
      → Ready inited fails
      → send_rows room rows ≡ (rows, [], false)
      → length rows < suc fuel
      → drain (fiber_scan room) (suc fuel) (running inited fails rows end_of_data buffer)
        ≡ some (rows, false)
  scan_last inited fails room fuel [] buffer ready e h =
      drain-empty (fiber_scan room) fuel (running inited fails [] end_of_data buffer) _
        (scan_step inited fails room [] end_of_data buffer ([], [], false) ready e)
  scan_last inited fails room zero (r ∷ rs) buffer ready e h = absurd (omega arith)
  scan_last inited fails room (suc fuel) (r ∷ rs) buffer ready e h =
      drain-chunk (fiber_scan room) (suc fuel) (running inited fails (r ∷ rs) end_of_data buffer)
        (ended fails (r ∷ rs)) r rs
        (scan_step inited fails room (r ∷ rs) end_of_data buffer (r ∷ rs, [], false) ready e)
      ∙ ap (prepend (r ∷ rs)) (drain-ended fails room fuel (r ∷ rs))
      ∙ ap (λ t. some (r ∷ t, false)) (append-nil rs)

  shorter :
      (fuel : ℕ) (rows : List A) (r : A) (rs behind : List A)
      → rows ≡ r ∷ (rs ++ behind)
      → length rows < suc fuel
      → length behind < fuel
  shorter fuel rows r rs behind split h = omega (arith, ap length split, length-append rs behind)

  fiber_rows :
      (inited fails : Bool) (room fuel : ℕ) (rows buffer : List A)
      → Ready inited fails
      → length rows < fuel
      → drain (fiber_scan room) fuel (running inited fails rows end_of_data buffer)
        ≡ some (rows, false)
  fiber_rows inited fails room zero rows buffer ready h = absurd (omega arith)
  fiber_rows inited fails room (suc fuel) rows buffer ready h = elim (send_rows-cases room rows) [
    | inl (r, rs, behind, e, split) ↦
        drain-chunk (fiber_scan room) fuel (running inited fails rows end_of_data buffer)
          (running true fails behind end_of_data (r ∷ rs)) r rs
          (scan_step inited fails room rows end_of_data buffer (r ∷ rs, behind, true) ready e)
        ∙ ap (prepend (r ∷ rs)) (
            fiber_rows true fails room fuel behind (r ∷ rs) (Ready-after fails)
              (shorter fuel rows r rs behind split h))
        ∙ ap (λ t. some (t, false)) (sym split)
    | inr e ↦ scan_last inited fails room fuel rows buffer ready e h
  ]

  -- The rows before a failure that DuckDB gets, in full chunks.
  abbrev pub Fails : List A → Option (List A × Bool) → Type 0
  Fails rows o = (got : List A) × (lost : List A) × (o ≡ some (got, true)) × (rows ≡ got ++ lost)

  fiber-Fails :
      (inited fails : Bool) (room fuel : ℕ) (rows buffer : List A)
      → Ready inited fails
      → length rows < fuel
      → Fails rows (drain (fiber_scan room) fuel (running inited fails rows failure buffer))
  fiber-Fails inited fails room zero rows buffer ready h = absurd (omega arith)
  fiber-Fails inited fails room (suc fuel) rows buffer ready h = elim (send_rows-cases room rows) [
    | inl (r, rs, behind, e, split) ↦
        let (got, lost, more, parts) =
          fiber-Fails true fails room fuel behind (r ∷ rs) (Ready-after fails)
            (shorter fuel rows r rs behind split h) in
        (
          r ∷ (rs ++ got),
          lost,
          drain-chunk (fiber_scan room) fuel (running inited fails rows failure buffer)
                (running true fails behind failure (r ∷ rs)) r rs
                (scan_step inited fails room rows failure buffer (r ∷ rs, behind, true) ready e)
              ∙ ap (prepend (r ∷ rs)) more,
          split ∙ ap (λ t. r ∷ (rs ++ t)) parts ∙ ap (◌∷◌ r) (sym (append_assoc rs got lost)),
        )
    | inr e ↦ (
      [],
      rows,
      drain-thrown (fiber_scan room) fuel (running inited fails rows failure buffer) _
          (scan_step inited fails room rows failure buffer (rows, [], false) ready e),
      refl,
    )
  ]

  -- A scan over a fiber that DuckDB drains gives every row of the SELECT once and in order, if the
  -- SELECT ends well; if it fails, DuckDB gets a first part of the rows and then an exception, never
  -- an end. A call more than there are rows is enough, for chunks of any size. Where the table is
  -- missing, or the fiber cannot be initialised, DuckDB gets an end with no rows and no exception.
  pub fiber_scan-drain :
      (room fuel : ℕ) (rows : List A) (ending : Ending) (fails : Bool)
      → length rows < fuel
      → (drain (fiber_scan room) fuel (fiber_of true false rows end_of_data) ≡ some (rows, false))
        × Fails rows (drain (fiber_scan room) fuel (fiber_of true false rows failure))
        × (drain (fiber_scan room) fuel (fiber_of true true rows ending) ≡ some ([], false))
        × (drain (fiber_scan room) fuel (fiber_of false fails rows ending) ≡ some ([], false))
  fiber_scan-drain room fuel rows ending fails h = (
    fiber_rows false false room fuel rows [] refl h,
    fiber-Fails false false room fuel rows [] refl h,
    no_fiber fuel h,
    no_table fuel h,
  )
    where
      no_fiber :
          (fuel : ℕ)
          → length rows < fuel
          → drain (fiber_scan room) fuel (fiber_of true true rows ending) ≡ some ([], false)
      no_fiber zero h = absurd (omega arith)
      no_fiber (suc fuel) h = unfold drain fiber_scan in refl

      no_table :
          (fuel : ℕ)
          → length rows < fuel
          → drain (fiber_scan room) fuel (fiber_of false fails rows ending) ≡ some ([], false)
      no_table zero h = absurd (omega arith)
      no_table (suc fuel) h = unfold drain fiber_scan in refl
