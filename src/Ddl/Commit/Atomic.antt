-- ===== src/Ddl/Commit/Atomic.antt =====
-- An ALTER TABLE reaches DuckDB whole or not at all.
use duckdb_engine.Prelude.{
  Bool, true, false, Bytes, [], ◌∷◌, ◌++◌, List, Option, none, some, All, ◌≡◌, inl, inr, refl, ◌∙◌,
  append_assoc, if-keeps, Bool-cases,
}
use duckdb_engine.Ddl.Commit.{
  Convertor, collect, Query, begin, commit, rollback, statement, Log, run_query, finish,
  execute_statements, execute_alter, commit_inplace_alter_table,
}

-- The query is no COMMIT, or DuckDB refused it.
abbrev pub NotCommitted : Query × Bool → Type 0
NotCommitted (commit, refused) = refused ≡ true
NotCommitted (_, refused) = Unit {0}

abbrev pub accepted : List Bytes → Log
accepted [] = []
accepted (sql ∷ sqls) = (statement sql, false) ∷ accepted sqls

-- What an ALTER TABLE of some texts leaves, behind the queries so far.
abbrev IsWhole : Log → List Bytes → Bool × Log → Type 0
IsWhole before texts (true, log) = All NotCommitted log
IsWhole before texts (false, log) = log ≡ before ++ (accepted texts ++ (commit, false) ∷ [])

All-snoc :
    (log : Log) (q : Query × Bool)
    → All NotCommitted log
    → NotCommitted q
    → All NotCommitted (log ++ q ∷ [])
All-snoc [] q h k = (k, tt)
All-snoc (x ∷ log) q (p, h) k = (p, All-snoc log q h k)

IsWhole-next :
    (log : Log) (sql : Bytes) (sqls : List Bytes) (r : Bool × Log)
    → IsWhole (log ++ (statement sql, false) ∷ []) sqls r
    → IsWhole log (sql ∷ sqls) r
IsWhole-next log sql sqls (true, log') h = h
IsWhole-next log sql sqls (false, log') h =
    h ∙ append_assoc log ((statement sql, false) ∷ []) (accepted sqls ++ (commit, false) ∷ [])

-- What an ALTER TABLE of some texts, or of a refused check, does.
abbrev pub IsAtomic : Option (List Bytes) → Bool × Log → Type 0
IsAtomic texts (true, log) = All NotCommitted log
IsAtomic none (false, log) = ⊥
IsAtomic (some []) (false, log) = log ≡ []
IsAtomic (some (sql ∷ sqls)) (false, log) =
    log ≡ (begin, false) ∷ (accepted (sql ∷ sqls) ++ (commit, false) ∷ [])

IsAtomic-some :
    (sql : Bytes) (sqls : List Bytes) (r : Bool × Log)
    → IsWhole ((begin, false) ∷ []) (sql ∷ sqls) r
    → IsAtomic (some (sql ∷ sqls)) r
IsAtomic-some sql sqls (true, log) h = h
IsAtomic-some sql sqls (false, log) h = h

failed_empty : (texts : Option (List Bytes)) → IsAtomic texts (true, [])
failed_empty texts = tt

module _ (refuses : Log → Query → Bool) (has_active_transaction : Log → Bool) where
  finish-IsWhole :
      (log : Log)
      → All NotCommitted log
      → IsWhole log [] (finish refuses has_active_transaction log)
  unfolding finish run_query
  finish-IsWhole log h = elim (Bool-cases (refuses log commit)) [
    | inl e ↦ rw e (
        if-keeps (IsWhole log []) (has_active_transaction (log ++ (commit, true) ∷ []))
          (λ _.
            All-snoc (log ++ (commit, true) ∷ [])
              (rollback, refuses (log ++ (commit, true) ∷ []) rollback)
              (All-snoc log (commit, true) h refl) tt)
          (λ _. All-snoc log (commit, true) h refl))
    | inr e ↦ rw e refl
  ]

  execute_statements-IsWhole :
      (sqls : List Bytes) (log : Log)
      → All NotCommitted log
      → IsWhole log sqls (execute_statements refuses has_active_transaction sqls log)
  unfolding execute_statements run_query
  execute_statements-IsWhole [] log h = finish-IsWhole log h
  execute_statements-IsWhole (sql ∷ sqls) log h = elim (Bool-cases (refuses log (statement sql))) [
    | inl e ↦ rw e (
        All-snoc (log ++ (statement sql, true) ∷ [])
          (rollback, refuses (log ++ (statement sql, true) ∷ []) rollback)
          (All-snoc log (statement sql, true) h tt) tt)
    | inr e ↦ rw e (
        IsWhole-next log sql sqls _ (
          execute_statements-IsWhole sqls (log ++ (statement sql, false) ∷ [])
            (All-snoc log (statement sql, false) h tt)))
  ]

  -- A commit of ALTER TABLE either fails, and then no COMMIT of it was accepted, or it has nothing
  -- to do and sends nothing, or DuckDB accepted a BEGIN, the texts of all its convertors in their
  -- order and a COMMIT, and nothing else was sent. Where a check refuses, it fails.
  pub commit_inplace_alter_table-IsAtomic :
      (register_fails : Bool) (schema_name table_name : Bytes) (convertors : List Convertor)
      → IsAtomic (collect schema_name table_name convertors) (
          commit_inplace_alter_table refuses has_active_transaction true register_fails schema_name
            table_name convertors)
  unfolding commit_inplace_alter_table execute_alter run_query
  commit_inplace_alter_table-IsAtomic true schema_name table_name convertors =
      failed_empty (collect schema_name table_name convertors)
  commit_inplace_alter_table-IsAtomic false schema_name table_name convertors =
      texts_run (collect schema_name table_name convertors)
    where
      texts_run :
          (texts : Option (List Bytes))
          → IsAtomic texts (elim texts [
            | none ↦ (true, [])
            | some texts' ↦ execute_alter refuses has_active_transaction texts'
          ])
      texts_run none = tt
      texts_run (some []) = refl
      texts_run (some (sql ∷ sqls)) = elim (Bool-cases (refuses [] begin)) [
        | inl e ↦ rw e (tt, tt)
        | inr e ↦ rw e (
            IsAtomic-some sql sqls _
              (execute_statements-IsWhole (sql ∷ sqls) ((begin, false) ∷ []) (tt, tt)))
      ]
