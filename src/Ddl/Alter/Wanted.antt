-- ===== src/Ddl/Alter/Wanted.antt =====
-- ALTER COLUMN leaves DuckDB's column with the default that the new table has.
use duckdb_engine.Prelude.{
  Bool, true, false, not, ◌&&◌, ◌||◌, Bytes, [], codes, Option, none, some, ◌≡◌, ◌⊎◌, inl, inr,
  refl, sym, ap, subst, ◌∙◌, arith, if◌then◌else◌, if-keeps, Bool-cases,
}
use duckdb_engine.Convert.Types.{same_bytes}
use duckdb_engine.Convert.Types.Compare.{same_bytes-eq}
use duckdb_engine.Ddl.Columns.{Column}
use duckdb_engine.Ddl.Defaults.{
  get_expr_default_text, is_sequence_default, has_mariadb_sequence_func,
  get_field_default_for_duckdb, is_bit,
}
use duckdb_engine.Ddl.Alter.{
  DefaultChange, keep_default, drop_default, set_default, default_of, same_default, literal_change,
  default_change,
}

-- A default of DuckDB, where the literal NULL is as good as none.
unfoldable pub value_default : Bytes → Option Bytes
unfolding same_bytes
value_default v = if same_bytes v (codes "NULL") then none else some v

-- The default that DuckDB is to have for a column: none for a sequence.
unfoldable pub wanted : Column → Option Bytes
wanted c =
    if c.no_default_value
    then none
    else if has_mariadb_sequence_func (get_expr_default_text c)
    then none
    else value_default (default_of c)

-- DuckDB's default of a column behind the statement for the change.
unfoldable pub changed_default : DefaultChange → Option Bytes → Column → Option Bytes
changed_default keep_default before new = before
changed_default drop_default before new = none
changed_default set_default before new = value_default (default_of new)

-- Two literals with the same value and in the same notation, that of bits or that of a string.
abbrev pub same_text : Option Bytes → Option Bytes → Bool
same_text none none = true
same_text none (some w) = false
same_text (some v) none = false
same_text (some v) (some w) = same_bytes v w

abbrev pub identical : Column → Column → Bool
identical old new =
    (if is_bit old.field.real_type
      then is_bit new.field.real_type
      else not (is_bit new.field.real_type))
    && same_text old.default_str new.default_str

-- The old and the new default are literals that are not identical, and that the server's collation
-- takes for the same.
pub record AreSameLiterals (same_value : Bytes → Bytes → Bool) (old new : Column) : Type 0 where
  pub old_literal : get_expr_default_text old ≡ []
  pub new_literal : get_expr_default_text new ≡ []
  pub differ : identical old new ≡ false
  pub same : same_default same_value old.default_str new.default_str ≡ true

no_sequence : has_mariadb_sequence_func [] ≡ false
unfolding has_mariadb_sequence_func
no_sequence = refl

wanted-none : (c : Column) → c.no_default_value ≡ true → wanted c ≡ none
unfolding wanted
wanted-none c h = rw h

wanted-sequence :
    (c : Column) → has_mariadb_sequence_func (get_expr_default_text c) ≡ true → wanted c ≡ none
unfolding wanted
wanted-sequence c h =
    rw h (if-keeps (λ (o : Option Bytes). o ≡ none) c.no_default_value (λ _. refl) (λ _. refl))

wanted-value :
    (c : Column)
    → c.no_default_value ≡ false
    → has_mariadb_sequence_func (get_expr_default_text c) ≡ false
    → wanted c ≡ value_default (default_of c)
unfolding wanted
wanted-value c h k = rw (k, h)

-- A literal NULL is no default.
wanted-null : (c : Column) → get_expr_default_text c ≡ [] → c.default_null ≡ true → wanted c ≡ none
unfolding wanted default_of same_bytes get_field_default_for_duckdb value_default
wanted-null c e h =
    rw (e, h, no_sequence)
      (if-keeps (λ (o : Option Bytes). o ≡ none) c.no_default_value (λ _. refl) (λ _. refl))

-- What is wanted depends on the flag and on the text, where there is one.
wanted-text :
    (old new : Column)
    → old.no_default_value ≡ new.no_default_value
    → get_expr_default_text old ≡ get_expr_default_text new
    → same_bytes (get_expr_default_text new) [] ≡ false
    → wanted old ≡ wanted new
unfolding wanted default_of
wanted-text old new f e h = rw (e, h, f)

same_text-eq : (v w : Option Bytes) → same_text v w ≡ true → v ≡ w
same_text-eq none none h = refl
same_text-eq none (some w) h = cc
same_text-eq (some v) none h = cc
same_text-eq (some v) (some w) h = ap some (same_bytes-eq v w h)

identical-eq :
    (a b : Bool) (v w : Option Bytes)
    → ((if a then b else not b) && same_text v w) ≡ true
    → (a ≡ b) × (v ≡ w)
identical-eq true true v w h = (refl, same_text-eq v w h)
identical-eq true false v w h = cc
identical-eq false true v w h = cc
identical-eq false false v w h = (refl, same_text-eq v w h)

-- Two columns with identical literals want the same default.
wanted-literal :
    (old new : Column)
    → old.no_default_value ≡ new.no_default_value
    → get_expr_default_text old ≡ []
    → get_expr_default_text new ≡ []
    → old.default_null ≡ new.default_null
    → identical old new ≡ true
    → wanted old ≡ wanted new
unfolding wanted default_of get_field_default_for_duckdb
wanted-literal old new f o n d h =
    let (kind, text) =
      identical-eq (is_bit old.field.real_type) (is_bit new.field.real_type) old.default_str
        new.default_str h in
    rw (o, n, kind, f, d, text)

module _ (same_value : Bytes → Bytes → Bool) (old new : Column) where
  Leads : DefaultChange → Type 0
  Leads change =
      (changed_default change (wanted old) new ≡ wanted new)
      ⊎ ((change ≡ keep_default) × AreSameLiterals same_value old new)

  literals_same : Bool
  literals_same =
      if old.default_null
      then new.default_null
      else not new.default_null && same_default same_value old.default_str new.default_str

  both_null : old.default_null ≡ true → literals_same ≡ true → new.default_null ≡ true
  unfolding literals_same
  both_null null same = ground arith

  both_value :
      old.default_null ≡ false
      → literals_same ≡ true
      → same_default same_value old.default_str new.default_str ≡ true
  unfolding literals_same
  both_value value same = ground arith

  new_value : old.default_null ≡ false → literals_same ≡ true → new.default_null ≡ false
  unfolding literals_same
  new_value value same = ground arith

  -- Two literals that are the same to the server are kept.
  kept :
      old.no_default_value ≡ new.no_default_value
      → get_expr_default_text old ≡ []
      → get_expr_default_text new ≡ []
      → old.default_null ≡ false
      → literals_same ≡ true
      → Leads keep_default
  unfolding Leads changed_default
  kept f o n value same = elim (Bool-cases (identical old new)) [
    | inl e ↦ inl (wanted-literal old new f o n (value ∙ sym (new_value value same)) e)
    | inr e ↦ inr (
      refl,
      record { old_literal = o; new_literal = n; differ = e; same = both_value value same },
    )
  ]

  literal-Leads :
      old.no_default_value ≡ new.no_default_value
      → new.no_default_value ≡ false
      → get_expr_default_text old ≡ []
      → get_expr_default_text new ≡ []
      → Leads (literal_change same_value old new)
  unfolding literal_change Leads changed_default literals_same
  literal-Leads flags has o n =
      if-keeps Leads literals_same
        (λ same. elim (Bool-cases old.default_null) [
          | inl null ↦ inl (wanted-null old o null ∙ sym (wanted-null new n (both_null null same)))
          | inr value ↦ kept flags o n value same
        ])
        (λ _.
          if-keeps Leads new.default_null (λ null. inl (sym (wanted-null new n null)))
            (λ _. inl (sym (wanted-value new has (ap has_mariadb_sequence_func n ∙ no_sequence)))))

  flags_same :
      (not old.no_default_value && new.no_default_value) ≡ false
      → new.no_default_value ≡ false
      → (not new.no_default_value && old.no_default_value) ≡ false
      → old.no_default_value ≡ new.no_default_value
  flags_same e h f = ground arith

  some_text :
      get_expr_default_text old ≡ get_expr_default_text new
      → (not (same_bytes (get_expr_default_text old) [])
          || not (same_bytes (get_expr_default_text new) []))
        ≡ true
      → same_bytes (get_expr_default_text new) [] ≡ false
  some_text e h = either (same_bytes (get_expr_default_text new) []) (
      subst (λ t. (not (same_bytes t []) || not (same_bytes (get_expr_default_text new) [])) ≡ true)
        e h)
    where
      either : (b : Bool) → (not b || not b) ≡ true → b ≡ false
      either true h = cc
      either false h = refl

  -- Behind ALTER TABLE … ALTER COLUMN, DuckDB's column has the default that the new table wants, if
  -- it had the one that the old table wants: the literal, the expression, or none, where the column
  -- has no default, a NULL one, or one that draws from a sequence of the server. The one exception
  -- are two literals that are not identical and that the server's collation takes for the same: then
  -- no statement is sent, and the old one stays.
  pub default_change-wanted :
      (changed_default (default_change same_value old new) (wanted old) new ≡ wanted new)
      ⊎ ((default_change same_value old new ≡ keep_default) × AreSameLiterals same_value old new)
  unfolding default_change Leads changed_default is_sequence_default
  default_change-wanted =
      if-keeps Leads (not old.no_default_value && new.no_default_value)
        (λ e. inl (sym (wanted-none new (ground arith))))
        (λ e.
          if-keeps Leads (not new.no_default_value && old.no_default_value)
            (λ added.
              if-keeps Leads (is_sequence_default new) (λ t. inl (sym (wanted-sequence new t)))
                (λ t. inl (sym (wanted-value new (ground arith) t))))
            (λ f.
              if-keeps Leads new.no_default_value
                (λ none_new. inl (wanted-none old (ground arith) ∙ sym (wanted-none new none_new)))
                (λ has.
                  if-keeps Leads
                    (not (same_bytes (get_expr_default_text old) [])
                      || not (same_bytes (get_expr_default_text new) []))
                    (λ exprs.
                      if-keeps Leads
                        (same_bytes (get_expr_default_text old) (get_expr_default_text new))
                        (λ same.
                          let texts = same_bytes-eq _ (get_expr_default_text new) same in
                          inl (
                            wanted-text old new (flags_same e has f) texts (some_text texts exprs)))
                        (λ _.
                          if-keeps Leads (has_mariadb_sequence_func (get_expr_default_text new))
                            (λ t. inl (sym (wanted-sequence new t)))
                            (λ t. inl (sym (wanted-value new has t)))))
                    (λ literals.
                      literal-Leads (flags_same e has f) has
                        (ground (arith, same_bytes-eq (get_expr_default_text old) []))
                        (ground (arith, same_bytes-eq (get_expr_default_text new) []))))))
