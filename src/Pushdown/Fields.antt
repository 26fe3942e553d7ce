-- ===== src/Pushdown/Fields.antt =====
-- What the walks over the items of a statement find: whether any field hides.
use duckdb_engine.Prelude.{
  Bool, true, false, not, ◌&&◌, ◌||◌, List, [], ◌∷◌, Option, none, some, ◌==◌, ◌≡◌, refl, ◌∙◌,
  arith,
}
use duckdb_engine.Pushdown.Items.{
  ItemField, Item, SelectLex, TableRef, Lex, visit_field, visit_fields, inspect_item, inspect_items,
  inspect_windows, inspect_joins, inspect_select, references_from,
  query_references_invisible_fields, has_system_time,
}

-- Any element passes the test.
abbrev pub any_of {ℓ} : {A : Type ℓ} → (A → Bool) → List A → Bool
any_of test [] = false
any_of test (x ∷ xs) = test x || any_of test xs

-- A field that is not visible and stands in the text of the statement.
abbrev pub hides : ItemField → Bool
hides f = f.has_field && (not (f.invisible == 0) && not f.implicit_versioning)

abbrev pub hides_opt : Option Item → Bool
hides_opt none = false
hides_opt (some item) = any_of hides item

abbrev pub hides_window : List Item × List Item → Bool
hides_window w = any_of (any_of hides) w.0 || any_of (any_of hides) w.1

abbrev pub hides_select : SelectLex → Bool
hides_select sl =
    any_of (any_of hides) sl.item_list
    || (hides_opt sl.where_cond
        || (hides_opt sl.having_cond
            || (any_of (any_of hides) sl.group_list
                || (any_of (any_of hides) sl.order_list
                    || (any_of hides_window sl.window_specs || any_of hides_opt sl.on_exprs)))))

or_assoc : (a b c : Bool) → ((a || b) || c) ≡ (a || (b || c))
or_assoc a b c = ground arith

visit_fields-eq :
    (found : Bool) (item : Item) → visit_fields found item ≡ (found || any_of hides item)
unfolding visit_fields visit_field
visit_fields-eq found [] = ground arith
visit_fields-eq found (f ∷ fs) = ground (arith, visit_fields-eq found fs, visit_fields-eq true fs)

inspect_item-eq : (found : Bool) (o : Option Item) → inspect_item found o ≡ (found || hides_opt o)
unfolding inspect_item
inspect_item-eq found none = ground arith
inspect_item-eq found (some item) = ground (arith, visit_fields-eq found item)

inspect_items-eq :
    (found : Bool) (items : List Item)
    → inspect_items found items ≡ (found || any_of (any_of hides) items)
unfolding inspect_items
inspect_items-eq found [] = ground arith
inspect_items-eq found (i ∷ is) =
    inspect_items-eq (inspect_item found (some i)) is
    ∙ rw (inspect_item-eq found (some i)) (or_assoc found _ _)

inspect_windows-eq :
    (found : Bool) (ws : List (List Item × List Item))
    → inspect_windows found ws ≡ (found || any_of hides_window ws)
unfolding inspect_windows
inspect_windows-eq found [] = ground arith
inspect_windows-eq found ((partitions, orders) ∷ ws) = ground (
  arith,
  inspect_windows-eq (inspect_items (inspect_items found partitions) orders) ws,
  inspect_items-eq (inspect_items found partitions) orders,
  inspect_items-eq found partitions,
)

inspect_joins-eq :
    (found : Bool) (es : List (Option Item))
    → inspect_joins found es ≡ (found || any_of hides_opt es)
unfolding inspect_joins
inspect_joins-eq found [] = ground arith
inspect_joins-eq found (e ∷ es) =
    inspect_joins-eq (inspect_item found e) es ∙ rw (inspect_item-eq found e) (or_assoc found _ _)

inspect_select-eq :
    (found : Bool) (sl : SelectLex) → inspect_select found sl ≡ (found || hides_select sl)
unfolding inspect_select
inspect_select-eq found sl =
    rw
      (
        inspect_joins-eq _ sl.on_exprs,
        inspect_windows-eq _ sl.window_specs,
        inspect_items-eq _ sl.order_list,
        inspect_items-eq _ sl.group_list,
        inspect_item-eq _ sl.having_cond,
        inspect_item-eq _ sl.where_cond,
        inspect_items-eq found sl.item_list,
      )
      (flat found _ _ _ _ _ _ _)
  where
    flat :
        (x a b c d e f g : Bool)
        → (((((((x || a) || b) || c) || d) || e) || f) || g)
          ≡ (x || (a || (b || (c || (d || (e || (f || g)))))))
    flat x a b c d e f g = ground arith

references_from-eq :
    (found : Bool) (sls : List SelectLex)
    → references_from found sls ≡ (found || any_of hides_select sls)
unfolding references_from
references_from-eq found [] = ground arith
references_from-eq found (sl ∷ sls) =
    ground (arith, references_from-eq (inspect_select found sl) sls, inspect_select-eq found sl)

pub references-eq :
    (lex : Lex) → query_references_invisible_fields lex ≡ any_of hides_select lex.all_selects
unfolding query_references_invisible_fields
references-eq lex = references_from-eq false lex.all_selects

abbrev pub was_set : TableRef → Bool
was_set t = t.vers_was_set

pub has_system_time-eq : (ts : List TableRef) → has_system_time ts ≡ any_of was_set ts
unfolding has_system_time
has_system_time-eq [] = refl
has_system_time-eq (t ∷ ts) = ground (arith, has_system_time-eq ts)
