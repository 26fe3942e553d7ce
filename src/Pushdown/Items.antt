-- ===== src/Pushdown/Items.antt =====
-- What the server's parser says of a statement, and the walks over it in ha_duckdb_pushdown.cc: for
-- hidden fields and for FOR SYSTEM_TIME.
use duckdb_engine.Prelude.{
  ℕ, Bool, true, false, not, ◌||◌, Bytes, List, [], ◌∷◌, Option, none, some, ◌==◌, if◌then◌else◌,
}

-- An Item_field. `implicit_versioning` is is_implicit_versioning_field, and 0 is VISIBLE.
pub record ItemField : Type 0 where
  pub has_field : Bool
  pub invisible : ℕ
  pub implicit_versioning : Bool

-- An Item is the fields that its walk visits.
abbrev pub Item : Type 0
Item = List ItemField

-- A TABLE_LIST. `fields` are the `invisible` members of the table's fields.
pub record TableRef : Type 0 where
  pub derived : Bool
  pub has_table : Bool
  pub is_duckdb : Bool
  pub vers_was_set : Bool
  pub fields : List ℕ
  pub table_name : Bytes

-- A SELECT_LEX. `tables` is the chain that get_table_list() and next_global give.
pub record SelectLex : Type 0 where
  pub item_list : List Item
  pub where_cond : Option Item
  pub having_cond : Option Item
  pub group_list : List Item
  pub order_list : List Item
  pub window_specs : List (List Item × List Item)
  pub on_exprs : List (Option Item)
  pub tables : List TableRef
  pub uncacheable_sideeffect : Bool

pub data SqlCommand : Type 0 where
  sqlcom_select sqlcom_insert_select sqlcom_other : SqlCommand

pub record Lex : Type 0 where
  pub sql_command : SqlCommand
  pub query_tables : List TableRef
  pub dup_update : Bool
  pub has_returning : Bool
  pub all_selects : List SelectLex

-- Invisible_field_enumerator: the latch m_found, and the walks that stop once it is set.
unfoldable pub visit_field : Bool → ItemField → Bool
visit_field found item =
    if found || (not item.has_field || ((item.invisible == 0) || item.implicit_versioning))
    then found
    else true

unfoldable pub visit_fields : Bool → Item → Bool
unfolding visit_field
visit_fields found [] = found
visit_fields found (f ∷ fs) = visit_fields (visit_field found f) fs

unfoldable pub inspect_item : Bool → Option Item → Bool
unfolding visit_fields
inspect_item found none = found
inspect_item found (some item) = if not found then visit_fields found item else found

unfoldable pub inspect_items : Bool → List Item → Bool
unfolding inspect_item
inspect_items found [] = found
inspect_items found (i ∷ is) = inspect_items (inspect_item found (some i)) is

unfoldable pub inspect_windows : Bool → List (List Item × List Item) → Bool
unfolding inspect_items
inspect_windows found [] = found
inspect_windows found ((partitions, orders) ∷ ws) =
    inspect_windows (inspect_items (inspect_items found partitions) orders) ws

unfoldable pub inspect_joins : Bool → List (Option Item) → Bool
unfolding inspect_item
inspect_joins found [] = found
inspect_joins found (e ∷ es) = inspect_joins (inspect_item found e) es

unfoldable pub inspect_select : Bool → SelectLex → Bool
unfolding inspect_items inspect_item inspect_windows inspect_joins
inspect_select found sl =
    inspect_joins
      (inspect_windows
        (inspect_items
          (inspect_items
            (inspect_item (inspect_item (inspect_items found sl.item_list) sl.where_cond)
              sl.having_cond)
            sl.group_list)
          sl.order_list)
        sl.window_specs)
      sl.on_exprs

unfoldable pub references_from : Bool → List SelectLex → Bool
unfolding inspect_select
references_from found [] = found
references_from found (sl ∷ sls) =
    let rest = references_from (inspect_select found sl) sls in if not found then rest else found

unfoldable pub query_references_invisible_fields : Lex → Bool
unfolding references_from
query_references_invisible_fields lex = references_from false lex.all_selects

unfoldable pub has_system_time : List TableRef → Bool
has_system_time [] = false
has_system_time (t ∷ ts) = let rest = has_system_time ts in if t.vers_was_set then true else rest

unfoldable pub query_has_explicit_system_time : Lex → Bool
unfolding has_system_time
query_has_explicit_system_time lex = has_system_time lex.query_tables
