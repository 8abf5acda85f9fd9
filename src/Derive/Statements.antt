-- ===== src/Derive/Statements.antt =====
-- crates/csgdb-derive/src/lib.rs: the placeholders of the generated statements, against the parameters
-- that crates/csgdb/src/collection.rs binds to them.
pub mod Parts
use csgdb.Prelude.{
  ℕ, ◌+◌, ◌*◌, ◌/◌, ◌%◌, ◌≡◌, refl, subst, sym, ap, inl, inr, Bool-cases, Bool, true, false, List,
  [], ◌∷◌, ◌++◌, map, some, Str, str, decimal, decimal_from, join, length, ltb, if◌then◌else◌,
  arith, All, ◌==◌,
}
use csgdb.Core.Error.{ok}
use csgdb.Collection.{ColumnType, FieldSchema, IndexSchema, CollectionSchema}
use csgdb.Collection.Update.{count_keys}
use csgdb.Collection.Valid.{validate_collection_schema-Valid}
use csgdb.Query.Compiled.{quoted}
use csgdb.Query.Placeholders.{
  placeholders, inside_after, Holds, Holds-append, Holds-plain, Holds-behind, Holds-quoted,
  Holds-count,
}
use csgdb.Derive.{DeriveInput}
use csgdb.Derive.Sql.{
  quote_identifier, sql_storage, column_constraints, column_definition, quoted_columns,
  create_table_sql, create_index_sql, numbered, parameters_from, insert_sql, select_sql,
  assignments_from, update_text, update_sql, delete_sql,
}
use csgdb.Derive.Expand.{Expansion, expand_collection, expansion_of, index_statements}
use csgdb.Derive.Passes.{expand_collection-Accepted}
use csgdb.Derive.Statements.Parts.{
  Holds-numbered, Holds-join, Holds-join_plain, Holds-bracketed, All-quoted_columns, All-quoted,
  Holds-if, All-column_definitions, All-parameters_from, length-parameters_from,
  All-assignments_from, length-assignments_from,
}

Holds-create_table_sql :
    (table : Str) (fs : List FieldSchema) → Holds table 0 → Holds (create_table_sql table fs) 0
unfolding placeholders inside_after create_table_sql
Holds-create_table_sql table fs h =
    let columns = join (str ", ") (map column_definition fs) in
    Holds-behind (str "CREATE TABLE IF NOT EXISTS ") (table ++ (str " (" ++ (columns ++ str ")"))) 0
      (refl, refl)
      (Holds-bracketed table columns (str ")") 0 h
        (Holds-join_plain (map column_definition fs) (All-column_definitions fs)) (refl, refl))

Holds-create_index_sql :
    (table name : Str) (columns : List Str) (unique : Bool)
    → Holds table 0
    → Holds (create_index_sql table name columns unique) 0
unfolding placeholders inside_after create_index_sql
Holds-create_index_sql table name columns unique h =
    let list = join (str ", ") (map quote_identifier columns) in
    let target = table ++ (str " (" ++ (list ++ str ")")) in
    let named = quote_identifier name ++ (str " ON " ++ target) in
    let kind = if unique then str "UNIQUE " else [] in
    Holds-behind (str "CREATE ") (kind ++ (str "INDEX IF NOT EXISTS " ++ named)) 0 (refl, refl)
      (Holds-behind kind (str "INDEX IF NOT EXISTS " ++ named) 0
        (Holds-if unique (str "UNIQUE ") [] (refl, refl) (refl, refl))
        (Holds-behind (str "INDEX IF NOT EXISTS ") named 0 (refl, refl)
          (Holds-behind (quote_identifier name) (str " ON " ++ target) 0 (Holds-quoted name) (
            Holds-behind (str " ON ") target 0 (refl, refl)
              (Holds-bracketed table list (str ")") 0 h
                (Holds-join_plain (map quote_identifier columns) (All-quoted columns))
                (refl, refl))))))

Holds-insert_sql :
    (table : Str) (fs : List FieldSchema) → Holds table 0 → Holds (insert_sql table fs) (length fs)
unfolding placeholders inside_after insert_sql
Holds-insert_sql table fs h =
    let columns = quoted_columns fs in
    let list = join (str ", ") (parameters_from 1 fs) in
    let values = str ") VALUES (" ++ (list ++ str ")") in
    let inserted =
      Holds-count list _ _ (omega (arith, length-parameters_from 1 fs))
        (Holds-join 1 (parameters_from 1 fs) (All-parameters_from 1 fs)) in
    Holds-behind (str "INSERT INTO ") (table ++ (str " (" ++ (columns ++ values))) (length fs)
      (refl, refl)
      (Holds-behind table (str " (" ++ (columns ++ values)) (length fs) h (
        Holds-behind (str " (") (columns ++ values) (length fs) (refl, refl)
          (Holds-behind columns values (length fs)
            (Holds-join_plain (map (λ f. quote_identifier f.column) fs) (All-quoted_columns fs))
            (Holds-behind (str ") VALUES (") (list ++ str ")") (length fs) (refl, refl)
              (Holds-plain list (str ")") (length fs) inserted (refl, refl))))))

-- A text that ends in a test of the key against one parameter.
Holds-by_key :
    (before key after : Str) (n : ℕ)
    → Holds before n
    → Holds after 1
    → Holds (before ++ (str " WHERE " ++ (quote_identifier key ++ after))) (n + 1)
unfolding placeholders inside_after
Holds-by_key before key after n h k =
    Holds-append before (str " WHERE " ++ (quote_identifier key ++ after)) n 1 h (
      Holds-behind (str " WHERE ") (quote_identifier key ++ after) 1 (refl, refl)
        (Holds-behind (quote_identifier key) after 1 (Holds-quoted key) k))

Holds-select_sql :
    (table : Str) (fs : List FieldSchema) (key : Str)
    → Holds table 0
    → Holds (select_sql table fs key) 1
unfolding placeholders inside_after select_sql
Holds-select_sql table fs key h =
    let columns = quoted_columns fs in
    let by_key = table ++ (str " WHERE " ++ (quote_identifier key ++ str " = ?1 LIMIT 1")) in
    Holds-behind (str "SELECT ") (columns ++ (str " FROM " ++ by_key)) 1 (refl, refl)
      (Holds-behind columns (str " FROM " ++ by_key) 1
        (Holds-join_plain (map (λ f. quote_identifier f.column) fs) (All-quoted_columns fs))
        (Holds-behind (str " FROM ") by_key 1 (refl, refl)
          (Holds-by_key table key (str " = ?1 LIMIT 1") 0 h (refl, refl))))

Holds-delete_sql : (table key : Str) → Holds table 0 → Holds (delete_sql table key) 1
unfolding placeholders inside_after delete_sql
Holds-delete_sql table key h =
    Holds-behind (str "DELETE FROM ")
      (table ++ (str " WHERE " ++ (quote_identifier key ++ str " = ?1"))) 1 (refl, refl)
      (Holds-by_key table key (str " = ?1") 0 h (refl, refl))

Holds-update_text :
    (table key : Str) (assignments : List Str)
    → Holds table 0
    → All (λ s. Holds s 1) assignments
    → Holds (update_text table (quote_identifier key) assignments) (length assignments + 1)
unfolding placeholders inside_after
Holds-update_text table key [] h all =
    let k = quote_identifier key in
    let test = k ++ (str " WHERE " ++ (k ++ str " = ?1")) in
    Holds-behind (str "UPDATE ") (table ++ (str " SET " ++ (k ++ (str " = " ++ test)))) 1
      (refl, refl)
      (Holds-behind table (str " SET " ++ (k ++ (str " = " ++ test))) 1 h (
        Holds-behind (str " SET ") (k ++ (str " = " ++ test)) 1 (refl, refl)
          (Holds-behind k (str " = " ++ test) 1 (Holds-quoted key) (
            Holds-behind (str " = ") test 1 (refl, refl)
              (Holds-by_key k key (str " = ?1") 0 (Holds-quoted key) (refl, refl))))))
Holds-update_text table key (a ∷ rest) h all =
    let list = join (str ", ") (a ∷ rest) in
    let n = length (a ∷ rest) in
    let equals = str " = " ++ numbered (n + 1) in
    let test = list ++ (str " WHERE " ++ (quote_identifier key ++ equals)) in
    let assigned = Holds-count list _ n (omega arith) (Holds-join 1 (a ∷ rest) all) in
    let bound =
      Holds-behind (str " = ") (numbered (n + 1)) 1 (refl, refl) (Holds-numbered (n + 1)) in
    Holds-behind (str "UPDATE ") (table ++ (str " SET " ++ test)) (n + 1) (refl, refl)
      (Holds-behind table (str " SET " ++ test) (n + 1) h (
        Holds-behind (str " SET ") test (n + 1) (refl, refl)
          (Holds-by_key list key equals n assigned bound)))

Holds-update_sql :
    (table : Str) (fs : List FieldSchema) (key : Str)
    → Holds table 0
    → count_keys fs ≡ 1
    → Holds (update_sql table fs key) (length fs)
unfolding update_sql
Holds-update_sql table fs key h one =
    Holds-count (update_sql table fs key) _ _ (omega (arith, one, length-assignments_from 1 fs))
      (Holds-update_text table key (assignments_from 1 fs) h (All-assignments_from 1 fs))

Holds-index_statements :
    (table : Str) (is : List IndexSchema)
    → Holds table 0
    → All (λ s. Holds s 0) (index_statements table is)
Holds-index_statements table [] h = tt
Holds-index_statements table (i ∷ is) h =
    (Holds-create_index_sql table i.name i.columns i.unique h, Holds-index_statements table is h)

-- The statements have one placeholder for each parameter that is bound to them, and close all their
-- quotes.
abbrev pub Bound : Expansion → Type 0
Bound e =
    Holds e.create_table 0
    × Holds e.insert (length e.schema.fields)
    × Holds e.select_by_key 1
    × Holds e.update (length e.schema.fields)
    × Holds e.delete_by_key 1
    × All (λ s. Holds s 0) e.create_indexes

expansion_of-Bound :
    (schema : CollectionSchema) (key : Str) (constants : List Str) (path : Str)
    → count_keys schema.fields ≡ 1
    → Bound (expansion_of schema key constants path)
expansion_of-Bound schema key constants path one =
    let table = quote_identifier schema.table in
    let fields = schema.fields in
    let quotes = Holds-quoted schema.table in
    (
      Holds-create_table_sql table fields quotes,
      Holds-insert_sql table fields quotes,
      Holds-select_sql table fields key quotes,
      Holds-update_sql table fields key quotes one,
      Holds-delete_sql table key quotes,
      Holds-index_statements table schema.indexes quotes,
    )

-- In everything that the macro generates, whatever the names, INSERT and UPDATE have as many
-- placeholders as the schema has fields, SELECT and DELETE have one, the statements that create the
-- table and the indexes have none, and no statement leaves quotes open.
pub expand_collection-Bound :
    (digest : Str → Str) (is_path : Str → Bool) (to_uppercase : Str → Str) (input : DeriveInput)
    (e : Expansion)
    → expand_collection digest is_path to_uppercase input ≡ some e
    → Bound e
expand_collection-Bound digest is_path to_uppercase input e h =
    let (passed, (key, constants, path, _, form)) =
      expand_collection-Accepted digest is_path to_uppercase input e h in
    let (_, _, _, _, _, _, one, _, _, _) = validate_collection_schema-Valid e.schema passed in
    subst Bound (sym form) (expansion_of-Bound e.schema key.column constants path one)
