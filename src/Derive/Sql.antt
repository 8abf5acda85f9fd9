-- ===== src/Derive/Sql.antt =====
-- crates/csgdb-derive/src/lib.rs: the texts that the derive macro generates, the statements of a
-- collection and the canonical descriptors that its fingerprints are taken of.
use csgdb.Prelude.{
  ℕ, suc, ◌+◌, Bool, true, false, List, [], ◌∷◌, ◌++◌, map, Str, str, decimal, join, str_leb,
  length, if◌then◌else◌,
}
use csgdb.Collection.{ColumnType, FieldSchema}
use csgdb.Query.Compiled.{quoted}

-- `quote_identifier`
abbrev pub quote_identifier : Str → Str
quote_identifier value = quoted value

abbrev pub storage_name : ColumnType → Str
storage_name ColumnType.integer = str "Integer"
storage_name ColumnType.real = str "Real"
storage_name ColumnType.text = str "Text"
storage_name ColumnType.blob = str "Blob"

-- `to_ascii_uppercase` of the storage's name.
abbrev pub sql_storage : ColumnType → Str
sql_storage ColumnType.integer = str "INTEGER"
sql_storage ColumnType.real = str "REAL"
sql_storage ColumnType.text = str "TEXT"
sql_storage ColumnType.blob = str "BLOB"

abbrev comma : Str
comma = str ", "

abbrev pub quoted_columns : List FieldSchema → Str
quoted_columns fields = join comma (map (λ f. quote_identifier f.column) fields)

abbrev pub column_constraints : FieldSchema → Str
column_constraints f =
    (if f.nullable then [] else str " NOT NULL")
    ++ (if f.primary_key then str " PRIMARY KEY" else [])

abbrev pub column_definition : FieldSchema → Str
column_definition f =
    quote_identifier f.column ++ (str " " ++ (sql_storage f.column_type ++ column_constraints f))

-- Each takes the table's quoted name.
unfoldable pub create_table_sql : Str → List FieldSchema → Str
create_table_sql table fields =
    str "CREATE TABLE IF NOT EXISTS "
    ++ (table ++ (str " (" ++ (join comma (map column_definition fields) ++ str ")")))

unfoldable pub create_index_sql : Str → (name : Str) (columns : List Str) (unique : Bool) → Str
create_index_sql table name columns unique =
    str "CREATE "
    ++ ((if unique then str "UNIQUE " else [])
        ++ (str "INDEX IF NOT EXISTS "
            ++ (quote_identifier name
                ++ (str " ON "
                    ++ (table
                        ++ (str " (" ++ (join comma (map quote_identifier columns) ++ str ")")))))))

abbrev pub numbered : ℕ → Str
numbered n = str "?" ++ decimal n

-- `?n`, one for each field.
abbrev pub parameters_from : ℕ → List FieldSchema → List Str
parameters_from n [] = []
parameters_from n (f ∷ fs) = numbered n ∷ parameters_from (suc n) fs

unfoldable pub insert_sql : Str → List FieldSchema → Str
insert_sql table fields =
    str "INSERT INTO "
    ++ (table
        ++ (str " ("
            ++ (quoted_columns fields
                ++ (str ") VALUES (" ++ (join comma (parameters_from 1 fields) ++ str ")")))))

unfoldable pub select_sql : Str → List FieldSchema → (primary_key : Str) → Str
select_sql table fields primary_key =
    str "SELECT "
    ++ (quoted_columns fields
        ++ (str " FROM "
            ++ (table ++ (str " WHERE " ++ (quote_identifier primary_key ++ str " = ?1 LIMIT 1")))))

-- The assignments of the fields that are not the key, numbered from `n`.
abbrev pub assignments_from : ℕ → List FieldSchema → List Str
assignments_from n [] = []
assignments_from n (f ∷ fs) =
    if f.primary_key
    then assignments_from n fs
    else (quote_identifier f.column ++ (str " = " ++ numbered n)) ∷ assignments_from (suc n) fs

abbrev pub update_text : (table primary_key : Str) → List Str → Str
update_text table primary_key [] =
    str "UPDATE "
    ++ (table
        ++ (str " SET "
            ++ (primary_key
                ++ (str " = "
                    ++ (primary_key ++ (str " WHERE " ++ (primary_key ++ str " = ?1")))))))
update_text table primary_key (a ∷ mutable) =
    str "UPDATE "
    ++ (table
        ++ (str " SET "
            ++ (join comma (a ∷ mutable)
                ++ (str " WHERE "
                    ++ (primary_key ++ (str " = " ++ numbered (length (a ∷ mutable) + 1)))))))

unfoldable pub update_sql : Str → List FieldSchema → (primary_key : Str) → Str
update_sql table fields primary_key =
    update_text table (quote_identifier primary_key) (assignments_from 1 fields)

unfoldable pub delete_sql : Str → (primary_key : Str) → Str
delete_sql table primary_key =
    str "DELETE FROM "
    ++ (table ++ (str " WHERE " ++ (quote_identifier primary_key ++ str " = ?1")))

-- A text with its length before it.
abbrev pub measured : Str → Str
measured s = decimal (length s) ++ (str ":" ++ s)

abbrev pub bit : Bool → Str
bit false = str "0"
bit true = str "1"

abbrev pub newline : Str
newline = 10 ∷ []

-- `sort_unstable_by` on the identities, which are distinct: any sort gives the same list.
abbrev insert_sorted : FieldSchema → List FieldSchema → List FieldSchema
insert_sorted f [] = f ∷ []
insert_sorted f (g ∷ gs) =
    let rest = g ∷ insert_sorted f gs in if str_leb f.id g.id then f ∷ g ∷ gs else rest

abbrev pub sorted_by_id : List FieldSchema → List FieldSchema
sorted_by_id [] = []
sorted_by_id (f ∷ fs) = insert_sorted f (sorted_by_id fs)

abbrev pub field_line : FieldSchema → Str
field_line f =
    str "field:"
    ++ (measured f.id
        ++ (str ":"
            ++ (measured f.column
                ++ (str ":"
                    ++ (storage_name f.column_type
                        ++ (str ":"
                            ++ (bit f.nullable ++ (str ":" ++ (bit f.primary_key ++ newline)))))))))

abbrev pub field_lines : List FieldSchema → Str
field_lines [] = []
field_lines (f ∷ fs) = field_line f ++ field_lines fs

unfoldable pub canonical_schema : (collection table : Str) (version : ℕ) → List FieldSchema → Str
canonical_schema collection table version fields =
    str "csgdb-schema-v1"
    ++ (newline
        ++ (str "collection:"
            ++ (measured collection
                ++ (newline
                    ++ (str "table:"
                        ++ (measured table
                            ++ (newline
                                ++ (str "version:"
                                    ++ (decimal version
                                        ++ (newline ++ field_lines (sorted_by_id fields)))))))))))

abbrev pub index_lines : List (Str × Str) → Str
index_lines [] = []
index_lines ((field, column) ∷ rest) =
    str "field:"
    ++ (measured field ++ (str ":" ++ (measured column ++ (newline ++ index_lines rest))))

-- The fields with their columns.
unfoldable pub canonical_index :
    (collection table id name : Str) (unique : Bool) → List (Str × Str) → Str
canonical_index collection table id name unique columns =
    str "csgdb-index-v1"
    ++ (newline
        ++ (str "collection:"
            ++ (measured collection
                ++ (newline
                    ++ (str "table:"
                        ++ (measured table
                            ++ (newline
                                ++ (str "index:"
                                    ++ (measured id
                                        ++ (newline
                                            ++ (str "name:"
                                                ++ (measured name
                                                    ++ (newline
                                                        ++ (str "unique:"
                                                            ++ (bit unique
                                                            ++ (newline
                                                            ++ index_lines columns))))))))))))))))
