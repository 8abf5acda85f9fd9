-- ===== src/Collection/Registry/Indexes.antt =====
-- The registry of indexes, and the comparison of a schema's indexes with those that its table has.
use csgdb.Prelude.{
  ℕ, Bool, true, false, not, ◌&&◌, ◌||◌, List, [], ◌∷◌, ◌++◌, Option, none, some, Str, str, str_eq,
  length, ltb, ◌==◌, if◌then◌else◌,
}
use csgdb.Prelude.Int.{ℤ, pos}
use csgdb.Core.Error.{Result, ok, err, reject_if, ◌>>◌, ◌>>=◌, schema_mismatch, invalid_schema}
use csgdb.Core.Value.{ValueRef}
use csgdb.Collection.{IndexSchema, CollectionSchema, valid_name, is_empty, starts_with, reserved}
use csgdb.Collection.Rows.{
  find_registered_indexes_sql, insert_registered_index_sql, delete_registered_indexes_sql,
  physical_index_sql, physical_index_columns_sql, sql, Row, Transaction, get_i64, get_text,
  get_blob, fingerprint_from_slice, nonzero,
}
use csgdb.Collection.Registry.{eq_ignore_ascii_case}
use csgdb.Query.Compiled.{quoted}

pub record RegisteredIndex : Type 0 where
  pub id : Str
  pub name : Str
  pub unique : Bool
  pub fingerprint : Str
  pub descriptor : Str

abbrev unique_from : ℤ → Result Bool
unique_from (pos ℕ.zero) = ok false
unique_from (pos (ℕ.suc ℕ.zero)) = ok true
unique_from n = err schema_mismatch

abbrev bad_entry : RegisteredIndex → Bool
bad_entry i =
    not (valid_name i.id)
    || not (valid_name i.name)
    || starts_with reserved i.name
    || is_empty i.descriptor

unfoldable pub index_row : Row → Result RegisteredIndex
unfolding get_i64 get_text get_blob fingerprint_from_slice
index_row row = get_i64 2 row >>= unique_from >>= λ unique. get_text 0 row >>= λ id.
    get_text 1 row >>= λ name. get_blob 3 row >>= fingerprint_from_slice >>= λ fingerprint.
    get_text 4 row >>= λ descriptor.
    let i : RegisteredIndex = record {
      id = id;
      name = name;
      unique = unique;
      fingerprint = fingerprint;
      descriptor = descriptor;
    } in
    reject_if (bad_entry i) schema_mismatch >> ok i

unfoldable pub index_rows : List (Result Row) → Result (List RegisteredIndex)
index_rows [] = ok []
index_rows (step ∷ steps) =
    step >>= λ row. index_row row >>= λ i. index_rows steps >>= λ is. ok (i ∷ is)

-- `str` in the order of its bytes.
abbrev pub str_lt : Str → Str → Bool
str_lt s [] = false
str_lt [] (b ∷ t) = true
str_lt (a ∷ s) (b ∷ t) = ltb a b || (a == b && str_lt s t)

abbrev insert_sorted : IndexSchema → List IndexSchema → List IndexSchema
insert_sorted i [] = i ∷ []
insert_sorted i (j ∷ js) = if str_lt j.id i.id then j ∷ insert_sorted i js else i ∷ j ∷ js

unfoldable pub sorted_by_id : List IndexSchema → List IndexSchema
sorted_by_id [] = []
sorted_by_id (i ∷ is) = insert_sorted i (sorted_by_id is)

abbrev index_matches : RegisteredIndex → IndexSchema → Bool
index_matches actual expected =
    str_eq actual.id expected.id
    && str_eq actual.name expected.name
    && (if actual.unique then expected.unique else not expected.unique)
    && str_eq actual.fingerprint expected.fingerprint
    && str_eq actual.descriptor expected.canonical_descriptor

unfoldable pub compare_indexes : List RegisteredIndex → List IndexSchema → Result (Unit {0})
compare_indexes [] expected = ok tt
compare_indexes (a ∷ actual) [] = ok tt
compare_indexes (a ∷ actual) (e ∷ expected) =
    reject_if (not (index_matches a e)) schema_mismatch >> compare_indexes actual expected

abbrev bit : Bool → ℤ
bit false = pos 0
bit true = pos 1

abbrev index_columns : Str → IndexSchema → List ValueRef
index_columns id i =
    ValueRef.text id
    ∷ ValueRef.text i.id
    ∷ ValueRef.text i.name
    ∷ ValueRef.integer (bit i.unique)
    ∷ ValueRef.blob i.fingerprint
    ∷ ValueRef.text i.canonical_descriptor
    ∷ []

-- No row may follow, and a step for it may fail.
abbrev only_row : Bool → List (Result Row) → Result (Unit {0})
only_row bad [] = reject_if bad schema_mismatch
only_row bad (step ∷ steps) =
    if bad then err schema_mismatch else step >>= λ row. err schema_mismatch

unfoldable pub index_header : IndexSchema → List (Result Row) → Result (Unit {0})
unfolding get_i64 get_text
index_header expected [] = err schema_mismatch
index_header expected (step ∷ steps) = step >>= λ row. get_i64 0 row >>= λ unique.
    get_text 1 row >>= λ origin. get_i64 2 row >>= λ partial.
    only_row
      (not (if expected.unique then nonzero unique else not (nonzero unique))
        || not (str_eq origin (str "c"))
        || nonzero partial)
      steps

-- A row of the index's columns: no name where the column is not of the key.
unfoldable pub key_column : Row → Result (Option Str)
unfolding get_i64 get_text eq_ignore_ascii_case
key_column row = get_i64 3 row >>= λ key.
    if not (nonzero key)
    then ok none
    else get_text 0 row >>= λ name. get_i64 1 row >>= λ descending. get_text 2 row >>= λ collation.
        reject_if
          (is_empty name
            || nonzero descending
            || not (eq_ignore_ascii_case collation (str "BINARY")))
          schema_mismatch
        >> ok (some name)

abbrev and_name : Option Str → List Str → List Str
and_name none names = names
and_name (some name) names = name ∷ names

unfoldable pub key_columns : List (Result Row) → Result (List Str)
key_columns [] = ok []
key_columns (step ∷ steps) = step >>= λ row.
    key_column row >>= λ name. key_columns steps >>= λ names. ok (and_name name names)

abbrev pub same_names : List Str → List Str → Bool
same_names [] [] = true
same_names (s ∷ ss) (t ∷ ts) = str_eq s t && same_names ss ts
same_names _ _ = false

abbrev retains : IndexSchema → List IndexSchema → Bool
retains old [] = false
retains old (new ∷ news) =
    (str_eq old.id new.id
      && str_eq old.name new.name
      && str_eq old.fingerprint new.fingerprint
      && str_eq old.canonical_descriptor new.canonical_descriptor)
    || retains old news

abbrev quote_sql_identifier : Str → Str
quote_sql_identifier value = quoted value

-- What changes the transaction and may fail.
abbrev pub Act : Type 0 → Type 0 → Type 0
Act Tx A = Tx → Result A × Tx

abbrev pub after : {Tx A B : Type 0} → Result A × Tx → (A → Act Tx B) → Result B × Tx
after (ok value, tx) next = next value tx
after (err code, tx) next = (err code, tx)

module _ (t : Transaction) where
  open t use {Tx, query, execute, execute_batch}

  unfoldable pub registered_indexes : Str → Tx → Result (List RegisteredIndex)
  unfolding index_rows
  registered_indexes collection_id tx =
      query find_registered_indexes_sql (ValueRef.text collection_id ∷ []) tx >>= index_rows

  unfoldable pub validate_registered_indexes : CollectionSchema → Tx → Result (Unit {0})
  unfolding registered_indexes compare_indexes sorted_by_id
  validate_registered_indexes schema tx = registered_indexes schema.id tx >>= λ actual.
      let expected = sorted_by_id schema.indexes in
      reject_if (not (length actual == length expected)) schema_mismatch
      >> compare_indexes actual expected

  unfoldable pub insert_registered_indexes : Str → List IndexSchema → Act Tx (Unit {0})
  insert_registered_indexes id [] tx = (ok tt, tx)
  insert_registered_indexes id (i ∷ is) tx =
      after (execute insert_registered_index_sql (index_columns id i) tx)
        (λ changed. insert_registered_indexes id is)

  unfoldable pub replace_registered_indexes : CollectionSchema → Act Tx (Unit {0})
  unfolding insert_registered_indexes
  replace_registered_indexes schema tx =
      after (execute delete_registered_indexes_sql (ValueRef.text schema.id ∷ []) tx)
        (λ changed. insert_registered_indexes schema.id schema.indexes)

  unfoldable pub run_all : List Str → Act Tx (Unit {0})
  run_all [] tx = (ok tt, tx)
  run_all (s ∷ ss) tx = after (execute_batch (sql s) tx) (λ done. run_all ss)

  -- `create_sql` is the collection's CREATE_INDEX_SQL.
  unfoldable pub create_declared_indexes : List Str → CollectionSchema → Act Tx (Unit {0})
  unfolding run_all
  create_declared_indexes create_sql schema tx =
      after (reject_if (not (length create_sql == length schema.indexes)) invalid_schema, tx)
        (λ done. run_all create_sql)

  unfoldable pub drop_indexes : List IndexSchema → CollectionSchema → Act Tx (Unit {0})
  drop_indexes [] to tx = (ok tt, tx)
  drop_indexes (old ∷ olds) to tx =
      let dropped =
        if retains old to.indexes
        then (ok tt, tx)
        else execute_batch (sql (str "DROP INDEX IF EXISTS " ++ quote_sql_identifier old.name))
            tx in
      after dropped (λ done. drop_indexes olds to)

  unfoldable pub replace_declared_indexes :
      List Str → CollectionSchema → CollectionSchema → Act Tx (Unit {0})
  unfolding drop_indexes create_declared_indexes
  replace_declared_indexes create_sql from to tx =
      after (drop_indexes from.indexes to tx) (λ done. create_declared_indexes create_sql to)

  unfoldable pub validate_physical_index : Str → IndexSchema → Tx → Result (Unit {0})
  unfolding index_header key_columns
  validate_physical_index table expected tx =
      query physical_index_sql (ValueRef.text table ∷ ValueRef.text expected.name ∷ []) tx
      >>= index_header expected
      >> (query physical_index_columns_sql (ValueRef.text expected.name ∷ []) tx
          >>= key_columns
          >>= λ columns. reject_if (not (same_names columns expected.columns)) schema_mismatch)

  unfoldable pub validate_each : Str → List IndexSchema → Tx → Result (Unit {0})
  unfolding validate_physical_index
  validate_each table [] tx = ok tt
  validate_each table (i ∷ is) tx = validate_physical_index table i tx >> validate_each table is tx

  unfoldable pub validate_physical_indexes : CollectionSchema → Tx → Result (Unit {0})
  unfolding validate_each
  validate_physical_indexes schema tx = validate_each schema.table schema.indexes tx
