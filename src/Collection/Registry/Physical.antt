-- ===== src/Collection/Registry/Physical.antt =====
-- A schema against the columns that its table has.
use csgdb.Prelude.{
  ◌≡◌, ◌↔◌, refl, sym, ap, subst, ◌∙◌, inl, inr, Bool-cases, true, false, not, ◌&&◌, List, [], ◌∷◌,
  ◌++◌, map, Option, none, some, length, arith, All, ◌==◌, ℕ, ◌+◌, ltb, if◌then◌else◌, Str, str,
  str_eq, str_eq_sound,
}
use csgdb.Prelude.Int.{ℤ, pos, negsuc}
use csgdb.Core.Error.{Result, ok, ok_inj, reject_if-ok, >>=-eq-ok, schema_mismatch}
use csgdb.Core.Value.{ValueRef}
use csgdb.Collection.{ColumnType, FieldSchema, CollectionSchema}
use csgdb.Collection.Rows.{
  Transaction, Row, table_columns_sql, value_ref, as_text, as_i64, get_text, get_i64, nonzero,
}
use csgdb.Collection.Registry.{
  PhysicalColumn, find_column, check_columns, check_column, column_row, column_rows, table_columns,
  validate_physical_table, eq_ignore_ascii_case, sql_name,
}

-- The letters A to Z made small.
abbrev small : ℕ → ℕ
small byte = if ltb 64 byte && ltb byte 91 then byte + 32 else byte

-- The name of a storage class, in small letters.
abbrev pub type_word : ColumnType → Str
type_word ColumnType.integer = str "integer"
type_word ColumnType.real = str "real"
type_word ColumnType.text = str "text"
type_word ColumnType.blob = str "blob"

-- One of the columns has the field's name, its type in letters of either case, is NOT NULL where the
-- field is not nullable, and is of the key where the field is.
abbrev pub HasColumn : List PhysicalColumn → FieldSchema → Type 0
HasColumn columns f =
    (c : PhysicalColumn) × (before : List PhysicalColumn) × (after : List PhysicalColumn) × (columns
      ≡ before ++ c ∷ after)
    × (c.name ≡ f.column)
    × (map small c.declared_type ≡ type_word f.column_type)
    × (c.not_null ≡ not f.nullable)
    × (c.primary_key ≡ f.primary_key)

-- A row that the engine gave has the column's name and type, and two numbers that are not 0 where the
-- column is NOT NULL and where it is of the key.
abbrev pub IsRow : Result Row → PhysicalColumn → Type 0
IsRow step c =
    (not_null : ℤ) × (key : ℤ) × (rest : Row) × (step
      ≡ ok (
          ok (ValueRef.text c.name)
          ∷ ok (ValueRef.text c.declared_type)
          ∷ ok (ValueRef.integer not_null)
          ∷ ok (ValueRef.integer key)
          ∷ rest))
    × ((c.not_null ≡ false) ↔ (not_null ≡ pos 0))
    × ((c.primary_key ≡ false) ↔ (key ≡ pos 0))

-- The rows are these columns', one for one.
abbrev pub AreRows : List (Result Row) → List PhysicalColumn → Type 0
AreRows [] [] = Unit
AreRows (step ∷ steps) (c ∷ columns) = IsRow step c × AreRows steps columns
AreRows _ _ = ⊥

same_letters : (s t : Str) → eq_ignore_ascii_case s t ≡ true → map small s ≡ map small t
unfolding eq_ignore_ascii_case
same_letters [] [] h = refl
same_letters [] (b ∷ t) h = cc
same_letters (a ∷ s) [] h = cc
same_letters (a ∷ s) (b ∷ t) h =
    let ih = same_letters s t (ground (arith, h)) in
    let one : small a ≡ small b = ground (arith, h) in rw one (rw ih refl)

sql_name-type_word : (t : ColumnType) → map small (sql_name t) ≡ type_word t
unfolding sql_name
sql_name-type_word ColumnType.integer = refl
sql_name-type_word ColumnType.real = refl
sql_name-type_word ColumnType.text = refl
sql_name-type_word ColumnType.blob = refl

find_column-split :
    (name : Str) (columns : List PhysicalColumn) (c : PhysicalColumn)
    → find_column name columns ≡ some c
    → (before : List PhysicalColumn) × (after : List PhysicalColumn) × (columns
        ≡ before ++ c ∷ after)
      × (c.name ≡ name)
find_column-split name [] c h = cc
find_column-split name (d ∷ ds) c h = elim (Bool-cases (str_eq d.name name)) [
  | inl e ↦
      let same : d ≡ c = ground (arith, e, h) in
      ([], ds, ap (λ x. x ∷ ds) same, subst (λ x. x.name ≡ name) same (str_eq_sound d.name name e))
  | inr e ↦
      let (before, after, at, named) = find_column-split name ds c (ground (arith, e, h)) in
      (d ∷ before, after, ap (λ x. d ∷ x) at, named)
]

nonzero-zero : (n : ℤ) → (nonzero n ≡ false) ↔ (n ≡ pos 0)
nonzero-zero (pos n) =
    (λ h. ap pos (ground (arith, h)), λ h. let e : n ≡ 0 = cc in ground (arith, e))
nonzero-zero (negsuc n) = (λ h. cc, λ h. cc)

check_column-ok :
    (f : FieldSchema) (columns : List PhysicalColumn) (found : Option PhysicalColumn)
    → find_column f.column columns ≡ found
    → check_column f found ≡ ok tt
    → HasColumn columns f
check_column-ok f columns none e h = cc
check_column-ok f columns (some c) e h =
    let (before, after, at, named) = find_column-split f.column columns c e in
    let letters =
      same_letters c.declared_type (sql_name f.column_type) (ground (arith, h))
      ∙ sql_name-type_word f.column_type in
    (c, before, after, at, named, letters, ground (arith, h), ground (arith, h))

check_columns-ok :
    (fs : List FieldSchema) (columns : List PhysicalColumn)
    → check_columns fs columns ≡ ok tt
    → All (HasColumn columns) fs
unfolding check_columns
check_columns-ok [] columns h = tt
check_columns-ok (f ∷ fs) columns h =
    let (_, here, rest) = >>=-eq-ok (check_column f (find_column f.column columns)) _ h in
    (check_column-ok f columns _ refl here, check_columns-ok fs columns rest)

as_text-ok : (v : ValueRef) (s : Str) → as_text v ≡ ok s → v ≡ ValueRef.text s
as_text-ok (ValueRef.text t) s h = ap ValueRef.text (ok_inj t s h)
as_text-ok ValueRef.null s h = cc
as_text-ok (ValueRef.integer n) s h = cc
as_text-ok (ValueRef.real x) s h = cc
as_text-ok (ValueRef.blob b) s h = cc

as_i64-ok : (v : ValueRef) (n : ℤ) → as_i64 v ≡ ok n → v ≡ ValueRef.integer n
as_i64-ok (ValueRef.integer m) n h = ap ValueRef.integer (ok_inj m n h)
as_i64-ok ValueRef.null n h = cc
as_i64-ok (ValueRef.text s) n h = cc
as_i64-ok (ValueRef.real x) n h = cc
as_i64-ok (ValueRef.blob b) n h = cc

get_text-ok :
    (i : ℕ) (row : Row) (s : Str) → get_text i row ≡ ok s → value_ref i row ≡ ok (ValueRef.text s)
unfolding get_text
get_text-ok i row s h =
    let (v, at, is) = >>=-eq-ok (value_ref i row) as_text h in at ∙ ap ok (as_text-ok v s is)

get_i64-ok :
    (i : ℕ) (row : Row) (n : ℤ) → get_i64 i row ≡ ok n → value_ref i row ≡ ok (ValueRef.integer n)
unfolding get_i64
get_i64-ok i row n h =
    let (v, at, is) = >>=-eq-ok (value_ref i row) as_i64 h in at ∙ ap ok (as_i64-ok v n is)

four_values :
    (row : Row) (a b c d : ValueRef)
    → value_ref 0 row ≡ ok a
    → value_ref 1 row ≡ ok b
    → value_ref 2 row ≡ ok c
    → value_ref 3 row ≡ ok d
    → (rest : Row) × (row ≡ ok a ∷ ok b ∷ ok c ∷ ok d ∷ rest)
unfolding value_ref
four_values [] a b c d h i j k = cc
four_values (x ∷ []) a b c d h i j k = cc
four_values (x ∷ y ∷ []) a b c d h i j k = cc
four_values (x ∷ y ∷ z ∷ []) a b c d h i j k = cc
four_values (x ∷ y ∷ z ∷ w ∷ rest) a b c d h i j k = (rest, cc)

column_row-IsRow : (row : Row) (c : PhysicalColumn) → column_row row ≡ ok c → IsRow (ok row) c
unfolding column_row
column_row-IsRow row c h =
    let (name, at_name, h₁) = >>=-eq-ok (get_text 0 row) _ h in
    let (type, at_type, h₂) = >>=-eq-ok (get_text 1 row) _ h₁ in
    let (n, at_n, h₃) = >>=-eq-ok (get_i64 2 row) _ h₂ in
    let (k, at_k, h₄) = >>=-eq-ok (get_i64 3 row) _ h₃ in
    let (rest, whole) =
      four_values row (ValueRef.text name) (ValueRef.text type) (ValueRef.integer n)
        (ValueRef.integer k) (get_text-ok 0 row name at_name) (get_text-ok 1 row type at_type)
        (get_i64-ok 2 row n at_n) (get_i64-ok 3 row k at_k) in
    subst (λ x. IsRow (ok row) x) (ok_inj _ c h₄)
      (n, k, rest, ap ok whole, nonzero-zero n, nonzero-zero k)

column_rows-AreRows :
    (steps : List (Result Row)) (columns : List PhysicalColumn)
    → column_rows steps ≡ ok columns
    → AreRows steps columns
unfolding column_rows
column_rows-AreRows [] columns h = subst (λ cs. AreRows [] cs) (ok_inj [] columns h) tt
column_rows-AreRows (step ∷ steps) columns h =
    let (row, at, h₁) = >>=-eq-ok step _ h in
    let (c, is, h₂) = >>=-eq-ok (column_row row) _ h₁ in
    let (cs, others, h₃) = >>=-eq-ok (column_rows steps) _ h₂ in
    subst (λ x. AreRows (step ∷ steps) x) (ok_inj (c ∷ cs) columns h₃)
      (
        subst (λ s. IsRow s c) (sym at) (column_row-IsRow row c is),
        column_rows-AreRows steps cs others,
      )

-- A table that passes the check was read without an error; its columns are those of the rows that the
-- engine gave, as many as the schema has fields; and each field has among them a column of its name,
-- with the field's storage class, NOT NULL exactly if the field is not nullable, and of the key exactly
-- if the field is.
pub validate_physical_table-HasColumn :
    (t : Transaction) (schema : CollectionSchema) (tx : t.Tx)
    → validate_physical_table t schema tx ≡ ok tt
    → (steps : List (Result Row)) × (columns : List PhysicalColumn) × (t.query table_columns_sql
          (ValueRef.text schema.table ∷ [])
          tx
        ≡ ok steps)
      × AreRows steps columns
      × (length columns ≡ length schema.fields)
      × All (HasColumn columns) schema.fields
unfolding validate_physical_table
validate_physical_table-HasColumn t schema tx h =
    let (columns, read, h₁) = >>=-eq-ok (table_columns t schema tx) _ h in
    let (steps, given, rows) =
      >>=-eq-ok (t.query table_columns_sql (ValueRef.text schema.table ∷ []) tx) column_rows read in
    let (count, h₂) =
      reject_if-ok (not (length columns == length schema.fields)) schema_mismatch _ h₁ in
    (
      steps,
      columns,
      given,
      column_rows-AreRows steps columns rows,
      ground (arith, count),
      check_columns-ok schema.fields columns h₂,
    )
