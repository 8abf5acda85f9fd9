-- ===== src/Derive/Passes/Indexes.antt =====
-- crates/csgdb-derive/src/lib.rs: the indexes that the derive macro makes pass the check of a schema.
use csgdb.Prelude.{
  str_eq_refl, str_eq_sym, sym, ◌∙◌, subst, ◌≡◌, refl, inl, inr, Bool-cases, Bool, true, false, not,
  List, [], ◌∷◌, map, some, Str, str_eq, str_eq_sound, arith, All,
}
use csgdb.Core.Error.{ok}
use csgdb.Collection.{
  bad_index, FieldSchema, IndexSchema, is_empty, starts_with, reserved, contains,
  check_index_columns, check_indexes,
}
use csgdb.Collection.Valid.{Distinct, columns}
use csgdb.Derive.{IndexAttributes, validate_stable_name, validate_sql_name}
use csgdb.Derive.Sql.{canonical_index}
use csgdb.Derive.Expand.{find_field, index_columns, derive_index, derive_indexes}
use csgdb.Derive.Passes.Steps.{
  validate_stable_name-valid, validate_sql_name-valid, >>=-eq-some, require-some,
}

find_field-contains :
    (id : Str) (fields : List FieldSchema) (f : FieldSchema)
    → find_field id fields ≡ some f
    → contains f.column (columns fields) ≡ true
unfolding find_field
find_field-contains id [] f h = cc
find_field-contains id (g ∷ gs) f h = elim (Bool-cases (str_eq g.id id)) [
  | inl p ↦ ground (arith, h, p, str_eq_refl g.column)
  | inr p ↦ ground (arith, find_field-contains id gs f (ground (arith, h, p)))
]

-- A name unlike each of the others is not among them.
contains-apart :
    (s : Str) (ss : List Str) → All (λ t. str_eq t s ≡ false) ss → contains s ss ≡ false
contains-apart s [] h = refl
contains-apart s (t ∷ ts) h = ground (arith, h.0, str_eq_sym s t, contains-apart s ts h.1)

-- A field's column is not that of a field found behind it.
find_field-apart :
    (x : FieldSchema) (xs : List FieldSchema) (id : Str) (g : FieldSchema)
    → Distinct (columns (x ∷ xs))
    → find_field id xs ≡ some g
    → str_eq x.column g.column ≡ true
    → ⊥
find_field-apart x xs id g d h same =
    let apart = contains-apart x.column (columns xs) d.0 in
    let found = find_field-contains id xs g h in let e = str_eq_sound x.column g.column same in cc

-- Two fields with one column are one field, where the columns are distinct.
find_field-column :
    (fields : List FieldSchema) (a b : Str) (f g : FieldSchema)
    → Distinct (columns fields)
    → find_field a fields ≡ some f
    → find_field b fields ≡ some g
    → str_eq f.column g.column ≡ true
    → a ≡ b
unfolding find_field
find_field-column [] a b f g d h k same = cc
find_field-column (x ∷ xs) a b f g d h k same = elim (Bool-cases (str_eq x.id a)) [
  | inl p ↦ elim (Bool-cases (str_eq x.id b)) [
    | inl q ↦ sym (str_eq_sound x.id a p) ∙ str_eq_sound x.id b q
    | inr q ↦
        absurd (find_field-apart x xs b g d (ground (arith, k, q)) (ground (arith, h, p, same)))
  ]
  | inr p ↦ elim (Bool-cases (str_eq x.id b)) [
    | inl q ↦ absurd (
        find_field-apart x xs a f d (ground (arith, h, p))
          (ground (arith, k, q, same, str_eq_sym f.column g.column)))
    | inr q ↦ find_field-column xs a b f g d.1 (ground (arith, h, p)) (ground (arith, k, q)) same
  ]
]

-- The pairs are of the table's fields, each with its column.
abbrev Found : List FieldSchema → List (Str × Str) → Type 0
Found fields = All (λ c. (f : FieldSchema) × (find_field c.0 fields ≡ some f) × (f.column ≡ c.1))

abbrev firsts : List (Str × Str) → List Str
firsts = map (λ c. c.0)

abbrev seconds : List (Str × Str) → List Str
seconds = map (λ c. c.1)

-- A new field has a new column.
Found-new :
    (fields : List FieldSchema) (seen : List (Str × Str)) (id : Str) (f : FieldSchema)
    → Distinct (columns fields)
    → find_field id fields ≡ some f
    → Found fields seen
    → contains id (firsts seen) ≡ false
    → contains f.column (seconds seen) ≡ false
Found-new fields [] id f d h all new = refl
Found-new fields (c ∷ cs) id f d h all new =
    let (g, at, is) = all.0 in
    let rest = Found-new fields cs id f d h all.1 (ground (arith, new)) in
    elim (Bool-cases (str_eq f.column c.1)) [
      | inl p ↦
          let e =
            find_field-column fields id c.0 f g d h at
              (subst (λ s. str_eq f.column s ≡ true) (sym is) p) in
          let r = str_eq_refl id in let n : str_eq id c.0 ≡ false = ground (arith, new) in absurd cc
      | inr p ↦ ground (arith, p, rest)
    ]

index_columns-pass :
    (fields : List FieldSchema) (ids : List Str) (seen pairs : List (Str × Str))
    → Distinct (columns fields)
    → Found fields seen
    → index_columns fields ids (firsts seen) ≡ some pairs
    → check_index_columns (columns fields) (seconds pairs) (seconds seen) ≡ ok tt
unfolding index_columns check_index_columns
index_columns-pass fields [] seen pairs d all h = ground (arith, h)
index_columns-pass fields (id ∷ ids) seen pairs d all h =
    let (new, h₁) = require-some (not (contains id (firsts seen))) _ h in
    let (f, at, h₂) = >>=-eq-some (find_field id fields) _ h₁ in
    let (rest, later, h₃) = >>=-eq-some (index_columns fields ids (id ∷ firsts seen)) _ h₂ in
    let known = find_field-contains id fields f at in
    let fresh = Found-new fields seen id f d at all (ground (arith, new)) in
    let passed =
      index_columns-pass fields ids ((id, f.column) ∷ seen) rest d ((f, at, refl), all) later in
    ground (arith, h₃, known, fresh, passed)

index_columns-some :
    (fields : List FieldSchema) (ids : List Str) (pairs : List (Str × Str))
    → index_columns fields ids [] ≡ some pairs
    → is_empty ids ≡ false
    → is_empty (seconds pairs) ≡ false
unfolding index_columns
index_columns-some fields [] pairs h e = cc
index_columns-some fields (id ∷ ids) pairs h e =
    let (f, _, h₁) = >>=-eq-some (find_field id fields) _ h in
    let (rest, _, h₂) = >>=-eq-some (index_columns fields ids (id ∷ [])) _ h₁ in ground (arith, h₂)

canonical_index-some :
    (collection table id name : Str) (unique : Bool) (columns : List (Str × Str))
    → is_empty (canonical_index collection table id name unique columns) ≡ false
unfolding canonical_index
canonical_index-some collection table id name unique columns = refl

module _ (digest : Str → Str) where
  derive_index-passes :
      (collection table : Str) (fields : List FieldSchema) (a : IndexAttributes)
      (ids names : List Str) (i : IndexSchema)
      → Distinct (columns fields)
      → derive_index digest collection table fields a ids names ≡ some i
      → (bad_index i ids names ≡ false)
        × (check_index_columns (columns fields) i.columns [] ≡ ok tt)
  derive_index-passes collection table fields a ids names i d h =
      let (id, _, h₁) = >>=-eq-some a.id _ h in
      let (name, _, h₂) = >>=-eq-some a.name _ h₁ in
      let (u, stable, h₃) = >>=-eq-some (validate_stable_name id) _ h₂ in
      let (v, named, h₄) = >>=-eq-some (validate_sql_name name false) _ h₃ in
      let (free, h₅) = require-some (not (starts_with reserved name)) _ h₄ in
      let (new_id, h₆) = require-some (not (contains id ids)) _ h₅ in
      let (new_name, h₇) = require-some (not (contains name names)) _ h₆ in
      let (given, h₈) = require-some (not (is_empty a.fields)) _ h₇ in
      let (pairs, at, h₉) = >>=-eq-some (index_columns fields a.fields []) _ h₈ in
      let valid_id = validate_stable_name-valid id u stable in
      let (valid, _) = validate_sql_name-valid name false v named in
      let several = index_columns-some fields a.fields pairs at (ground (arith, given)) in
      let passed = index_columns-pass fields a.fields [] pairs d tt at in
      let described = canonical_index-some collection table id name a.unique pairs in
      (
        ground (arith, h₉, valid_id, valid, free, new_id, new_name, several, described),
        ground (arith, h₉, passed),
      )

  pub derive_indexes-pass :
      (collection table : Str) (fields : List FieldSchema) (all : List IndexAttributes)
      (ids names : List Str) (is : List IndexSchema)
      → Distinct (columns fields)
      → derive_indexes digest collection table fields all ids names ≡ some is
      → check_indexes (columns fields) is ids names ≡ ok tt
  unfolding derive_indexes check_indexes
  derive_indexes-pass collection table fields [] ids names is d h = ground (arith, h)
  derive_indexes-pass collection table fields (a ∷ rest) ids names is d h =
      let (i, here, h₁) =
        >>=-eq-some (derive_index digest collection table fields a ids names) _ h in
      let (later, found, h₂) =
        >>=-eq-some
          (derive_indexes digest collection table fields rest (i.id ∷ ids) (i.name ∷ names)) _ h₁ in
      let (good, known) = derive_index-passes collection table fields a ids names i d here in
      let passed =
        derive_indexes-pass collection table fields rest (i.id ∷ ids) (i.name ∷ names) later d
          found in
      ground (arith, h₂, good, known, passed)

check_index_columns-same :
    (a b cs seen : List Str)
    → ((s : Str) → contains s a ≡ contains s b)
    → check_index_columns a cs seen ≡ check_index_columns b cs seen
unfolding check_index_columns
check_index_columns-same a b [] seen e = refl
check_index_columns-same a b (c ∷ cs) seen e =
    ground (arith, e c, check_index_columns-same a b cs (c ∷ seen) e)

pub check_indexes-same :
    (a b : List Str) (is : List IndexSchema) (ids names : List Str)
    → ((s : Str) → contains s a ≡ contains s b)
    → check_indexes a is ids names ≡ check_indexes b is ids names
unfolding check_indexes
check_indexes-same a b [] ids names e = refl
check_indexes-same a b (i ∷ is) ids names e = ground (
  arith,
  check_index_columns-same a b i.columns [] e,
  check_indexes-same a b is (i.id ∷ ids) (i.name ∷ names) e,
)
