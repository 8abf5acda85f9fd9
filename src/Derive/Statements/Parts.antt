-- ===== src/Derive/Statements/Parts.antt =====
-- crates/csgdb-derive/src/lib.rs: the placeholders of the parts that the generated statements are made of.
use csgdb.Prelude.{
  ℕ, ◌+◌, ◌*◌, ◌/◌, ◌%◌, ◌≡◌, refl, ap, inl, inr, Bool-cases, Bool, true, false, List, [], ◌∷◌,
  ◌++◌, map, Str, str, decimal, decimal_from, join, length, if◌then◌else◌, arith, All,
}
use csgdb.Collection.{ColumnType, FieldSchema}
use csgdb.Collection.Update.{count_keys}
use csgdb.Query.Placeholders.{
  placeholders, inside_after, Holds, Holds-append, Holds-plain, Holds-behind, Holds-quoted,
  Holds-count,
}
use csgdb.Derive.Sql.{
  quote_identifier, sql_storage, column_constraints, column_definition, numbered, parameters_from,
  assignments_from,
}

Holds-decimal_from : (fuel n : ℕ) (s : Str) → Holds s 0 → Holds (decimal_from fuel n s) 0
unfolding decimal_from placeholders inside_after
Holds-decimal_from ℕ.zero n s h = h
Holds-decimal_from (ℕ.suc fuel) n s h =
    let digit : Holds ((48 + n % 10) ∷ s) 0 = (ground (arith, h), ground (arith, h)) in
    let rest = Holds-decimal_from fuel (n / 10) ((48 + n % 10) ∷ s) digit in
    (ground (arith, h, rest), ground (arith, h, rest))

pub Holds-numbered : (n : ℕ) → Holds (numbered n) 1
unfolding placeholders inside_after
Holds-numbered n =
    Holds-append (str "?") (decimal n) 1 0 (refl, refl)
      (Holds-decimal_from (n + 1) n [] (refl, refl))

-- The joined texts have the placeholders of each.
pub Holds-join :
    (k : ℕ) (ss : List Str) → All (λ s. Holds s k) ss → Holds (join (str ", ") ss) (length ss * k)
unfolding placeholders inside_after
Holds-join k [] h = (omega arith, refl)
Holds-join k (s ∷ []) h = Holds-count s k _ (omega arith) h.0
Holds-join k (s ∷ t ∷ ts) h = Holds-count (join (str ", ") (s ∷ t ∷ ts)) _ _ (ground arith) (
    Holds-append s (str ", " ++ join (str ", ") (t ∷ ts)) k _ h.0 (
      Holds-behind (str ", ") (join (str ", ") (t ∷ ts)) _ (refl, refl)
        (Holds-join k (t ∷ ts) h.1)))

pub Holds-join_plain : (ss : List Str) → All (λ s. Holds s 0) ss → Holds (join (str ", ") ss) 0
Holds-join_plain ss h =
    Holds-count (join (str ", ") ss) (length ss * 0) 0 (omega arith) (Holds-join 0 ss h)

-- A list between brackets, behind a text and before another.
pub Holds-bracketed :
    (before list after : Str) (n : ℕ)
    → Holds before 0
    → Holds list n
    → Holds after 0
    → Holds (before ++ (str " (" ++ (list ++ after))) n
unfolding placeholders inside_after
Holds-bracketed before list after n h k l =
    Holds-behind before (str " (" ++ (list ++ after)) n h
      (Holds-behind (str " (") (list ++ after) n (refl, refl) (Holds-plain list after n k l))

pub All-quoted_columns :
    (fs : List FieldSchema) → All (λ s. Holds s 0) (map (λ f. quote_identifier f.column) fs)
All-quoted_columns [] = tt
All-quoted_columns (f ∷ fs) = (Holds-quoted f.column, All-quoted_columns fs)

pub All-quoted : (cs : List Str) → All (λ s. Holds s 0) (map quote_identifier cs)
All-quoted [] = tt
All-quoted (c ∷ cs) = (Holds-quoted c, All-quoted cs)

Holds-sql_storage : (t : ColumnType) → Holds (sql_storage t) 0
unfolding placeholders inside_after
Holds-sql_storage ColumnType.integer = (refl, refl)
Holds-sql_storage ColumnType.real = (refl, refl)
Holds-sql_storage ColumnType.text = (refl, refl)
Holds-sql_storage ColumnType.blob = (refl, refl)

pub Holds-if : (b : Bool) (s t : Str) → Holds s 0 → Holds t 0 → Holds (if b then s else t) 0
Holds-if true s t h k = h
Holds-if false s t h k = k

Holds-column_definition : (f : FieldSchema) → Holds (column_definition f) 0
unfolding placeholders inside_after
Holds-column_definition f =
    Holds-behind (quote_identifier f.column)
      (str " " ++ (sql_storage f.column_type ++ column_constraints f)) 0 (Holds-quoted f.column)
      (Holds-behind (str " ") (sql_storage f.column_type ++ column_constraints f) 0 (refl, refl)
        (Holds-plain (sql_storage f.column_type) (column_constraints f) 0
          (Holds-sql_storage f.column_type)
          (Holds-plain (if f.nullable then [] else str " NOT NULL")
            (if f.primary_key then str " PRIMARY KEY" else []) 0
            (Holds-if f.nullable [] (str " NOT NULL") (refl, refl) (refl, refl))
            (Holds-if f.primary_key (str " PRIMARY KEY") [] (refl, refl) (refl, refl)))))

pub All-column_definitions :
    (fs : List FieldSchema) → All (λ s. Holds s 0) (map column_definition fs)
All-column_definitions [] = tt
All-column_definitions (f ∷ fs) = (Holds-column_definition f, All-column_definitions fs)

pub All-parameters_from :
    (n : ℕ) (fs : List FieldSchema) → All (λ s. Holds s 1) (parameters_from n fs)
All-parameters_from n [] = tt
All-parameters_from n (f ∷ fs) = (Holds-numbered n, All-parameters_from (ℕ.suc n) fs)

pub length-parameters_from :
    (n : ℕ) (fs : List FieldSchema) → length (parameters_from n fs) ≡ length fs
length-parameters_from n [] = refl
length-parameters_from n (f ∷ fs) = ap ℕ.suc (length-parameters_from (ℕ.suc n) fs)

Holds-assignment :
    (f : FieldSchema) (n : ℕ) → Holds (quote_identifier f.column ++ (str " = " ++ numbered n)) 1
unfolding placeholders inside_after
Holds-assignment f n =
    Holds-behind (quote_identifier f.column) (str " = " ++ numbered n) 1 (Holds-quoted f.column)
      (Holds-behind (str " = ") (numbered n) 1 (refl, refl) (Holds-numbered n))

pub All-assignments_from :
    (n : ℕ) (fs : List FieldSchema) → All (λ s. Holds s 1) (assignments_from n fs)
All-assignments_from n [] = tt
All-assignments_from n (f ∷ fs) = elim (Bool-cases f.primary_key) [
  | inl p ↦ ground (arith, p, All-assignments_from n fs)
  | inr p ↦ ground (arith, p, Holds-assignment f n, All-assignments_from (ℕ.suc n) fs)
]

pub length-assignments_from :
    (n : ℕ) (fs : List FieldSchema) → length (assignments_from n fs) + count_keys fs ≡ length fs
length-assignments_from n [] = omega arith
length-assignments_from n (f ∷ fs) =
    ground (arith, length-assignments_from n fs, length-assignments_from (ℕ.suc n) fs)
