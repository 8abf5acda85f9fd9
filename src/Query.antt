-- ===== src/Query.antt =====
-- crates/csgdb/src/query.rs: typed collection queries and their compilation to SQL with bound values.
-- The Rust types of the fields are gone here: every field carries its schema, as in the code. A real
-- is the 64 bits of its double.
pub mod Plan
pub mod Compiled
pub mod Placeholders
pub mod Accepted
mod Examples
use csgdb.Prelude.{
  ℕ, suc, ◌/◌, ◌%◌, ◌^◌, Bool_eq, Bool, true, false, ◌&&◌, ◌||◌, List, [], ◌∷◌, ◌++◌, Option, none,
  some, Str, str, str_eq, length, ltb, leb, ◌==◌, u64_max, if◌then◌else◌,
}
use csgdb.Prelude.Int.{ℤ, pos}
use csgdb.Core.Error.{Result, ok, err, reject_if, ◌>>◌, ◌>>=◌, invalid_query}
use csgdb.Core.Value.{Value}
use csgdb.Collection.{
  ColumnType, column_type_eq, FieldSchema, CollectionSchema, primary_key, contains, is_empty,
  validate_collection_schema,
}
use mathlib.Core.Bool

abbrev pub max_query_limit : ℕ
max_query_limit = 10000

abbrev pub max_predicate_nodes : ℕ
max_predicate_nodes = 256

abbrev pub max_predicate_depth : ℕ
max_predicate_depth = 32

abbrev pub max_query_order_fields : ℕ
max_query_order_fields = 8

pub data Comparison : Type 0 where
  equal not_equal less less_or_equal greater greater_or_equal : Comparison

pub data NullComparison : Type 0 where
  is_null is_not_null : NullComparison

pub data PredicateNode : Type 0 where
  compare : FieldSchema → Comparison → Value → PredicateNode
  null : FieldSchema → NullComparison → PredicateNode
  and : PredicateNode → PredicateNode → PredicateNode
  or : PredicateNode → PredicateNode → PredicateNode
  not : PredicateNode → PredicateNode

pub data OrderDirection : Type 0 where
  ascending descending : OrderDirection

pub record QueryOrder : Type 0 where
  pub field : FieldSchema
  pub direction : OrderDirection

pub record QueryDraft : Type 0 where
  pub predicate : Option PredicateNode
  pub order : List QueryOrder

-- `QueryDraft::new`, `filter` and `order_by`.
unfoldable pub new : QueryDraft
new = record { predicate = none; order = [] }

abbrev conjoin : Option PredicateNode → PredicateNode → PredicateNode
conjoin none p = p
conjoin (some existing) p = PredicateNode.and existing p

unfoldable pub filter : QueryDraft → PredicateNode → QueryDraft
filter q p = record q { predicate = some (conjoin q.predicate p) }

unfoldable pub order_by : QueryDraft → QueryOrder → QueryDraft
order_by q o = record q { order = q.order ++ o ∷ [] }

-- A quote, and an identifier whose quotes are doubled.
abbrev pub quote : ℕ
quote = 34

abbrev pub escape : Str → Str
escape [] = []
escape (c ∷ cs) = if c == quote then quote ∷ quote ∷ escape cs else c ∷ escape cs

abbrev pub push_identifier : Str → Str → Str
push_identifier sql identifier = sql ++ quote ∷ escape identifier ++ quote ∷ []

-- The text, the bound values and the nodes visited so far.
pub record Draft : Type 0 where
  pub sql : Str
  pub values : List Value
  pub nodes : ℕ

abbrev pub push_str : Str → Draft → Draft
push_str s d = record d { sql = d.sql ++ s }

abbrev pub push_column : FieldSchema → Draft → Draft
push_column f d = record d { sql = push_identifier d.sql f.column }

abbrev pub push_value : Value → Draft → Draft
push_value v d = record d { values = d.values ++ v ∷ [] }

abbrev pub field_eq : FieldSchema → FieldSchema → Bool
field_eq f g =
    str_eq f.id g.id
    && str_eq f.column g.column
    && column_type_eq f.column_type g.column_type
    && Bool_eq f.nullable g.nullable
    && Bool_eq f.primary_key g.primary_key

abbrev pub known_field : List FieldSchema → FieldSchema → Bool
known_field [] f = false
known_field (g ∷ gs) f = field_eq g f || known_field gs f

unfoldable pub validate_field : CollectionSchema → FieldSchema → Result (Unit {0})
validate_field schema f = reject_if (Bool.not (known_field schema.fields f)) invalid_query

-- `f64::is_finite`: the exponent is not all ones.
abbrev pub is_finite : ℕ → Bool
is_finite x = Bool.not ((x / 2 ^ 52) % 2 ^ 11 == 2047)

abbrev pub fits : FieldSchema → Value → Bool
fits f Value.null = f.nullable
fits f (Value.integer n) = column_type_eq f.column_type ColumnType.integer
fits f (Value.real x) = column_type_eq f.column_type ColumnType.real && is_finite x
fits f (Value.text s) = column_type_eq f.column_type ColumnType.text
fits f (Value.blob b) = column_type_eq f.column_type ColumnType.blob

unfoldable pub validate_bound_value : FieldSchema → Value → Result (Unit {0})
validate_bound_value f v = reject_if (Bool.not (fits f v)) invalid_query

abbrev pub operator : Comparison → Str
operator Comparison.equal = str " = ?"
operator Comparison.not_equal = str " <> ?"
operator Comparison.less = str " < ?"
operator Comparison.less_or_equal = str " <= ?"
operator Comparison.greater = str " > ?"
operator Comparison.greater_or_equal = str " >= ?"

abbrev pub null_operator : NullComparison → Str
null_operator NullComparison.is_null = str " IS NULL"
null_operator NullComparison.is_not_null = str " IS NOT NULL"

abbrev pub compare_null : Comparison → Draft → Result Draft
compare_null Comparison.equal d = ok (push_str (str " IS NULL") d)
compare_null Comparison.not_equal d = ok (push_str (str " IS NOT NULL") d)
compare_null _ d = err invalid_query

abbrev pub compare_value : Comparison → Value → Draft → Result Draft
compare_value c Value.null d = compare_null c d
compare_value c v d = ok (push_value v (push_str (operator c) d))

-- The node is counted, and the limits are checked.
abbrev pub enter : ℕ → Draft → Result Draft
enter depth d =
    reject_if (leb u64_max d.nodes) invalid_query
    >> (reject_if (ltb max_predicate_depth depth || ltb max_predicate_nodes (suc d.nodes))
          invalid_query
        >> ok (record d { nodes = suc d.nodes }))

unfoldable pub compile_predicate : CollectionSchema → PredicateNode → ℕ → Draft → Result Draft
unfolding validate_field validate_bound_value
compile_predicate schema (PredicateNode.compare f c v) depth d = do
  d₁ ← enter depth d
  validate_field schema f
  validate_bound_value f v
  d₂ ← compare_value c v (push_column f (push_str (str "(") d₁))
  ok (push_str (str ")") d₂)
compile_predicate schema (PredicateNode.null f c) depth d = do
  d₁ ← enter depth d
  validate_field schema f
  reject_if (Bool.not f.nullable) invalid_query
  ok (push_str (str ")") (push_str (null_operator c) (push_column f (push_str (str "(") d₁))))
compile_predicate schema (PredicateNode.and p q) depth d = do
  d₁ ← enter depth d
  d₂ ← compile_predicate schema p (suc depth) (push_str (str "(") d₁)
  d₃ ← compile_predicate schema q (suc depth) (push_str (str " AND ") d₂)
  ok (push_str (str ")") d₃)
compile_predicate schema (PredicateNode.or p q) depth d = do
  d₁ ← enter depth d
  d₂ ← compile_predicate schema p (suc depth) (push_str (str "(") d₁)
  d₃ ← compile_predicate schema q (suc depth) (push_str (str " OR ") d₂)
  ok (push_str (str ")") d₃)
compile_predicate schema (PredicateNode.not p) depth d = do
  d₁ ← enter depth d
  d₂ ← compile_predicate schema p (suc depth) (push_str (str "(NOT ") d₁)
  ok (push_str (str ")") d₂)
