-- ===== src/Query/Plan.antt =====
-- crates/csgdb/src/query.rs: the finished plans, `compile_query` and `compile_exists_query`.
use csgdb.Prelude.{
  ℕ, Bool, true, false, not, ◌||◌, List, [], ◌∷◌, ◌++◌, Option, none, some, Str, str, length, ltb,
  ◌==◌, if◌then◌else◌,
}
use csgdb.Prelude.Int.{pos}
use csgdb.Core.Error.{Result, ok, err, reject_if, ◌>>◌, ◌>>=◌, invalid_query}
use csgdb.Core.Value.{Value}
use csgdb.Collection.{
  FieldSchema, CollectionSchema, primary_key, contains, is_empty, validate_collection_schema,
}
use csgdb.Query.{
  max_query_limit, max_query_order_fields, PredicateNode, OrderDirection, QueryOrder, QueryDraft,
  push_identifier, Draft, validate_field, compile_predicate,
}

pub record CollectionQuery : Type 0 where
  pub sql : Str
  pub values : List Value
  pub limit : ℕ

pub record CollectionExistsQuery : Type 0 where
  pub sql : Str
  pub values : List Value

abbrev pub ok_or_invalid {ℓ} : {A : Type ℓ} → Option A → Result A
ok_or_invalid none = err invalid_query
ok_or_invalid (some a) = ok a

-- `map_err(|_| invalid_query())`
abbrev pub as_invalid_query {ℓ} : {A : Type ℓ} → Result A → Result A
as_invalid_query (ok a) = ok a
as_invalid_query (err x) = err invalid_query

abbrev pub separator : Bool → Str
separator true = []
separator false = str ", "

abbrev pub push_columns : Bool → List FieldSchema → Str → Str
push_columns first [] sql = sql
push_columns first (f ∷ fs) sql =
    push_columns false fs (push_identifier (sql ++ separator first) f.column)

abbrev pub direction_text : OrderDirection → Str
direction_text OrderDirection.ascending = str " ASC"
direction_text OrderDirection.descending = str " DESC"

abbrev pub push_order : Str → FieldSchema → OrderDirection → Str
push_order sql f direction = push_identifier sql f.column ++ direction_text direction

-- The loop over the ordering terms: the text, and the identities ordered by.
unfoldable pub push_terms :
    CollectionSchema → Bool → List QueryOrder → Str → List Str → Result (Str × List Str)
push_terms schema first [] sql ordered = ok (sql, ordered)
push_terms schema first (term ∷ terms) sql ordered = do
  validate_field schema (term.field)
  reject_if (contains term.field.id ordered) invalid_query
  push_terms schema false terms (push_order (sql ++ separator first) term.field term.direction)
      (term.field.id ∷ ordered)

-- The key is the last ordering term, unless it is one already.
abbrev pub order_by_key : FieldSchema → List QueryOrder → Str × List Str → Str
order_by_key key order (sql, ordered) =
    if contains key.id ordered
    then sql
    else push_order (sql ++ separator (is_empty order)) key OrderDirection.ascending

-- The ` WHERE ` clause, if there is a predicate.
abbrev pub push_where : CollectionSchema → Option PredicateNode → Str → Result Draft
push_where schema none sql = ok (record { sql = sql; values = []; nodes = 0 })
push_where schema (some p) sql =
    compile_predicate schema p 1 (record { sql = sql ++ str " WHERE "; values = []; nodes = 0 })

abbrev pub select_text : CollectionSchema → Str
select_text schema =
    push_identifier (push_columns true schema.fields (str "SELECT ") ++ str " FROM ") schema.table

unfoldable pub compile_exists_query :
    CollectionSchema → Option PredicateNode → List QueryOrder → Result CollectionExistsQuery
compile_exists_query schema predicate order = do
  reject_if (not (is_empty order)) invalid_query
  as_invalid_query (validate_collection_schema schema)
  d ← push_where schema predicate (push_identifier (str "SELECT 1 FROM ") schema.table)
  ok (record { sql = d.sql ++ str " LIMIT 1"; values = d.values })

abbrev pub finished : FieldSchema → List QueryOrder → ℕ → Draft → Str × List Str → CollectionQuery
finished key order limit d terms = record {
  sql = order_by_key key order terms ++ str " LIMIT ?";
  values = d.values ++ Value.integer (pos limit) ∷ [];
  limit = limit;
}

unfoldable pub compile_query :
    CollectionSchema → Option PredicateNode → List QueryOrder → ℕ → Result CollectionQuery
unfolding push_terms
compile_query schema predicate order limit = do
  reject_if (limit == 0 || ltb max_query_limit limit || ltb max_query_order_fields (length order))
      invalid_query
  as_invalid_query (validate_collection_schema schema)
  key ← ok_or_invalid (primary_key schema)
  d ← push_where schema predicate (select_text schema)
  terms ← push_terms schema true order (d.sql ++ str " ORDER BY ") []
  ok (finished key order limit d terms)

-- `QueryDraft::take` and `QueryDraft::exists`.
unfoldable pub take : CollectionSchema → QueryDraft → ℕ → Result CollectionQuery
unfolding compile_query
take schema q limit = compile_query schema q.predicate q.order limit

unfoldable pub exists : CollectionSchema → QueryDraft → Result CollectionExistsQuery
unfolding compile_exists_query
exists schema q = compile_exists_query schema q.predicate q.order
