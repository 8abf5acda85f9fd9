-- ===== src/Query/Examples.antt =====
-- Queries over a collection whose column names are hostile.
use csgdb.Prelude.{
  ◌≡◌, refl, ◌≤◌, true, false, List, [], ◌∷◌, ◌++◌, length, some, none, str, str_eq, if◌then◌else◌,
}
use csgdb.Prelude.Int.{pos}
use csgdb.Core.Error.{ok, err, invalid_query}
use csgdb.Core.Value.{Value}
use csgdb.Collection.{
  ColumnType, FieldSchema, CollectionSchema, text, validate_collection_schema, valid_name,
  primary_key,
}
use csgdb.Collection.Valid.{Valid}
use csgdb.Query.{
  Comparison, NullComparison, PredicateNode, OrderDirection, QueryOrder, Draft, validate_field,
  validate_bound_value, compile_predicate,
}
use csgdb.Query.Plan.{CollectionQuery, compile_query, push_terms}
use csgdb.Query.Compiled.{accepted, after, compile_predicate_eq}
use csgdb.Query.Placeholders.{Holds}
use csgdb.Query.Accepted.{AcceptedWhere, binds_of_where, compile_query-bound}

abbrev id_field : FieldSchema
id_field = record {
  id = str "id";
  column = str "id";
  column_type = ColumnType.integer;
  nullable = false;
  primary_key = true;
}

-- The column is named by a quote and a question mark.
abbrev odd_field : FieldSchema
odd_field = record {
  id = str "odd";
  column = 34 ∷ 63 ∷ [];
  column_type = text;
  nullable = true;
  primary_key = false;
}

abbrev notes : CollectionSchema
notes = record {
  id = str "notes";
  table = str "notes";
  version = 1;
  fingerprint = str "f1";
  fields = id_field ∷ odd_field ∷ [];
  canonical_descriptor = str "notes v1";
  indexes = [];
}

abbrev wanted : PredicateNode
wanted =
    PredicateNode.and (PredicateNode.compare odd_field Comparison.equal (Value.text (str "x")))
      (PredicateNode.not (PredicateNode.compare id_field Comparison.less (Value.integer (pos 3))))

-- The field is not one of the collection's.
abbrev forged : FieldSchema
forged = record id_field { column = str "secret" }

abbrev newest_first : List QueryOrder
newest_first = record { field = id_field; direction = OrderDirection.descending } ∷ []

abbrev plan : CollectionQuery
plan = record {
  sql =
      str
        "SELECT \"id\", \"\"\"?\" FROM \"notes\" WHERE ((\"\"\"?\" = ?) AND (NOT (\"id\" < ?))) ORDER BY \"id\" DESC LIMIT ?";
  values = Value.text (str "x") ∷ Value.integer (pos 3) ∷ Value.integer (pos 10) ∷ [];
  limit = 10;
}

planned : compile_query notes (some wanted) newest_first 10 ≡ ok plan
unfolding compile_query validate_collection_schema valid_name str_eq primary_key compile_predicate
    validate_field validate_bound_value push_terms
planned = refl

forged_field :
    compile_query notes (some (PredicateNode.null forged NullComparison.is_null)) [] 10
    ≡ err invalid_query
unfolding compile_query validate_collection_schema valid_name str_eq primary_key compile_predicate
    validate_field validate_bound_value push_terms
forged_field = refl

ordered_twice :
    compile_query notes none
      (record { field = id_field; direction = OrderDirection.ascending } ∷ newest_first)
      10
    ≡ err invalid_query
unfolding compile_query validate_collection_schema valid_name str_eq primary_key compile_predicate
    validate_field validate_bound_value push_terms
ordered_twice = refl

compile_query-bound_example :
    Valid notes
    × (1 ≤ 10)
    × (10 ≤ 10000)
    × (plan.limit ≡ 10)
    × AcceptedWhere notes (some wanted)
    × (plan.values ≡ binds_of_where (some wanted) ++ Value.integer (pos 10) ∷ [])
    × Holds plan.sql (length plan.values)
compile_query-bound_example = compile_query-bound notes (some wanted) newest_first 10 plan planned

abbrev where_clause : Draft
where_clause = record { sql = str "SELECT 1 FROM \"notes\" WHERE "; values = []; nodes = 0 }

compile_predicate_eq_example :
    compile_predicate notes wanted 1 where_clause
    ≡ (if accepted notes wanted 1 0 then ok (after wanted where_clause) else err invalid_query)
compile_predicate_eq_example = compile_predicate_eq notes wanted 1 where_clause
