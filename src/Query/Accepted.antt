-- ===== src/Query/Accepted.antt =====
-- What a finished query promises to the engine that runs it.
use csgdb.Prelude.{
  ℕ, ◌≤◌, ◌≡◌, refl, sym, ap, subst, Bool, true, false, ◌||◌, List, [], ◌∷◌, ◌++◌, Str, str, length,
  length-append, ltb, ◌==◌, Option, none, some, if◌then◌else◌, arith, Bool-cases, inl, inr,
}
use csgdb.Prelude.Int.{pos}
use csgdb.Core.Error.{ok_inj, ok, reject_if-ok, >>=-eq-ok, invalid_query}
use csgdb.Core.Value.{Value}
use csgdb.Collection.{
  FieldSchema, CollectionSchema, primary_key, contains, is_empty, validate_collection_schema,
}
use csgdb.Collection.Valid.{Valid, validate_collection_schema-Valid}
use csgdb.Query.{
  max_query_limit, max_query_order_fields, PredicateNode, OrderDirection, QueryOrder, Draft,
  push_identifier, validate_field,
}
use csgdb.Query.Plan.{
  CollectionQuery, ok_or_invalid, as_invalid_query, separator, push_columns, push_order, push_terms,
  order_by_key, finished, push_where, select_text, compile_query,
}
use csgdb.Query.Compiled.{render, binds, accepted, after, compile_predicate_eq}
use csgdb.Query.Placeholders.{
  placeholders, inside_after, Holds, Holds-append, Holds-plain, Holds-behind, Holds-push_identifier,
  Holds-render,
}

abbrev pub binds_of_where : Option PredicateNode → List Value
binds_of_where none = []
binds_of_where (some p) = binds p

-- The predicate is within the limits, and typed.
abbrev pub AcceptedWhere : CollectionSchema → Option PredicateNode → Type 0
AcceptedWhere s none = Unit
AcceptedWhere s (some p) = accepted s p 1 0 ≡ true

abbrev AcceptedPlan : CollectionSchema → Option PredicateNode → Draft → Type 0
AcceptedPlan s predicate d =
    AcceptedWhere s predicate
    × (d.values ≡ binds_of_where predicate)
    × Holds d.sql (length d.values)

push_where-ok :
    (s : CollectionSchema) (predicate : Option PredicateNode) (sql : Str) (d : Draft)
    → Holds sql 0
    → push_where s predicate sql ≡ ok d
    → AcceptedPlan s predicate d
unfolding placeholders inside_after
push_where-ok s none sql d h e = subst (AcceptedPlan s none) (ok_inj _ _ e) (tt, refl, h)
push_where-ok s (some p) sql d h e =
    let d₀ : Draft = record { sql = sql ++ str " WHERE "; values = []; nodes = 0 } in
    elim (Bool-cases (accepted s p 1 0)) [
      | inl a ↦
          subst (AcceptedPlan s (some p))
            (ok_inj (after p d₀) d (ground (arith, compile_predicate_eq s p 1 d₀, a, e)))
            (
              a,
              refl,
              Holds-behind (sql ++ str " WHERE ") (render p) (length (binds p))
                  (Holds-plain sql (str " WHERE ") 0 h (refl, refl)) (Holds-render p),
            )
      | inr r ↦ absurd (ground (arith, compile_predicate_eq s p 1 d₀, r, e))
    ]

Holds-separator : (first : Bool) → Holds (separator first) 0
unfolding placeholders inside_after
Holds-separator true = (refl, refl)
Holds-separator false = (refl, refl)

Holds-push_columns :
    (first : Bool) (fs : List FieldSchema) (sql : Str)
    → Holds sql 0
    → Holds (push_columns first fs sql) 0
Holds-push_columns first [] sql h = h
Holds-push_columns first (f ∷ fs) sql h = Holds-push_columns false fs _ (
    Holds-push_identifier (sql ++ separator first) f.column 0
      (Holds-plain sql (separator first) 0 h (Holds-separator first)))

Holds-push_order :
    (sql : Str) (f : FieldSchema) (o : OrderDirection) (n : ℕ)
    → Holds sql n
    → Holds (push_order sql f o) n
unfolding placeholders inside_after
Holds-push_order sql f OrderDirection.ascending n h =
    Holds-plain (push_identifier sql f.column) (str " ASC") n
      (Holds-push_identifier sql f.column n h) (refl, refl)
Holds-push_order sql f OrderDirection.descending n h =
    Holds-plain (push_identifier sql f.column) (str " DESC") n
      (Holds-push_identifier sql f.column n h) (refl, refl)

push_terms-ok :
    (s : CollectionSchema) (first : Bool) (terms : List QueryOrder) (sql : Str) (ordered : List Str)
    (r : Str × List Str) (n : ℕ)
    → Holds sql n
    → push_terms s first terms sql ordered ≡ ok r
    → Holds r.0 n
unfolding push_terms
push_terms-ok s first [] sql ordered r n h e = subst (λ r. Holds r.0 n) (ok_inj _ _ e) h
push_terms-ok s first (term ∷ terms) sql ordered r n h e =
    let (_, _, e₁) = >>=-eq-ok (validate_field s term.field) _ e in
    let (_, e₂) = reject_if-ok (contains term.field.id ordered) invalid_query _ e₁ in
    push_terms-ok s false terms _ (term.field.id ∷ ordered) r n
      (Holds-push_order (sql ++ separator first) term.field term.direction n
        (Holds-plain sql (separator first) n h (Holds-separator first)))
      e₂

Holds-select_text : (s : CollectionSchema) → Holds (select_text s) 0
unfolding placeholders inside_after
Holds-select_text s =
    Holds-push_identifier (push_columns true s.fields (str "SELECT ") ++ str " FROM ") s.table 0 (
      Holds-plain (push_columns true s.fields (str "SELECT ")) (str " FROM ") 0
        (Holds-push_columns true s.fields (str "SELECT ") (refl, refl)) (refl, refl))

Holds-if : (b : Bool) (s t : Str) (n : ℕ) → Holds s n → Holds t n → Holds (if b then s else t) n
Holds-if true s t n h k = h
Holds-if false s t n h k = k

Holds-order_by_key :
    (key : FieldSchema) (order : List QueryOrder) (terms : Str × List Str) (n : ℕ)
    → Holds terms.0 n
    → Holds (order_by_key key order terms) n
Holds-order_by_key key order (sql, ordered) n h = Holds-if (contains key.id ordered) sql _ n h (
    Holds-push_order (sql ++ separator (is_empty order)) key OrderDirection.ascending n
      (Holds-plain sql (separator (is_empty order)) n h (Holds-separator (is_empty order))))

-- What the query says of its values.
abbrev Promise : Option PredicateNode → ℕ → CollectionQuery → Type 0
Promise predicate limit q =
    (q.limit ≡ limit)
    × (q.values ≡ binds_of_where predicate ++ Value.integer (pos limit) ∷ [])
    × Holds q.sql (length q.values)

finished-Promise :
    (key : FieldSchema) (predicate : Option PredicateNode) (order : List QueryOrder) (limit : ℕ)
    (d : Draft) (terms : Str × List Str)
    → d.values ≡ binds_of_where predicate
    → Holds terms.0 (length d.values)
    → Promise predicate limit (finished key order limit d terms)
unfolding placeholders inside_after
finished-Promise key predicate order limit d terms e h = (
  refl,
  ap (λ vs. vs ++ Value.integer (pos limit) ∷ []) e,
  subst (Holds (order_by_key key order terms ++ str " LIMIT ?"))
      (sym (length-append d.values (Value.integer (pos limit) ∷ [])))
      (Holds-append (order_by_key key order terms) (str " LIMIT ?") (length d.values) 1
        (Holds-order_by_key key order terms (length d.values) h) (refl, refl)),
)

Valid-after :
    (s : CollectionSchema) (u : Unit {0})
    → as_invalid_query (validate_collection_schema s) ≡ ok u
    → Valid s
Valid-after s u h = validate_collection_schema-Valid s (ground (arith, h))

-- A query that was finished has a schema that passes the check, a limit from 1 to 10,000 and a
-- predicate that is typed and within its limits of depth and nodes; it binds the values of the
-- predicate from left to right and then the limit; and its text leaves no quotes open and has exactly
-- one placeholder for each bound value, whatever the names of the table and its columns.
pub compile_query-bound :
    (s : CollectionSchema) (predicate : Option PredicateNode) (order : List QueryOrder) (limit : ℕ)
    (q : CollectionQuery)
    → compile_query s predicate order limit ≡ ok q
    → Valid s
      × (1 ≤ limit)
      × (limit ≤ 10000)
      × (q.limit ≡ limit)
      × AcceptedWhere s predicate
      × (q.values ≡ binds_of_where predicate ++ Value.integer (pos limit) ∷ [])
      × Holds q.sql (length q.values)
unfolding compile_query placeholders inside_after
compile_query-bound s predicate order limit q h =
    let (range, h₁) =
      reject_if-ok
        (limit == 0 || ltb max_query_limit limit || ltb max_query_order_fields (length order))
        invalid_query _ h in
    let (u, valid, h₂) = >>=-eq-ok (as_invalid_query (validate_collection_schema s)) _ h₁ in
    let (key, found, h₃) = >>=-eq-ok (ok_or_invalid (primary_key s)) _ h₂ in
    let (d, where_text, h₄) = >>=-eq-ok (push_where s predicate (select_text s)) _ h₃ in
    let (terms, pushed, h₅) =
      >>=-eq-ok (push_terms s true order (d.sql ++ str " ORDER BY ") []) _ h₄ in
    let (accepts, values, holds) =
      push_where-ok s predicate (select_text s) d (Holds-select_text s) where_text in
    let ordered =
      push_terms-ok s true order (d.sql ++ str " ORDER BY ") [] terms (length d.values)
        (Holds-plain d.sql (str " ORDER BY ") (length d.values) holds (refl, refl)) pushed in
    let promise =
      subst (Promise predicate limit) (ok_inj (finished key order limit d terms) q h₅)
        (finished-Promise key predicate order limit d terms values ordered) in
    (
      Valid-after s u valid,
      ground (arith, range),
      ground (arith, range),
      promise.0,
      accepts,
      promise.1,
      promise.2,
    )
