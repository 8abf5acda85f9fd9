-- ===== src/Query/Compiled.antt =====
-- The compilation of a predicate against its plain rendering.
use csgdb.Prelude.{
  ℕ, suc, ◌+◌, max, ◌≡◌, refl, ap, Bool, true, false, ◌&&◌, List, [], ◌∷◌, ◌++◌, append_assoc,
  append-nil, Str, str, leb, if◌then◌else◌, arith,
}
use csgdb.Core.Error.{ok, err, ◌>>=◌, invalid_query}
use csgdb.Core.Value.{Value}
use csgdb.Collection.{FieldSchema, CollectionSchema}
use csgdb.Query.{
  Comparison, NullComparison, PredicateNode, quote, escape, push_identifier, Draft, push_str,
  push_column, push_value, known_field, validate_field, fits, validate_bound_value, operator,
  null_operator, compare_value, enter, compile_predicate,
}

-- The identifier between quotes.
abbrev pub quoted : Str → Str
quoted s = quote ∷ escape s ++ quote ∷ []

abbrev pub null_test : Comparison → Str
null_test Comparison.equal = str " IS NULL"
null_test _ = str " IS NOT NULL"

-- The test of a column: a comparison with null is a test for null.
abbrev pub test_text : Comparison → Value → Str
test_text c Value.null = null_test c
test_text c v = operator c

abbrev pub render : PredicateNode → Str
render (PredicateNode.compare f c v) = str "(" ++ quoted f.column ++ test_text c v ++ str ")"
render (PredicateNode.null f c) = str "(" ++ quoted f.column ++ null_operator c ++ str ")"
render (PredicateNode.and p q) = str "(" ++ render p ++ str " AND " ++ render q ++ str ")"
render (PredicateNode.or p q) = str "(" ++ render p ++ str " OR " ++ render q ++ str ")"
render (PredicateNode.not p) = str "(NOT " ++ render p ++ str ")"

abbrev pub binds_of : Value → List Value
binds_of Value.null = []
binds_of v = v ∷ []

-- The values to bind, from left to right.
abbrev pub binds : PredicateNode → List Value
binds (PredicateNode.compare f c v) = binds_of v
binds (PredicateNode.null f c) = []
binds (PredicateNode.and p q) = binds p ++ binds q
binds (PredicateNode.or p q) = binds p ++ binds q
binds (PredicateNode.not p) = binds p

abbrev pub size : PredicateNode → ℕ
size (PredicateNode.compare f c v) = 1
size (PredicateNode.null f c) = 1
size (PredicateNode.and p q) = 1 + size p + size q
size (PredicateNode.or p q) = 1 + size p + size q
size (PredicateNode.not p) = 1 + size p

abbrev pub height : PredicateNode → ℕ
height (PredicateNode.compare f c v) = 1
height (PredicateNode.null f c) = 1
height (PredicateNode.and p q) = 1 + max (height p) (height q)
height (PredicateNode.or p q) = 1 + max (height p) (height q)
height (PredicateNode.not p) = 1 + height p

abbrev is_equality : Comparison → Bool
is_equality Comparison.equal = true
is_equality Comparison.not_equal = true
is_equality _ = false

-- Only equality compares with null.
abbrev pub comparable : Comparison → Value → Bool
comparable c Value.null = is_equality c
comparable c v = true

-- Every field is the collection's, and every value fits its field.
abbrev pub well_typed : CollectionSchema → PredicateNode → Bool
well_typed s (PredicateNode.compare f c v) = known_field s.fields f && fits f v && comparable c v
well_typed s (PredicateNode.null f c) = known_field s.fields f && f.nullable
well_typed s (PredicateNode.and p q) = well_typed s p && well_typed s q
well_typed s (PredicateNode.or p q) = well_typed s p && well_typed s q
well_typed s (PredicateNode.not p) = well_typed s p

abbrev pub after : PredicateNode → Draft → Draft
after p d = record {
  sql = d.sql ++ render p;
  values = d.values ++ binds p;
  nodes = d.nodes + size p;
}

-- The predicate may stand at this depth, after this many nodes.
abbrev pub accepted : CollectionSchema → PredicateNode → ℕ → ℕ → Bool
accepted s p depth nodes = well_typed s p && leb (depth + height p) 33 && leb (nodes + size p) 256

enter_eq :
    (depth : ℕ) (d : Draft)
    → enter depth d ≡ (
        if leb depth 32 && leb (suc d.nodes) 256
        then ok (record d { nodes = suc d.nodes })
        else err invalid_query)
enter_eq depth d = ground arith

not_text :
    (sql p : Str) → ((sql ++ str "(NOT ") ++ p) ++ str ")" ≡ sql ++ (str "(NOT " ++ p ++ str ")")
not_text sql p = simp append_assoc

two_text :
    (sql p op q : Str)
    → ((((sql ++ str "(") ++ p) ++ op) ++ q) ++ str ")"
      ≡ sql ++ (str "(" ++ p ++ op ++ q ++ str ")")
two_text sql p op q = simp append_assoc

column_text :
    (sql c op : Str)
    → (push_identifier (sql ++ str "(") c ++ op) ++ str ")"
      ≡ sql ++ (str "(" ++ quoted c ++ op ++ str ")")
column_text sql c op = simp append_assoc

-- The draft after a test of a column.
abbrev tested : FieldSchema → Str → List Value → Draft → Draft
tested f op vs d = record {
  sql = d.sql ++ (str "(" ++ quoted f.column ++ op ++ str ")");
  values = d.values ++ vs;
  nodes = d.nodes + 1;
}

tested_eq :
    (f : FieldSchema) (op : Str) (d : Draft)
    → push_str
        (str ")")
        (push_str op (push_column f (push_str (str "(") (record d { nodes = suc d.nodes }))))
      ≡ tested f op [] d
tested_eq f op d = ground (arith, column_text d.sql f.column op, append-nil d.values)

tested_value_eq :
    (f : FieldSchema) (op : Str) (v : Value) (d : Draft)
    → push_str (str ")") (
        push_value v
          (push_str op (push_column f (push_str (str "(") (record d { nodes = suc d.nodes })))))
      ≡ tested f op (v ∷ []) d
tested_value_eq f op v d = ground (arith, column_text d.sql f.column op)

compare_value_eq :
    (f : FieldSchema) (c : Comparison) (v : Value) (d : Draft)
    → (compare_value c v (push_column f (push_str (str "(") (record d { nodes = suc d.nodes })))
        >>= λ d'. ok (push_str (str ")") d'))
      ≡ (if comparable c v then ok (tested f (test_text c v) (binds_of v) d) else err invalid_query)
compare_value_eq f Comparison.equal Value.null d = ap ok (tested_eq f (str " IS NULL") d)
compare_value_eq f Comparison.not_equal Value.null d = ap ok (tested_eq f (str " IS NOT NULL") d)
compare_value_eq f Comparison.less Value.null d = refl
compare_value_eq f Comparison.less_or_equal Value.null d = refl
compare_value_eq f Comparison.greater Value.null d = refl
compare_value_eq f Comparison.greater_or_equal Value.null d = refl
compare_value_eq f c (Value.integer n) d =
    ap ok (tested_value_eq f (operator c) (Value.integer n) d)
compare_value_eq f c (Value.real x) d = ap ok (tested_value_eq f (operator c) (Value.real x) d)
compare_value_eq f c (Value.text s) d = ap ok (tested_value_eq f (operator c) (Value.text s) d)
compare_value_eq f c (Value.blob b) d = ap ok (tested_value_eq f (operator c) (Value.blob b) d)

null_eq :
    (s : CollectionSchema) (f : FieldSchema) (c : NullComparison) (depth : ℕ) (d : Draft)
    → compile_predicate s (PredicateNode.null f c) depth d ≡ (
        if accepted s (PredicateNode.null f c) depth d.nodes
        then ok (tested f (null_operator c) [] d)
        else err invalid_query)
unfolding compile_predicate validate_field validate_bound_value
null_eq s f c depth d = ground (arith, enter_eq depth d, tested_eq f (null_operator c) d)

compare_eq :
    (s : CollectionSchema) (f : FieldSchema) (c : Comparison) (v : Value) (depth : ℕ) (d : Draft)
    → compile_predicate s (PredicateNode.compare f c v) depth d ≡ (
        if accepted s (PredicateNode.compare f c v) depth d.nodes
        then ok (tested f (test_text c v) (binds_of v) d)
        else err invalid_query)
unfolding compile_predicate validate_field validate_bound_value
compare_eq s f c v depth d = ground (arith, enter_eq depth d, compare_value_eq f c v d)

abbrev both : PredicateNode → Str → PredicateNode → Draft → Draft
both p op q d = record {
  sql = d.sql ++ (str "(" ++ render p ++ op ++ render q ++ str ")");
  values = d.values ++ (binds p ++ binds q);
  nodes = d.nodes + (1 + size p + size q);
}

both_eq :
    (p : PredicateNode) (op : Str) (q : PredicateNode) (d : Draft)
    → push_str
        (str ")")
        (after q (push_str op (after p (push_str (str "(") (record d { nodes = suc d.nodes })))))
      ≡ both p op q d
both_eq p op q d =
    ground
      (arith, two_text d.sql (render p) op (render q), append_assoc d.values (binds p) (binds q))

two_eq :
    (s : CollectionSchema) (p q : PredicateNode) (op : Str) (depth : ℕ) (d : Draft)
    → ((d : Draft)
        → compile_predicate s p (suc depth) d
          ≡ (if accepted s p (suc depth) d.nodes then ok (after p d) else err invalid_query))
    → ((d : Draft)
        → compile_predicate s q (suc depth) d
          ≡ (if accepted s q (suc depth) d.nodes then ok (after q d) else err invalid_query))
    → (enter depth d >>= λ d₁. compile_predicate s p (suc depth) (push_str (str "(") d₁) >>= λ d₂.
        compile_predicate s q (suc depth) (push_str op d₂) >>= λ d₃. ok (push_str (str ")") d₃))
      ≡ (if (well_typed s p && well_typed s q)
            && leb (depth + (1 + max (height p) (height q))) 33
            && leb (d.nodes + (1 + size p + size q)) 256
          then ok (both p op q d)
          else err invalid_query)
two_eq s p q op depth d hp hq =
    let d₁ : Draft = push_str (str "(") (record d { nodes = suc d.nodes }) in
    ground (arith, enter_eq depth d, hp d₁, hq (push_str op (after p d₁)), both_eq p op q d)

-- A predicate compiles exactly if every field is the collection's, every value fits its field, only
-- equality compares with null, it nests at most 32 deep and has at most 256 nodes, counted from where
-- it stands. Then its text is its rendering, and its values are bound in the order of that text;
-- otherwise the error is that of an invalid query.
pub compile_predicate_eq :
    (s : CollectionSchema) (p : PredicateNode) (depth : ℕ) (d : Draft)
    → compile_predicate s p depth d
      ≡ (if accepted s p depth d.nodes then ok (after p d) else err invalid_query)
unfolding compile_predicate validate_field validate_bound_value
compile_predicate_eq s (PredicateNode.compare f c v) depth d = compare_eq s f c v depth d
compile_predicate_eq s (PredicateNode.null f c) depth d = null_eq s f c depth d
compile_predicate_eq s (PredicateNode.and p q) depth d =
    two_eq s p q (str " AND ") depth d (compile_predicate_eq s p (suc depth))
      (compile_predicate_eq s q (suc depth))
compile_predicate_eq s (PredicateNode.or p q) depth d =
    two_eq s p q (str " OR ") depth d (compile_predicate_eq s p (suc depth))
      (compile_predicate_eq s q (suc depth))
compile_predicate_eq s (PredicateNode.not p) depth d = ground (
  arith,
  enter_eq depth d,
  compile_predicate_eq s p (suc depth)
      (record { sql = d.sql ++ str "(NOT "; values = d.values; nodes = suc d.nodes }),
  not_text d.sql (render p),
)
