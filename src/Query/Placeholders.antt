-- ===== src/Query/Placeholders.antt =====
-- The placeholders of a SQL text: its question marks outside of quoted identifiers.
use csgdb.Prelude.{
  ℕ, ◌+◌, ◌≡◌, refl, sym, subst, ◌∙◌, Bool, true, false, not, [], ◌∷◌, ◌++◌, append_assoc, Str, str,
  length, length-append, ◌==◌, if◌then◌else◌, arith,
}
use csgdb.Core.Value.{Value}
use csgdb.Query.{
  Comparison, NullComparison, PredicateNode, quote, escape, push_identifier, operator,
  null_operator,
}
use csgdb.Query.Compiled.{quoted, test_text, null_test, binds_of, render, binds}

-- The question marks of a text that are in no quotes, when it starts inside of quotes or outside.
unfoldable pub placeholders : Bool → Str → ℕ
placeholders inside [] = 0
placeholders inside (c ∷ cs) =
    if c == quote
    then placeholders (not inside) cs
    else (if inside then 0 else if c == 63 then 1 else 0) + placeholders inside cs

-- Whether the text ends inside of quotes.
unfoldable pub inside_after : Bool → Str → Bool
inside_after inside [] = inside
inside_after inside (c ∷ cs) = inside_after (if c == quote then not inside else inside) cs

placeholders-append :
    (b : Bool) (s t : Str)
    → placeholders b (s ++ t) ≡ placeholders b s + placeholders (inside_after b s) t
unfolding placeholders inside_after
placeholders-append b [] t = omega arith
placeholders-append b (c ∷ cs) t =
    ground (arith, placeholders-append (not b) cs t, placeholders-append b cs t)

inside_after-append :
    (b : Bool) (s t : Str) → inside_after b (s ++ t) ≡ inside_after (inside_after b s) t
unfolding inside_after
inside_after-append b [] t = refl
inside_after-append b (c ∷ cs) t = inside_after-append (if c == quote then not b else b) cs t

-- The text has this many placeholders, and leaves no quotes open.
abbrev pub Holds : Str → ℕ → Type 0
Holds s n = (placeholders false s ≡ n) × (inside_after false s ≡ false)

pub Holds-append : (s t : Str) (m n : ℕ) → Holds s m → Holds t n → Holds (s ++ t) (m + n)
Holds-append s t m n h k = (
  ground (arith, placeholders-append false s t, h.0, h.1, k.0),
  ground (arith, inside_after-append false s t, h.1, k.1),
)

pub Holds-count : (s : Str) (m n : ℕ) → m ≡ n → Holds s m → Holds s n
Holds-count s m n e h = (h.0 ∙ e, h.1)

-- A text without placeholders, put behind another.
pub Holds-plain : (s t : Str) (n : ℕ) → Holds s n → Holds t 0 → Holds (s ++ t) n
Holds-plain s t n h k = Holds-count (s ++ t) (n + 0) n (omega arith) (Holds-append s t n 0 h k)

-- And in front of another.
pub Holds-behind : (s t : Str) (n : ℕ) → Holds s 0 → Holds t n → Holds (s ++ t) n
Holds-behind s t n h k = Holds-count (s ++ t) (0 + n) n (omega arith) (Holds-append s t 0 n h k)

escaped :
    (s t : Str)
    → (placeholders true (escape s ++ t) ≡ placeholders true t)
      × (inside_after true (escape s ++ t) ≡ inside_after true t)
unfolding placeholders inside_after
escaped [] t = (refl, refl)
escaped (c ∷ cs) t = let (ps, i) = escaped cs t in (ground (arith, ps), ground (arith, i))

-- An identifier, whatever its characters, holds no placeholder and closes its quotes.
pub Holds-quoted : (s : Str) → Holds (quoted s) 0
unfolding placeholders inside_after
Holds-quoted s = escaped s (quote ∷ [])

pub Holds-push_identifier : (sql s : Str) (n : ℕ) → Holds sql n → Holds (push_identifier sql s) n
Holds-push_identifier sql s n h =
    subst (λ t. Holds t n) (sym (append_assoc sql (quote ∷ escape s) (quote ∷ [])))
      (Holds-plain sql (quoted s) n h (Holds-quoted s))

Holds-null_operator : (c : NullComparison) → Holds (null_operator c) 0
unfolding placeholders inside_after
Holds-null_operator NullComparison.is_null = (refl, refl)
Holds-null_operator NullComparison.is_not_null = (refl, refl)

Holds-operator : (c : Comparison) → Holds (operator c) 1
unfolding placeholders inside_after
Holds-operator Comparison.equal = (refl, refl)
Holds-operator Comparison.not_equal = (refl, refl)
Holds-operator Comparison.less = (refl, refl)
Holds-operator Comparison.less_or_equal = (refl, refl)
Holds-operator Comparison.greater = (refl, refl)
Holds-operator Comparison.greater_or_equal = (refl, refl)

Holds-null_test : (c : Comparison) → Holds (null_test c) 0
unfolding placeholders inside_after
Holds-null_test Comparison.equal = (refl, refl)
Holds-null_test Comparison.not_equal = (refl, refl)
Holds-null_test Comparison.less = (refl, refl)
Holds-null_test Comparison.less_or_equal = (refl, refl)
Holds-null_test Comparison.greater = (refl, refl)
Holds-null_test Comparison.greater_or_equal = (refl, refl)

Holds-test_text : (c : Comparison) (v : Value) → Holds (test_text c v) (length (binds_of v))
Holds-test_text c Value.null = Holds-null_test c
Holds-test_text c (Value.integer n) = Holds-operator c
Holds-test_text c (Value.real x) = Holds-operator c
Holds-test_text c (Value.text s) = Holds-operator c
Holds-test_text c (Value.blob b) = Holds-operator c

Holds-column : (s op : Str) (n : ℕ) → Holds op n → Holds (str "(" ++ quoted s ++ op ++ str ")") n
unfolding placeholders inside_after
Holds-column s op n h =
    Holds-plain (str "(" ++ quoted s ++ op) (str ")") n
      (Holds-behind (str "(" ++ quoted s) op n
        (Holds-append (str "(") (quoted s) 0 0 (refl, refl) (Holds-quoted s)) h)
      (refl, refl)

Holds-two :
    (s op t : Str) (m n : ℕ)
    → Holds s m
    → Holds op 0
    → Holds t n
    → Holds (str "(" ++ s ++ op ++ t ++ str ")") (m + n)
unfolding placeholders inside_after
Holds-two s op t m n h o k =
    Holds-plain (str "(" ++ s ++ op ++ t) (str ")") (m + n)
      (Holds-append (str "(" ++ s ++ op) t m n
        (Holds-plain (str "(" ++ s) op m (Holds-behind (str "(") s m (refl, refl) h) o) k)
      (refl, refl)

-- The rendering of a predicate has one placeholder for each value that is bound to it, whatever the
-- names of its columns.
pub Holds-render : (p : PredicateNode) → Holds (render p) (length (binds p))
unfolding placeholders inside_after
Holds-render (PredicateNode.compare f c v) =
    Holds-column f.column (test_text c v) (length (binds_of v)) (Holds-test_text c v)
Holds-render (PredicateNode.null f c) =
    Holds-column f.column (null_operator c) 0 (Holds-null_operator c)
Holds-render (PredicateNode.and p q) =
    Holds-count (render (PredicateNode.and p q)) _ _ (sym (length-append (binds p) (binds q))) (
      Holds-two (render p) (str " AND ") (render q) _ _ (Holds-render p) (refl, refl)
        (Holds-render q))
Holds-render (PredicateNode.or p q) =
    Holds-count (render (PredicateNode.or p q)) _ _ (sym (length-append (binds p) (binds q))) (
      Holds-two (render p) (str " OR ") (render q) _ _ (Holds-render p) (refl, refl)
        (Holds-render q))
Holds-render (PredicateNode.not p) =
    Holds-plain (str "(NOT " ++ render p) (str ")") (length (binds p))
      (Holds-behind (str "(NOT ") (render p) (length (binds p)) (refl, refl) (Holds-render p))
      (refl, refl)
