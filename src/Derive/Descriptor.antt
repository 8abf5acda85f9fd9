-- ===== src/Derive/Descriptor.antt =====
-- crates/csgdb-derive/src/lib.rs: the canonical descriptor, which the fingerprint is a digest of, is
-- different for different schemas.
use csgdb.Prelude.{
  ℕ, ◌+◌, ◌*◌, ◌-◌, ◌/◌, ◌%◌, ◌<◌, ◌≡◌, refl, sym, ap, ◌∙◌, inl, inr, Bool-cases, Bool, true, ◌&&◌,
  ◌||◌, List, [], ◌∷◌, ◌++◌, append_assoc, Str, str, decimal, decimal_from, length, ltb, leb,
  if◌then◌else◌, arith,
}
use csgdb.Collection.{ColumnType, FieldSchema}
use csgdb.Derive.Sql.{
  measured, bit, storage_name, field_line, field_lines, sorted_by_id, canonical_schema, newline,
}

-- The number at the start of a text, as far as its digits go, after the number read already.
unfoldable read_number : ℕ → Str → ℕ × Str
read_number n [] = (n, [])
read_number n (c ∷ cs) =
    let rest = read_number (n * 10 + (c - 48)) cs in
    if leb 48 c && ltb c 58 then rest else (n, c ∷ cs)

read_number-decimal_from :
    (fuel n : ℕ) (digits rest : Str)
    → n < fuel
    → read_number 0 (decimal_from fuel n digits ++ rest) ≡ read_number n (digits ++ rest)
unfolding read_number decimal_from
read_number-decimal_from ℕ.zero n digits rest b = absurd (omega (arith, b))
read_number-decimal_from (ℕ.suc fuel) n digits rest b = elim (Bool-cases (ltb n 10)) [
  | inl p ↦ ground (arith, p)
  | inr p ↦
      let shorter =
        read_number-decimal_from fuel (n / 10) ((48 + n % 10) ∷ digits) rest
          (ground (arith, p, b)) in
      ground (arith, p, shorter)
]

read_number-stop :
    (n c : ℕ) (r : Str) → ltb c 48 || leb 58 c ≡ true → read_number n (c ∷ r) ≡ (n, c ∷ r)
unfolding read_number
read_number-stop n c r stop = ground (arith, stop)

cons_inj : (c d : ℕ) (s t : Str) → c ∷ s ≡ d ∷ t → (c ≡ d) × (s ≡ t)
cons_inj c d s t e = (cc, cc)

-- A number is known where it is followed by no digit.
decimal_inj :
    (m n c : ℕ) (r q : Str)
    → ltb c 48 || leb 58 c ≡ true
    → decimal m ++ (c ∷ r) ≡ decimal n ++ (c ∷ q)
    → (m ≡ n) × (r ≡ q)
decimal_inj m n c r q stop e =
    let one =
      read_number-decimal_from (m + 1) m [] (c ∷ r) (omega arith) ∙ read_number-stop m c r stop in
    let other =
      read_number-decimal_from (n + 1) n [] (c ∷ q) (omega arith) ∙ read_number-stop n c q stop in
    let same = sym one ∙ (ap (read_number 0) e ∙ other) in
    (ap (λ p. p.0) same, (cons_inj c c r q (ap (λ p. p.1) same)).1)

append_inj : (s t r q : Str) → length s ≡ length t → s ++ r ≡ t ++ q → (s ≡ t) × (r ≡ q)
append_inj [] [] r q l e = (refl, e)
append_inj [] (d ∷ t) r q l e = absurd (omega (arith, l))
append_inj (c ∷ s) [] r q l e = absurd (omega (arith, l))
append_inj (c ∷ s) (d ∷ t) r q l e =
    let (first, others) = cons_inj c d (s ++ r) (t ++ q) e in
    let (rest, after) = append_inj s t r q (omega (arith, l)) others in (cc, after)

measured_inj : (s t r q : Str) → measured s ++ r ≡ measured t ++ q → (s ≡ t) × (r ≡ q)
measured_inj s t r q e =
    let one = append_assoc (decimal (length s)) (str ":" ++ s) r in
    let other = append_assoc (decimal (length t)) (str ":" ++ t) q in
    let (lengths, after) =
      decimal_inj (length s) (length t) 58 (s ++ r) (t ++ q) (ground arith)
        (sym one ∙ (e ∙ other)) in
    append_inj s t r q lengths after

storage_name_inj :
    (t u : ColumnType) (r q : Str)
    → storage_name t ++ (58 ∷ r) ≡ storage_name u ++ (58 ∷ q)
    → (t ≡ u) × (r ≡ q)
storage_name_inj t u r q e = ground (arith, e)

bit_inj : (b c : Bool) (r q : Str) → bit b ++ r ≡ bit c ++ q → (b ≡ c) × (r ≡ q)
bit_inj b c r q e = ground (arith, e)

append_drop : (s r q : Str) → s ++ r ≡ s ++ q → r ≡ q
append_drop s r q e = (append_inj s s r q refl e).1

-- A field's line, before a text.
line_before : FieldSchema → Str → Str
line_before f rest =
    str "field:"
    ++ (measured f.id
        ++ (str ":"
            ++ (measured f.column
                ++ (str ":"
                    ++ (storage_name f.column_type
                        ++ (str ":"
                            ++ (bit f.nullable
                                ++ (str ":" ++ (bit f.primary_key ++ (newline ++ rest))))))))))

field_line-before : (f : FieldSchema) (rest : Str) → field_line f ++ rest ≡ line_before f rest
unfolding line_before
field_line-before f rest = simp append_assoc refl

line_before_inj :
    (f g : FieldSchema) (r q : Str) → line_before f r ≡ line_before g q → (f ≡ g) × (r ≡ q)
unfolding line_before
line_before_inj f g r q e =
    let (id, e₁) = measured_inj f.id g.id _ _ (append_drop (str "field:") _ _ e) in
    let (column, e₂) = measured_inj f.column g.column _ _ (append_drop (str ":") _ _ e₁) in
    let (storage, e₃) =
      storage_name_inj f.column_type g.column_type _ _ (append_drop (str ":") _ _ e₂) in
    let (nullable, e₄) = bit_inj f.nullable g.nullable _ _ e₃ in
    let (key, e₅) = bit_inj f.primary_key g.primary_key _ _ (append_drop (str ":") _ _ e₄) in
    (cc, append_drop newline _ _ e₅)

field_lines_inj : (fs gs : List FieldSchema) → field_lines fs ≡ field_lines gs → fs ≡ gs
unfolding line_before
field_lines_inj [] [] e = refl
field_lines_inj [] (g ∷ gs) e = cc
field_lines_inj (f ∷ fs) [] e = cc
field_lines_inj (f ∷ fs) (g ∷ gs) e =
    let one = field_line-before f (field_lines fs) in
    let other = field_line-before g (field_lines gs) in
    let (first, after) =
      line_before_inj f g (field_lines fs) (field_lines gs) (sym one ∙ (e ∙ other)) in
    let rest = field_lines_inj fs gs after in cc

-- Two schemas with one descriptor are of one collection, table and version, and have the same fields
-- in the order of their identities, whatever the names.
pub canonical_schema_inj :
    (c d t u : Str) (v w : ℕ) (fs gs : List FieldSchema)
    → canonical_schema c t v fs ≡ canonical_schema d u w gs
    → (c ≡ d) × (t ≡ u) × (v ≡ w) × (sorted_by_id fs ≡ sorted_by_id gs)
unfolding canonical_schema
canonical_schema_inj c d t u v w fs gs e =
    let (collection, e₁) =
      measured_inj c d _ _ (append_drop (str "csgdb-schema-v1\ncollection:") _ _ e) in
    let (table, e₂) = measured_inj t u _ _ (append_drop (str "\ntable:") _ _ e₁) in
    let (version, e₃) =
      decimal_inj v w 10 (field_lines (sorted_by_id fs)) (field_lines (sorted_by_id gs))
        (ground arith) (append_drop (str "\nversion:") _ _ e₂) in
    (collection, table, version, field_lines_inj (sorted_by_id fs) (sorted_by_id gs) e₃)
