-- ===== src/Codec/Keys.antt =====
-- Keys of rows: two rows of one table never share a key.
use hat_p.Prelude.{
  ℕ, Ordering, ◌≡◌, refl, sym, ap, ◌∙◌, subst, ◌⊎◌, inl, inr, Bool, Option, none, some, List, [],
  ◌∷◌, ◌++◌, arith, Bytes, Option-cases, length, cmp_bytes, nat_ord, bytes_ord,
}
use hat_p.Codec.Escape.{Delimits, escape_unique}
use hat_p.Codec.Pk.{
  cmp_encoded-Comparable, Comparable, of_int8, of_int16, of_int32, of_int64, of_uint8, of_uint16,
  of_uint32, of_uint64, of_float32, of_float64, of_boolean, of_utf8, of_large_utf8, of_date32,
  of_date64, of_timestamp_second, of_timestamp_millisecond, of_timestamp_microsecond,
  of_timestamp_nanosecond, cmp_bool,
}
use hat_p.Codec.{
  encode_parts, delimited, assemble_table_key, ScalarValue, int8, int16, int32, int64, uint8,
  uint16, uint32, uint64, float32, float64, boolean, utf8, large_utf8, date32, date64,
  timestamp_second, timestamp_millisecond, timestamp_microsecond, timestamp_nanosecond,
  encode_pk_value, escape_bytes,
}
use hat_p.Prelude.Integers.{ℤ, pos, negsuc, cmp_int}
use Prim.Native.Nat.Ordering.{eq}
use hat_p.Codec.Float.{float_rank}

cmp_int_sound : (v u : ℤ) → cmp_int v u ≡ eq → v ≡ u
cmp_int_sound (pos m) (pos n) e = ap pos (nat_ord.eq_of_cmp m n e)
cmp_int_sound (pos m) (negsuc n) e = absurd (ground arith)
cmp_int_sound (negsuc m) (pos n) e = absurd (ground arith)
cmp_int_sound (negsuc m) (negsuc n) e = ap negsuc (sym (nat_ord.eq_of_cmp n m e))

cmp_bool_sound : (v u : Bool) → cmp_bool v u ≡ eq → v ≡ u
cmp_bool_sound v u e = ground arith

float_rank_sound : (k v u : ℕ) → cmp_int (float_rank k v) (float_rank k u) ≡ eq → v ≡ u
float_rank_sound k v u e = ground arith

value_eq : {a b : ScalarValue} {c : Ordering} → Comparable a b c → c ≡ eq → a ≡ b
value_eq (of_int8 v u h g) e = ap (λ x. int8 (some x)) (cmp_int_sound v u e)
value_eq (of_int16 v u h g) e = ap (λ x. int16 (some x)) (cmp_int_sound v u e)
value_eq (of_int32 v u h g) e = ap (λ x. int32 (some x)) (cmp_int_sound v u e)
value_eq (of_int64 v u h g) e = ap (λ x. int64 (some x)) (cmp_int_sound v u e)
value_eq (of_uint8 v u h g) e = ap (λ x. uint8 (some x)) (nat_ord.eq_of_cmp v u e)
value_eq (of_uint16 v u h g) e = ap (λ x. uint16 (some x)) (nat_ord.eq_of_cmp v u e)
value_eq (of_uint32 v u h g) e = ap (λ x. uint32 (some x)) (nat_ord.eq_of_cmp v u e)
value_eq (of_uint64 v u h g) e = ap (λ x. uint64 (some x)) (nat_ord.eq_of_cmp v u e)
value_eq (of_float32 v u h g) e = ap (λ x. float32 (some x)) (float_rank_sound 31 v u e)
value_eq (of_float64 v u h g) e = ap (λ x. float64 (some x)) (float_rank_sound 63 v u e)
value_eq (of_boolean v u) e = ap (λ x. boolean (some x)) (cmp_bool_sound v u e)
value_eq (of_utf8 v u) e = ap (λ x. utf8 (some x)) (bytes_ord.eq_of_cmp v u e)
value_eq (of_large_utf8 v u) e = ap (λ x. large_utf8 (some x)) (bytes_ord.eq_of_cmp v u e)
value_eq (of_date32 v u h g) e = ap (λ x. date32 (some x)) (cmp_int_sound v u e)
value_eq (of_date64 v u h g) e = ap (λ x. date64 (some x)) (cmp_int_sound v u e)
value_eq (of_timestamp_second v u h g) e = ap (λ x. timestamp_second (some x)) (cmp_int_sound v u e)
value_eq (of_timestamp_millisecond v u h g) e =
    ap (λ x. timestamp_millisecond (some x)) (cmp_int_sound v u e)
value_eq (of_timestamp_microsecond v u h g) e =
    ap (λ x. timestamp_microsecond (some x)) (cmp_int_sound v u e)
value_eq (of_timestamp_nanosecond v u h g) e =
    ap (λ x. timestamp_nanosecond (some x)) (cmp_int_sound v u e)

-- Two encodings of one type: of one length, or two escaped strings.
abbrev PartPair : Bytes → Bytes → Type 0
PartPair p q =
    (length p ≡ length q)
    ⊎ ((a : Bytes) × (b : Bytes) × (p ≡ escape_bytes a) × (q ≡ escape_bytes b))

-- The encodings of two values, if both have one.
abbrev EncodedPair : Option Bytes → Option Bytes → Type 0
EncodedPair (some p) (some q) = PartPair p q
EncodedPair (some p) none = Unit
EncodedPair none q = Unit

part_pair :
    {a b : ScalarValue} {c : Ordering}
    → Comparable a b c
    → EncodedPair (encode_pk_value a) (encode_pk_value b)
unfolding encode_pk_value
part_pair (of_int8 v u h g) = inl refl
part_pair (of_int16 v u h g) = inl refl
part_pair (of_int32 v u h g) = inl refl
part_pair (of_int64 v u h g) = inl refl
part_pair (of_uint8 v u h g) = inl refl
part_pair (of_uint16 v u h g) = inl refl
part_pair (of_uint32 v u h g) = inl refl
part_pair (of_uint64 v u h g) = inl refl
part_pair (of_float32 v u h g) = inl refl
part_pair (of_float64 v u h g) = inl refl
part_pair (of_boolean v u) = inl refl
part_pair (of_utf8 v u) = inr (v, u, refl, refl)
part_pair (of_large_utf8 v u) = inr (v, u, refl, refl)
part_pair (of_date32 v u h g) = inl refl
part_pair (of_date64 v u h g) = inl refl
part_pair (of_timestamp_second v u h g) = inl refl
part_pair (of_timestamp_millisecond v u h g) = inl refl
part_pair (of_timestamp_microsecond v u h g) = inl refl
part_pair (of_timestamp_nanosecond v u h g) = inl refl

head_eq : (x y : ℕ) (xs ys : Bytes) → x ∷ xs ≡ y ∷ ys → x ≡ y
head_eq x y xs ys e = cc

tail_eq : (x y : ℕ) (xs ys : Bytes) → x ∷ xs ≡ y ∷ ys → xs ≡ ys
tail_eq x y xs ys e = cc

cons_eq : (x y : ℕ) (xs ys : Bytes) → x ≡ y → xs ≡ ys → x ∷ xs ≡ y ∷ ys
cons_eq x y xs ys e f = cc

split_equal : (p q s t : Bytes) → length p ≡ length q → p ++ s ≡ q ++ t → (p ≡ q) × (s ≡ t)
split_equal [] [] s t h e = (refl, e)
split_equal [] (y ∷ q) s t h e = absurd (omega arith)
split_equal (x ∷ p) [] s t h e = absurd (omega arith)
split_equal (x ∷ p) (y ∷ q) s t h e =
    let (same, rest) = split_equal p q s t (omega arith) (tail_eq x y (p ++ s) (q ++ t) e) in
    (cons_eq x y p q (head_eq x y (p ++ s) (q ++ t) e) same, rest)

delimited-Delimits : (parts : List Bytes) → Delimits (delimited parts)
unfolding delimited
delimited-Delimits [] = tt
delimited-Delimits (part ∷ parts) = λ e. absurd (omega arith)

split_pair :
    (p q : Bytes) (ps qs : List Bytes)
    → PartPair p q
    → p ++ delimited ps ≡ q ++ delimited qs
    → (p ≡ q) × (delimited ps ≡ delimited qs)
split_pair p q ps qs (inl h) e = split_equal p q (delimited ps) (delimited qs) h e
split_pair p q ps qs (inr (a, b, ep, eq_)) e =
    let (same, rest) =
      escape_unique a b (delimited ps) (delimited qs) (delimited-Delimits ps)
        (delimited-Delimits qs)
        (ap (λ x. x ++ delimited ps) (sym ep) ∙ (e ∙ ap (λ y. y ++ delimited qs) eq_)) in
    (ep ∙ (ap escape_bytes same ∙ sym eq_), rest)

-- Two rows whose key columns have the same types.
abbrev pub Aligned : List ScalarValue → List ScalarValue → Type 0
Aligned [] [] = Unit
Aligned [] (b ∷ others) = ⊥
Aligned (a ∷ row) [] = ⊥
Aligned (a ∷ row) (b ∷ others) = ((c : Ordering) × Comparable a b c) × Aligned row others

uncons :
    (a : ScalarValue) (row : List ScalarValue) (ps : List Bytes)
    → encode_parts (a ∷ row) ≡ some ps
    → (p : Bytes) × (rest : List Bytes) × (encode_pk_value a ≡ some p)
      × (encode_parts row ≡ some rest)
      × (ps ≡ p ∷ rest)
unfolding encode_parts
uncons a row ps e = elim (Option-cases (encode_pk_value a)) [
  | inl f ↦ absurd (ground arith)
  | inr (p, f) ↦ elim (Option-cases (encode_parts row)) [
    | inl g ↦ absurd (ground arith)
    | inr (rest, g) ↦ (p, rest, f, g, ground arith)
  ]
]

pair_of :
    (a b : ScalarValue) (c : Ordering) (p q : Bytes)
    → Comparable a b c
    → encode_pk_value a ≡ some p
    → encode_pk_value b ≡ some q
    → PartPair p q
pair_of a b c p q h e f =
    subst (λ o. EncodedPair o (some q)) e
      (subst (λ o. EncodedPair (encode_pk_value a) o) f (part_pair h))

compared :
    (o o' : Option Bytes) (c : Ordering) (p q : Bytes)
    → (elim o [ none ↦ none | some x ↦ elim o' [ none ↦ none | some y ↦ some (cmp_bytes x y) ] ])
      ≡ some c
    → o ≡ some p
    → o' ≡ some q
    → p ≡ q
    → c ≡ eq
compared (some x) (some y) c p q h e f same = ground (arith, bytes_ord.cmp_refl x)
compared (some x) none c p q h e f same = absurd (ground arith)
compared none o c p q h e f same = absurd (ground arith)

same_value :
    (a b : ScalarValue) (c : Ordering) (p q : Bytes)
    → Comparable a b c
    → encode_pk_value a ≡ some p
    → encode_pk_value b ≡ some q
    → p ≡ q
    → a ≡ b
same_value a b c p q h e f same =
    value_eq h
      (compared (encode_pk_value a) (encode_pk_value b) c p q (cmp_encoded-Comparable h) e f same)

same_row :
    (row others : List ScalarValue) (ps qs : List Bytes)
    → Aligned row others
    → encode_parts row ≡ some ps
    → encode_parts others ≡ some qs
    → delimited ps ≡ delimited qs
    → row ≡ others
unfolding delimited
same_row [] [] ps qs h e f d = refl
same_row [] (b ∷ others) ps qs h e f d = absurd h
same_row (a ∷ row) [] ps qs h e f d = absurd h
same_row (a ∷ row) (b ∷ others) ps qs ((c, h), hs) e f d =
    let (p, ps', ep, eps, sp) = uncons a row ps e in
    let (q, qs', eq_, eqs, sq) = uncons b others qs f in
    let (same, rest) = split_pair p q ps' qs' (pair_of a b c p q h ep eq_) (
      tail_eq 0 0 (p ++ delimited ps') (q ++ delimited qs')
        (ap delimited (sym sp) ∙ (d ∙ ap delimited sq))) in
    ap (λ x. x ∷ row) (same_value a b c p q h ep eq_ same)
    ∙ ap (λ xs. b ∷ xs) (same_row row others ps' qs' hs eps eqs rest)

-- If the key columns of two rows have the same types and values in range, and the rows have the
-- same assembled key under one table, their key columns are equal.
pub assemble_table_key_unique :
    (table : Bytes) (row others : List ScalarValue) (ps qs : List Bytes)
    → Aligned row others
    → encode_parts row ≡ some ps
    → encode_parts others ≡ some qs
    → assemble_table_key table ps ≡ assemble_table_key table qs
    → row ≡ others
unfolding assemble_table_key
assemble_table_key_unique table row others ps qs h e f k = same_row row others ps qs h e f (
    tail_eq 0 0 (delimited ps) (delimited qs)
      (split_equal table table (0 ∷ delimited ps) (0 ∷ delimited qs) refl k).1)
