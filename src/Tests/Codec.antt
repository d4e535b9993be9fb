-- ===== src/Tests/Codec.antt =====
-- The theorems on keys and indexes at concrete values.
use hat_p.Prelude.{◌≡◌, refl, some, List, [], ◌∷◌, arith, Bytes}
use hat_p.Prelude.Integers.{pos, negsuc}
use hat_p.Prelude.Order.{cmp_bytes}
use Prim.Native.Nat.Ordering.{lt, gt}
use hat_p.Codec.{ScalarValue, int32, int64, utf8, encode_parts, scalar_to_index_be}
use hat_p.Codec.Pk.{of_int32, of_utf8, cmp_encoded, cmp_encoded-Comparable}
use hat_p.Codec.Keys.{assemble_table_key_unique}
use hat_p.Codec.Index.{SignedScalar, UnsignedScalar, cmp_index-SignedScalar}
use hat_p.Codec.Index

-- -1 before 5
cmp_encoded-Comparable_example :
    cmp_encoded (int32 (some (negsuc 0))) (int32 (some (pos 5))) ≡ some lt
cmp_encoded-Comparable_example =
    cmp_encoded-Comparable (of_int32 (negsuc 0) (pos 5) (omega arith) (omega arith))

-- A string with a zero byte, and a number.
abbrev row : List ScalarValue
row = utf8 (some (97 ∷ 0 ∷ [])) ∷ int32 (some (pos 5)) ∷ []

abbrev row_parts : List Bytes
row_parts = (97 ∷ 0 ∷ 255 ∷ 0 ∷ []) ∷ (128 ∷ 0 ∷ 0 ∷ 5 ∷ []) ∷ []

row-encoded : encode_parts row ≡ some row_parts
unfolding encode_parts
row-encoded = refl

assemble_table_key_unique_example : row ≡ row
assemble_table_key_unique_example =
    assemble_table_key_unique (116 ∷ []) row row row_parts row_parts
      (
        (_, of_utf8 (97 ∷ 0 ∷ []) (97 ∷ 0 ∷ [])),
        ((_, of_int32 (pos 5) (pos 5) (omega arith) (omega arith)), tt),
      )
      row-encoded row-encoded refl

abbrev no_text : ScalarValue → Bytes
no_text scalar = []

-- An Int32 column against an Int64 literal.
cmp_index-SignedScalar_example :
    cmp_bytes
      (scalar_to_index_be (λ x. x) no_text (int32 (some (pos 5))))
      (scalar_to_index_be (λ x. x) no_text (int64 (some (negsuc 6))))
    ≡ gt
cmp_index-SignedScalar_example =
    cmp_index-SignedScalar (λ x. x) no_text (Index.SignedScalar.of_int32 (pos 5) (omega arith))
      (Index.SignedScalar.of_int64 (negsuc 6) (omega arith))
