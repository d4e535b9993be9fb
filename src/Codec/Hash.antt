-- ===== src/Codec/Hash.antt =====
-- The unrolled loops of the two hashes against the plain loop over the bytes.
use hat_p.Prelude.{ℕ, ◌≡◌, refl, [], ◌∷◌, ◌++◌, Bytes}
use hat_p.Codec.{fnv1a_byte, djb2_byte, hash_tail, hash_chunks, fnv1a, djb2}

hash_chunks-hash_tail :
    (step : ℕ → ℕ → ℕ) (bytes : Bytes) (hash : ℕ)
    → hash_chunks step bytes hash ≡ hash_tail step bytes hash
unfolding hash_chunks hash_tail
hash_chunks-hash_tail step (b0 ∷ b1 ∷ b2 ∷ b3 ∷ bytes) hash = hash_chunks-hash_tail step bytes _
hash_chunks-hash_tail step [] hash = refl
hash_chunks-hash_tail step (b0 ∷ []) hash = refl
hash_chunks-hash_tail step (b0 ∷ b1 ∷ []) hash = refl
hash_chunks-hash_tail step (b0 ∷ b1 ∷ b2 ∷ []) hash = refl

hash_tail-append :
    (step : ℕ → ℕ → ℕ) (front back : Bytes) (hash : ℕ)
    → hash_tail step (front ++ back) hash ≡ hash_tail step back (hash_tail step front hash)
unfolding hash_tail
hash_tail-append step [] back hash = refl
hash_tail-append step (byte ∷ front) back hash = hash_tail-append step front back (step hash byte)

-- The unrolled loops of fnv1a and djb2 compute the fold of their step over the bytes.
hashes_by_byte :
    (bytes : Bytes)
    → (fnv1a bytes ≡ hash_tail fnv1a_byte bytes 0xcbf29ce484222325)
      × (djb2 bytes ≡ hash_tail djb2_byte bytes 5381)
unfolding fnv1a djb2
hashes_by_byte bytes = (
  hash_chunks-hash_tail fnv1a_byte bytes 0xcbf29ce484222325,
  hash_chunks-hash_tail djb2_byte bytes 5381,
)
