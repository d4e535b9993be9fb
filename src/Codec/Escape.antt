-- ===== src/Codec/Escape.antt =====
-- Escaped strings: their byte order, and where an escaped string ends in a longer key.
use hat_p.Prelude.{zero, suc, ◌≡◌, refl, ◌≢◌, [], ◌∷◌, ◌++◌, arith, Bytes}
use hat_p.Prelude.Order.{cmp_bytes}
use hat_p.Codec.{escape_loop, escape_bytes}

pub cmp_escape : (a b : Bytes) → cmp_bytes (escape_bytes a) (escape_bytes b) ≡ cmp_bytes a b
unfolding escape_bytes escape_loop
cmp_escape [] [] = refl
cmp_escape [] (zero ∷ b) = refl
cmp_escape [] (suc y ∷ b) = ground arith
cmp_escape (zero ∷ a) [] = refl
cmp_escape (suc x ∷ a) [] = ground arith
cmp_escape (zero ∷ a) (zero ∷ b) = ground (arith, cmp_escape a b)
cmp_escape (zero ∷ a) (suc y ∷ b) = ground arith
cmp_escape (suc x ∷ a) (zero ∷ b) = ground arith
cmp_escape (suc x ∷ a) (suc y ∷ b) = ground (arith, cmp_escape a b)

-- What may follow an escaped string: not the byte that continues an escaped zero.
abbrev pub Delimits : Bytes → Type 0
Delimits [] = Unit
Delimits (byte ∷ bytes) = byte ≢ 255

pub escape_unique :
    (a b s t : Bytes)
    → Delimits s
    → Delimits t
    → escape_bytes a ++ s ≡ escape_bytes b ++ t
    → (a ≡ b) × (s ≡ t)
unfolding escape_bytes escape_loop
escape_unique [] [] s t ds dt e = ground arith
escape_unique [] (zero ∷ b) [] t ds dt e = absurd (ground arith)
escape_unique [] (zero ∷ b) (y ∷ s) t ds dt e = absurd (ground arith)
escape_unique [] (suc y ∷ b) s t ds dt e = absurd (ground arith)
escape_unique (zero ∷ a) [] s [] ds dt e = absurd (ground arith)
escape_unique (zero ∷ a) [] s (y ∷ t) ds dt e = absurd (ground arith)
escape_unique (suc x ∷ a) [] s t ds dt e = absurd (ground arith)
escape_unique (zero ∷ a) (zero ∷ b) s t ds dt e = ground (arith, escape_unique a b s t ds dt)
escape_unique (zero ∷ a) (suc y ∷ b) s t ds dt e = absurd (ground arith)
escape_unique (suc x ∷ a) (zero ∷ b) s t ds dt e = absurd (ground arith)
escape_unique (suc x ∷ a) (suc y ∷ b) s t ds dt e = ground (arith, escape_unique a b s t ds dt)
