-- ===== src/Prelude/Slices.antt =====
-- What a buffer holds from a position to its end, and the fields that lie there.
use Prim.Native.Nat.{ℕ, ◌+◌, ◌≤◌}
use mathlib.Core.Path.{◌≡◌, refl, ap, ◌∙◌}
use mathlib.Core.List.{◌++◌}
use native.Mathlib.Omega.{arith}
use hat_p.Prelude.Order.{Bytes}
use hat_p.Prelude.Lists.{length, take, drop, length-append, take_all, drop_all, drop_add}

-- `bytes` are what `buf` holds from `pos` to its end.
abbrev pub At : Bytes → ℕ → Bytes → Type 0
At buf pos bytes = (drop pos buf ≡ bytes) × (pos + length bytes ≡ length buf)

pub At-zero : (buf : Bytes) → At buf 0 buf
At-zero buf = (refl, omega arith)

pub At-append : (front rest : Bytes) → At (front ++ rest) (length front) rest
At-append front rest =
    (drop_all front rest (length front) refl, omega (arith, length-append front rest))

module _ (buf : Bytes) (pos len : ℕ) (bytes rest : Bytes) (at : At buf pos (bytes ++ rest))
    (l : length bytes ≡ len) where
  pub At-take : take len (drop pos buf) ≡ bytes
  At-take = ap (λ xs. take len xs) at.0 ∙ take_all bytes rest len l

  pub At-fits : pos + len ≤ length buf
  At-fits = omega (arith, length-append bytes rest, at.1)

  pub At-next : At buf (pos + len) rest
  At-next = (
    drop_add pos len buf ∙ ap (λ xs. drop len xs) at.0 ∙ drop_all bytes rest len l,
    omega (arith, length-append bytes rest, at.1),
  )
