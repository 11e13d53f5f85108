-- ===== src/Prelude/LittleEndian.antt =====
-- Numbers in bytes, the lowest first, as encoding/binary and the processor write them.
use native.Mathlib.Nat.{pow-suc}
use Prim.Native.Nat.{ℕ, zero, suc, ◌+◌, ◌*◌, ◌/◌, ◌%◌, ◌^◌, ◌<◌}
use mathlib.Core.Path.{◌≡◌, refl}
use mathlib.Core.List.{[], ◌∷◌}
use native.Mathlib.Omega.{arith}
use go_norn.Prelude.Lists.{length}
use go_norn.Prelude.Bytes.{Bytes}

-- A number in k bytes.
unfoldable pub put_little_endian : ℕ → ℕ → Bytes
put_little_endian zero n = []
put_little_endian (suc k) n = n % 256 ∷ put_little_endian k (n / 256)

unfoldable pub little_endian : Bytes → ℕ
little_endian [] = 0
little_endian (b ∷ bs) = b + 256 * little_endian bs

pub length-put_little_endian : (k n : ℕ) → length (put_little_endian k n) ≡ k
unfolding put_little_endian
length-put_little_endian zero n = refl
length-put_little_endian (suc k) n = omega (arith, length-put_little_endian k (n / 256))

pub little_endian-put : (k n : ℕ) → n < 256 ^ k → little_endian (put_little_endian k n) ≡ n
unfolding little_endian put_little_endian
little_endian-put zero n h = omega arith
little_endian-put (suc k) n h =
    let low : n / 256 < 256 ^ k = omega (arith, h, pow-suc 256 k) in
    omega (arith, little_endian-put k (n / 256) low)
