-- ===== src/Prelude/Bytes.antt =====
-- Byte strings as lists of numbers, their equality, and the hexadecimal text of encoding/hex.
use Prim.Native.Nat.{ℕ, ◌+◌, ◌-◌, ◌*◌, ◌/◌, ◌%◌, ◌<◌}
use mathlib.Core.Path.{◌≡◌, refl, ap}
use mathlib.Core.Logic.{◌↔◌, ◌≢◌}
use mathlib.Core.Bool.{Bool, true, false, ◌&&◌}
use mathlib.Core.Option.{Option, none, some}
use mathlib.Core.List.{List, [], ◌∷◌, ◌++◌}
use native.Mathlib.Omega.{arith}
use go_norn.Prelude.Tests.{ltb, leb, ◌==◌, if◌then◌else◌}
use go_norn.Prelude.Lists.{All, length}

abbrev pub Bytes : Type 0
Bytes = List ℕ

-- a == b on byte strings and on texts.
unfoldable pub bytes_eq : Bytes → Bytes → Bool
bytes_eq [] [] = true
bytes_eq [] (y ∷ ys) = false
bytes_eq (x ∷ xs) [] = false
bytes_eq (x ∷ xs) (y ∷ ys) = x == y && bytes_eq xs ys

pub bytes_eq→eq : (a b : Bytes) → bytes_eq a b ≡ true → a ≡ b
unfolding bytes_eq
bytes_eq→eq [] [] h = refl
bytes_eq→eq [] (y ∷ ys) h = ground arith
bytes_eq→eq (x ∷ xs) [] h = ground arith
bytes_eq→eq (x ∷ xs) (y ∷ ys) h = ground (arith, bytes_eq→eq xs ys)

pub bytes_eq_refl : (a : Bytes) → bytes_eq a a ≡ true
unfolding bytes_eq
bytes_eq_refl [] = refl
bytes_eq_refl (x ∷ xs) = ground (arith, bytes_eq_refl xs)

pub bytes_eq_iff : (a b : Bytes) → (bytes_eq a b ≡ true) ↔ (a ≡ b)
bytes_eq_iff a b = (bytes_eq→eq a b, λ e. subst_eq a b e)
  where
    subst_eq : (x y : Bytes) → x ≡ y → bytes_eq x y ≡ true
    subst_eq x y e = rw (e) (bytes_eq_refl y)

-- A list of bytes proper.
abbrev pub IsBytes : Bytes → Type 0
IsBytes = All (λ b. b < 256)

-- hex.EncodeToString: two lower-case digits for each byte.
unfoldable pub hex_digit : ℕ → ℕ
hex_digit d = if ltb d 10 then 48 + d else 87 + d

unfoldable pub encode_to_string : Bytes → Bytes
unfolding hex_digit
encode_to_string [] = []
encode_to_string (b ∷ bs) = hex_digit (b / 16) ∷ hex_digit (b % 16) ∷ encode_to_string bs

-- The value of a digit of either case; none for any other character.
from_hex_char : ℕ → Option ℕ
from_hex_char c =
    if leb 48 c && leb c 57
    then some (c - 48)
    else if leb 97 c && leb c 102
    then some (c - 87)
    else if leb 65 c && leb c 70
    then some (c - 55)
    else none

abbrev join_digits : Option ℕ → Option ℕ → Option Bytes → Option Bytes
join_digits (some h) (some l) (some rest) = some ((h * 16 + l) ∷ rest)
join_digits _ _ _ = none

-- hex.DecodeString: none stands for its error, on an odd length or a character that is no digit.
unfoldable pub decode_string : Bytes → Option Bytes
unfolding from_hex_char
decode_string [] = some []
decode_string (c ∷ []) = none
decode_string (c ∷ d ∷ cs) = join_digits (from_hex_char c) (from_hex_char d) (decode_string cs)

from_hex_char-hex_digit : (d : ℕ) → d < 16 → from_hex_char (hex_digit d) ≡ some d
unfolding from_hex_char hex_digit
from_hex_char-hex_digit d h = ground arith

pub decode-encode : (bs : Bytes) → IsBytes bs → decode_string (encode_to_string bs) ≡ some bs
unfolding decode_string encode_to_string
decode-encode [] h = refl
decode-encode (b ∷ bs) h = ground (
  arith,
  from_hex_char-hex_digit (b / 16),
  from_hex_char-hex_digit (b % 16),
  decode-encode bs h.1,
)

pub encode_injective :
    (a b : Bytes) → IsBytes a → IsBytes b → encode_to_string a ≡ encode_to_string b → a ≡ b
encode_injective a b ha hb e = cc (decode-encode a ha, decode-encode b hb, ap decode_string e)

hex_digit-no_hash : (d : ℕ) → d < 16 → hex_digit d ≢ b'#'
unfolding hex_digit
hex_digit-no_hash d h = ground arith

hex_digit_injective : (d e : ℕ) → d < 16 → e < 16 → hex_digit d ≡ hex_digit e → d ≡ e
unfolding hex_digit
hex_digit_injective d e hd he q = ground arith

-- A hexadecimal text followed by a `#` can be cut off again.
pub encode-cut :
    (a b k j : Bytes)
    → IsBytes a
    → IsBytes b
    → encode_to_string a ++ b'#' ∷ k ≡ encode_to_string b ++ b'#' ∷ j
    → (a ≡ b) × (k ≡ j)
unfolding encode_to_string
encode-cut [] [] k j ha hb e = (refl, cc e)
encode-cut [] (y ∷ ys) k j ha hb e =
    let h : hex_digit (y / 16) ≡ b'#' = cc e in
    absurd (hex_digit-no_hash (y / 16) (omega (arith, hb.0)) h)
encode-cut (x ∷ xs) [] k j ha hb e =
    let h : hex_digit (x / 16) ≡ b'#' = cc e in
    absurd (hex_digit-no_hash (x / 16) (omega (arith, ha.0)) h)
encode-cut (x ∷ xs) (y ∷ ys) k j ha hb e =
    let h : hex_digit (x / 16) ≡ hex_digit (y / 16) = cc e in
    let l : hex_digit (x % 16) ≡ hex_digit (y % 16) = cc e in
    let rest : encode_to_string xs ++ b'#' ∷ k ≡ encode_to_string ys ++ b'#' ∷ j = cc e in
    let high : x / 16 ≡ y / 16 =
      hex_digit_injective (x / 16) (y / 16) (omega (arith, ha.0)) (omega (arith, hb.0)) h in
    let low : x % 16 ≡ y % 16 =
      hex_digit_injective (x % 16) (y % 16) (omega arith) (omega arith) l in
    let same : x ≡ y = omega (arith, high, low) in
    let r = encode-cut xs ys k j ha.1 hb.1 rest in (cc (same, r.0), r.1)

pub length-encode : (bs : Bytes) → length (encode_to_string bs) ≡ 2 * length bs
unfolding encode_to_string
length-encode [] = refl
length-encode (b ∷ bs) = omega (arith, length-encode bs)

decode_upper_case : decode_string (b'0' ∷ b'A' ∷ b'f' ∷ b'f' ∷ []) ≡ some (10 ∷ 255 ∷ [])
unfolding decode_string
decode_upper_case = refl
