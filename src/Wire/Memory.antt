-- ===== src/Wire/Memory.antt =====
-- Reading and writing over a range of bytes.
use go_norn.Prelude.{ℕ, zero, suc, ◌+◌, ◌≤◌, ◌≡◌, refl, ap, arith, [], ◌∷◌, ◌++◌, length, take}
use go_norn.Prelude.Bytes.{Bytes}

-- The n bytes at an offset, or what there is of them.
unfoldable pub slice : Bytes → ℕ → ℕ → Bytes
slice m zero n = take n m
slice [] (suc offset) n = []
slice (b ∷ m) (suc offset) n = slice m offset n

overwrite : Bytes → Bytes → Bytes
overwrite m [] = m
overwrite [] (y ∷ ys) = []
overwrite (x ∷ m) (y ∷ ys) = y ∷ overwrite m ys

-- The memory with a text written over it at an offset.
unfoldable pub splice : Bytes → ℕ → Bytes → Bytes
unfolding overwrite
splice m zero text = overwrite m text
splice [] (suc offset) text = []
splice (b ∷ m) (suc offset) text = b ∷ splice m offset text

length-overwrite : (m text : Bytes) → length (overwrite m text) ≡ length m
unfolding overwrite
length-overwrite m [] = refl
length-overwrite [] (y ∷ ys) = refl
length-overwrite (x ∷ m) (y ∷ ys) = omega (arith, length-overwrite m ys)

pub length-splice : (m : Bytes) (o : ℕ) (text : Bytes) → length (splice m o text) ≡ length m
unfolding splice
length-splice m zero text = length-overwrite m text
length-splice [] (suc o) text = refl
length-splice (b ∷ m) (suc o) text = omega (arith, length-splice m o text)

take-overwrite :
    (m text : Bytes) → length text ≤ length m → take (length text) (overwrite m text) ≡ text
unfolding overwrite
take-overwrite m [] h = refl
take-overwrite [] (y ∷ ys) h = absurd (omega (arith, h))
take-overwrite (x ∷ m) (y ∷ ys) h = ap (y ∷◌) (take-overwrite m ys (omega (arith, h)))

-- What was written is read.
pub slice-splice_self :
    (m : Bytes) (o : ℕ) (text : Bytes)
    → o + length text ≤ length m
    → slice (splice m o text) o (length text) ≡ text
unfolding slice splice
slice-splice_self m zero text h = take-overwrite m text (omega (arith, h))
slice-splice_self [] (suc o) text h = absurd (omega (arith, h))
slice-splice_self (b ∷ m) (suc o) text h = slice-splice_self m o text (omega (arith, h))

take-splice : (m : Bytes) (o n : ℕ) (text : Bytes) → n ≤ o → take n (splice m o text) ≡ take n m
unfolding splice
take-splice m o zero text h = refl
take-splice m zero (suc n) text h = absurd (omega (arith, h))
take-splice [] (suc o) (suc n) text h = refl
take-splice (b ∷ m) (suc o) (suc n) text h = ap (b ∷◌) (take-splice m o n text (omega (arith, h)))

-- A range before the one that was written is as it was.
pub slice-splice_before :
    (m : Bytes) (o : ℕ) (text : Bytes) (p n : ℕ)
    → p + n ≤ o
    → slice (splice m o text) p n ≡ slice m p n
unfolding slice splice
slice-splice_before m o text zero n h = take-splice m o n text (omega (arith, h))
slice-splice_before m zero text (suc p) n h = absurd (omega (arith, h))
slice-splice_before [] (suc o) text (suc p) n h = refl
slice-splice_before (b ∷ m) (suc o) text (suc p) n h =
    slice-splice_before m o text p n (omega (arith, h))

slice-overwrite :
    (m text : Bytes) (p n : ℕ) → length text ≤ p → slice (overwrite m text) p n ≡ slice m p n
unfolding slice overwrite
slice-overwrite m [] p n h = refl
slice-overwrite [] (y ∷ ys) p n h = refl
slice-overwrite (x ∷ m) (y ∷ ys) zero n h = absurd (omega (arith, h))
slice-overwrite (x ∷ m) (y ∷ ys) (suc p) n h = slice-overwrite m ys p n (omega (arith, h))

-- So is a range after it.
pub slice-splice_after :
    (m : Bytes) (o : ℕ) (text : Bytes) (p n : ℕ)
    → o + length text ≤ p
    → slice (splice m o text) p n ≡ slice m p n
unfolding slice splice
slice-splice_after m zero text p n h = slice-overwrite m text p n (omega (arith, h))
slice-splice_after m (suc o) text zero n h = absurd (omega (arith, h))
slice-splice_after [] (suc o) text (suc p) n h = refl
slice-splice_after (b ∷ m) (suc o) text (suc p) n h =
    slice-splice_after m o text p n (omega (arith, h))

take-append : (m fill : Bytes) (n : ℕ) → n ≤ length m → take n (m ++ fill) ≡ take n m
take-append m fill zero h = refl
take-append [] fill (suc n) h = absurd (omega (arith, h))
take-append (b ∷ m) fill (suc n) h = ap (b ∷◌) (take-append m fill n (omega (arith, h)))

-- A memory that has grown reads as it did.
pub slice-append :
    (m fill : Bytes) (p n : ℕ) → p + n ≤ length m → slice (m ++ fill) p n ≡ slice m p n
unfolding slice
slice-append m fill zero n h = take-append m fill n (omega (arith, h))
slice-append [] fill (suc p) n h = absurd (omega (arith, h))
slice-append (b ∷ m) fill (suc p) n h = slice-append m fill p n (omega (arith, h))
