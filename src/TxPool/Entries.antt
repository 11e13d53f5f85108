-- ===== src/TxPool/Entries.antt =====
-- The laws of the pool's map.
use go_norn.Prelude.{
  ◌+◌, ◌≤◌, ◌≡◌, ◌≢◌, refl, sym, ◌∙◌, inl, inr, false, arith, none, some, [], ◌∷◌, length,
  Bool-cases,
}
use go_norn.Prelude.Bytes.{Bytes, bytes_eq, bytes_eq_refl, bytes_eq→eq}
use go_norn.Common.{Transaction}
use go_norn.TxPool.{Entries, load, delete}

pub bytes_ne : (a b : Bytes) → a ≢ b → bytes_eq a b ≡ false
bytes_ne a b ne = elim (Bool-cases (bytes_eq a b)) [
  | inl e ↦ absurd (ne (bytes_eq→eq a b e))
  | inr e ↦ e
]

pub load-delete_self : (es : Entries) (k : Bytes) → load (delete es k) k ≡ none
unfolding load delete
load-delete_self [] k = refl
load-delete_self (e ∷ es) k = elim (Bool-cases (bytes_eq e.0 k)) [
  | inl h ↦ rw h (load-delete_self es k)
  | inr h ↦ rw (h, h) (load-delete_self es k)
]

pub load-delete_other : (es : Entries) (k j : Bytes) → k ≢ j → load (delete es k) j ≡ load es j
unfolding load delete
load-delete_other [] k j ne = refl
load-delete_other (e ∷ es) k j ne = elim (Bool-cases (bytes_eq e.0 k)) [
  | inl h ↦
      rw (h, bytes_ne e.0 j (λ q. ne (sym (bytes_eq→eq _ _ h) ∙ q))) (load-delete_other es k j ne)
  | inr h ↦ rw (h, load-delete_other es k j ne) refl
]

-- A deletion adds nothing.
pub load-delete :
    (es : Entries) (k j : Bytes) (tx : Transaction)
    → load (delete es k) j ≡ some tx
    → load es j ≡ some tx
load-delete es k j tx h = elim (Bool-cases (bytes_eq k j)) [
  | inl e ↦ cc (load-delete_self es k, bytes_eq→eq k j e, h)
  | inr e ↦ sym (load-delete_other es k j (λ same. cc (bytes_eq_refl k, same, e))) ∙ h
]

pub length-delete : (es : Entries) (k : Bytes) → length (delete es k) ≤ length es
unfolding delete
length-delete [] k = omega arith
length-delete (e ∷ es) k = ground (arith, length-delete es k)

pub length-delete_hit :
    (es : Entries) (k : Bytes) (tx : Transaction)
    → load es k ≡ some tx
    → length (delete es k) + 1 ≤ length es
unfolding load delete
length-delete_hit [] k tx h = cc
length-delete_hit (e ∷ es) k tx h = elim (Bool-cases (bytes_eq e.0 k)) [
  | inl eq ↦ rw eq (omega (arith, length-delete es k))
  | inr ne ↦
      let rest : load es k ≡ some tx = rw ne at h in
      rw ne (omega (arith, length-delete_hit es k tx rest))
]
