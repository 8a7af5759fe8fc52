-- ===== src/Rpc/XidWindow/Place.antt =====
-- Placing an xid in the window.
use cse_yet_another_file_sys.Base.{
  ℕ, ◌≡◌, refl, ◌⊎◌, inl, inr, some, List, leb, [], ◌∷◌, ltb, All, All-imp, arith, Bool-cases,
}
use cse_yet_another_file_sys.Rpc.XidWindow.{place, compress_all, update_xid_rep}
use cse_yet_another_file_sys.Rpc.XidWindow.Order.{Among, IsSorted}

pub All-place : (P : ℕ → Type 0) (x : ℕ) (xs : List ℕ) → P x → All P xs → All P (place x xs)
unfolding place
All-place P x [] p h = (p, tt)
All-place P x (y ∷ ys) p h = ground (arith, All-place P x ys p h.1)

pub Among-place : (z x : ℕ) (xs : List ℕ) → Among z (place x xs) → (x ≡ z) ⊎ Among z xs
unfolding place
Among-place z x [] h = h
Among-place z x (y ∷ ys) h = ground (arith, Among-place z x ys)

pub place-Among : (z x : ℕ) (xs : List ℕ) → (x ≡ z) ⊎ Among z xs → Among z (place x xs)
unfolding place
place-Among z x [] h = h
place-Among z x (y ∷ ys) h = ground (arith, place-Among z x ys)

pub place-IsSorted : (x : ℕ) (xs : List ℕ) → IsSorted xs → IsSorted (place x xs)
unfolding place
place-IsSorted x [] s = (tt, tt)
place-IsSorted x (y ∷ ys) s = elim (Bool-cases (ltb x y)) [
  | inl e ↦ rw e ((ground arith, All-imp _ _ ys (λ v h. ground arith) s.0), s)
  | inr e ↦ rw e (All-place _ x ys (ground arith) s.0, place-IsSorted x ys s.1)
]

-- A window with a front is updated.
pub update-some :
    (f x : ℕ) (rest : List ℕ) → (window : List ℕ) × (update_xid_rep (f ∷ rest) x ≡ some window)
unfolding update_xid_rep
update-some f x rest = elim (Bool-cases (leb x f)) [
  | inl e ↦ (f ∷ rest, rw e refl)
  | inr e ↦ (compress_all (place x (f ∷ rest)), rw e refl)
]
