-- ===== src/Rpc/XidWindow/Order.antt =====
-- Windows of xids in order, and what they say was received.
use cse_yet_another_file_sys.Base.{
  ℕ, suc, ◌≤◌, ◌≡◌, ◌≢◌, refl, ◌⊎◌, inl, inr, List, [], ◌∷◌, ◌++◌, leb, All, arith, Bool-cases,
}

abbrev pub Among : ℕ → List ℕ → Type 0
Among z [] = ⊥
Among z (x ∷ xs) = (x ≡ z) ⊎ Among z xs

-- What a window says was received: all up to its front, and its other members.
abbrev pub Covers : List ℕ → ℕ → Type 0
Covers [] z = ⊥
Covers (f ∷ rest) z = (z ≤ f) ⊎ Among z rest

abbrev pub IsSorted : List ℕ → Type 0
IsSorted [] = Unit
IsSorted (x ∷ xs) = All (λ y. x ≤ y) xs × IsSorted xs

-- The successor of the front is not in the window.
abbrev pub HasNoNext : List ℕ → Type 0
HasNoNext [] = ⊥
HasNoNext (f ∷ rest) = ¬ Among (suc f) rest

pub Among-append : (z : ℕ) (xs ys : List ℕ) → Among z (xs ++ ys) → Among z xs ⊎ Among z ys
Among-append z [] ys h = inr h
Among-append z (x ∷ xs) ys (inl e) = inl (inl e)
Among-append z (x ∷ xs) ys (inr h) = elim (Among-append z xs ys h) [
  | inl k ↦ inl (inr k)
  | inr k ↦ inr k
]

-- To drop the front changes nothing if the next is at most its successor.
pub Covers-drop :
    (y : ℕ) (l : List ℕ) (z : ℕ) → Covers (y ∷ l) z → All (λ v. y ≤ v) l → l ≢ [] → Covers l z
Covers-drop y [] z h k n = absurd (n refl)
Covers-drop y (v ∷ l) z (inl h) k n = inl (omega (arith, k.0))
Covers-drop y (v ∷ l) z (inr (inl e)) k n = inl (omega arith)
Covers-drop y (v ∷ l) z (inr (inr h)) k n = inr h

abbrev pub StartsBy : ℕ → List ℕ → Type 0
StartsBy b [] = Unit
StartsBy b (v ∷ l) = v ≤ b

pub Covers-add : (y : ℕ) (l : List ℕ) (z : ℕ) → Covers l z → StartsBy (suc y) l → Covers (y ∷ l) z
Covers-add y [] z h s = absurd h
Covers-add y (v ∷ l) z (inl h) s = elim (Bool-cases (leb z y)) [
  | inl e ↦ inl (ground arith)
  | inr e ↦ inr (inl (ground arith))
]
Covers-add y (v ∷ l) z (inr h) s = inr (inr h)

pub All-left : (P : ℕ → Type 0) (xs ys : List ℕ) → All P (xs ++ ys) → All P xs
All-left P [] ys h = tt
All-left P (x ∷ xs) ys h = (h.0, All-left P xs ys h.1)

pub All-middle : (P : ℕ → Type 0) (xs : List ℕ) (x : ℕ) (ys : List ℕ) → All P (xs ++ x ∷ ys) → P x
All-middle P [] x ys h = h.0
All-middle P (y ∷ xs) x ys h = All-middle P xs x ys h.1

pub sorted-below :
    (xs : List ℕ) (x : ℕ) (ys : List ℕ) → IsSorted (xs ++ x ∷ ys) → All (λ y. y ≤ x) xs
sorted-below [] x ys h = tt
sorted-below (y ∷ xs) x ys h = (All-middle _ xs x ys h.0, sorted-below xs x ys h.1)

pub starts-below :
    (b : ℕ) (xs : List ℕ) (x : ℕ) (ys : List ℕ)
    → IsSorted (xs ++ x ∷ ys)
    → x ≤ b
    → StartsBy b (xs ++ x ∷ ys)
starts-below b [] x ys h l = l
starts-below b (y ∷ xs) x ys h l = omega (arith, All-middle _ xs x ys h.0)
