-- ===== src/Rpc/XidWindow/Compress.antt =====
-- What compressing the window keeps: the order of the xids, and what the window says was received.
use mathlib.Core.List.{append_assoc, append-nil}
use cse_yet_another_file_sys.Base.{
  ℕ, suc, ◌+◌, ◌^◌, ◌≤◌, ◌<◌, ◌≡◌, ◌≢◌, refl, inl, inr, List, [], ◌∷◌, ◌++◌, ◌==◌, All, All-append,
  arith, Bool-cases, true, false, ==_iff, true, false, ==_iff,
}
use cse_yet_another_file_sys.Rpc.Status.{u32}
use cse_yet_another_file_sys.Rpc.XidWindow.{pop_while, compress}
use cse_yet_another_file_sys.Rpc.XidWindow.Order.{
  All-left, All-middle, Among, Among-append, Covers, Covers-add, Covers-drop, HasNoNext, IsSorted,
  sorted-below, starts-below,
}

-- Two windows that say the same was received.
pub record Same (l l' : List ℕ) : Type 0 where
  pub forth : (z : ℕ) → Covers l z → Covers l' z
  pub back : (z : ℕ) → Covers l' z → Covers l z
  pub sorted : IsSorted l'

Same-trans : (a b c : List ℕ) → Same a b → Same b c → Same a c
Same-trans a b c h k = record {
  forth = λ z e. k.forth z (h.forth z e);
  back = λ z e. h.back z (k.back z e);
  sorted = k.sorted;
}

abbrev pub IsXid : ℕ → Type 0
IsXid x = x < 2 ^ 32

middle-ne-nil : (xs : List ℕ) (x : ℕ) (ys : List ℕ) → xs ++ x ∷ ys ≢ []
middle-ne-nil [] x ys e = cc
middle-ne-nil (y ∷ xs) x ys e = cc

next_of : (y x : ℕ) → IsXid x → y ≤ x → (u32 (y + 1) == x) ≡ true → x ≡ suc y
next_of y x i l e = omega (arith, (==_iff (u32 (y + 1)) x).0 e)

not_next : (y x : ℕ) → IsXid x → (u32 (y + 1) == x) ≡ false → x ≢ suc y
not_next y x i e n =
    let same : u32 (y + 1) ≡ x = omega arith in
    let yes : (u32 (y + 1) == x) ≡ true = (==_iff (u32 (y + 1)) x).1 same in cc

pop-Same :
    (x : ℕ) (front after : List ℕ)
    → IsXid x
    → IsSorted (front ++ x ∷ after)
    → Same (front ++ x ∷ after) (pop_while x front ++ x ∷ after)
unfolding pop_while
pop-Same x [] after i s = record { forth = λ z e. e; back = λ z e. e; sorted = s }
pop-Same x (y ∷ ys) after i s = elim (Bool-cases (u32 (y + 1) == x)) [
  | inl e ↦
      let le : y ≤ x = All-middle _ ys x after s.0 in
      let next : x ≤ suc y = omega (arith, next_of y x i le e) in
      rw e (
        Same-trans (y ∷ ys ++ x ∷ after) (ys ++ x ∷ after) _
          (record {
            forth = λ z h. Covers-drop y (ys ++ x ∷ after) z h s.0 (middle-ne-nil ys x after);
            back = λ z h.
                Covers-add y (ys ++ x ∷ after) z h (starts-below (suc y) ys x after s.1 next);
            sorted = s.1;
          })
          (pop-Same x ys after i s.1))
  | inr e ↦ rw e (record { forth = λ z h. h; back = λ z h. h; sorted = s })
]

All-pop : (P : ℕ → Type 0) (x : ℕ) (xs : List ℕ) → All P xs → All P (pop_while x xs)
unfolding pop_while
All-pop P x [] h = tt
All-pop P x (y ∷ ys) h = ground (arith, All-pop P x ys h.1)

pub compress-Same :
    (front after : List ℕ)
    → All IsXid after
    → IsSorted (front ++ after)
    → Same (front ++ after) (compress front after)
unfolding compress
compress-Same front [] i s =
    rw (append-nil front)
      (record { forth = λ z h. h; back = λ z h. h; sorted = rw (← append-nil front) s })
compress-Same front (x ∷ xs) i s =
    let popped = pop-Same x front xs i.0 s in
    let again : (pop_while x front ++ x ∷ []) ++ xs ≡ pop_while x front ++ x ∷ xs =
      append_assoc (pop_while x front) (x ∷ []) xs in
    Same-trans _ _ _ popped
      (rw (← again) (compress-Same (pop_while x front ++ x ∷ []) xs i.1 (rw again popped.sorted)))

squeeze :
    (h x : ℕ) (t : List ℕ)
    → All (λ y. h ≤ y) t
    → All (λ y. y ≤ x) t
    → ¬ Among (suc h) t
    → x ≡ suc h
    → All (λ y. suc y ≡ x) t
squeeze h x [] a b n e = tt
squeeze h x (y ∷ t) a b n e =
    let other : y ≢ suc h = λ k. n (inl k) in
    (omega arith, squeeze h x t a.1 b.1 (λ k. n (inr k)) e)

pop-nil : (x : ℕ) (t : List ℕ) → IsXid x → All (λ y. suc y ≡ x) t → pop_while x t ≡ []
unfolding pop_while
pop-nil x [] i h = refl
pop-nil x (y ∷ t) i h =
    let e : u32 (y + 1) ≡ x = omega arith in ground (arith, e, pop-nil x t i h.1)

pop-HasNoNext :
    (x : ℕ) (front after : List ℕ)
    → IsXid x
    → IsSorted (front ++ x ∷ after)
    → HasNoNext front
    → HasNoNext (pop_while x front ++ x ∷ [])
unfolding pop_while
pop-HasNoNext x [] after i s n = absurd n
pop-HasNoNext x (h ∷ t) after i s n = elim (Bool-cases (u32 (h + 1) == x)) [
  | inl e ↦
      let next : x ≡ suc h = next_of h x i (All-middle _ t x after s.0) e in
      rw
        (
          e,
          pop-nil x t i
              (squeeze h x t (All-left _ t (x ∷ after) s.0) (sorted-below t x after s.1) n next),
        )
        (λ k. k)
  | inr e ↦ rw e (λ k. elim (Among-append (suc h) t (x ∷ []) k) [
    | inl old ↦ n old
    | inr (inl new) ↦ not_next h x i e new
    | inr (inr stop) ↦ stop
  ])
]

pub compress-HasNoNext :
    (front after : List ℕ)
    → All IsXid after
    → IsSorted (front ++ after)
    → HasNoNext front
    → HasNoNext (compress front after)
unfolding compress
compress-HasNoNext front [] i s n = n
compress-HasNoNext front (x ∷ xs) i s n =
    let popped = pop-Same x front xs i.0 s in
    let again : (pop_while x front ++ x ∷ []) ++ xs ≡ pop_while x front ++ x ∷ xs =
      append_assoc (pop_while x front) (x ∷ []) xs in
    compress-HasNoNext (pop_while x front ++ x ∷ []) xs i.1 (rw again popped.sorted)
      (pop-HasNoNext x front xs i.0 s n)

pub All-compress :
    (P : ℕ → Type 0) (front after : List ℕ)
    → All P front
    → All P after
    → All P (compress front after)
unfolding compress
All-compress P front [] h k = h
All-compress P front (x ∷ xs) h k =
    All-compress P (pop_while x front ++ x ∷ []) xs
      (All-append P (pop_while x front) (x ∷ []) (All-pop P x front h) (k.0, tt)) k.1
