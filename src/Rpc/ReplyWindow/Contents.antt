-- ===== src/Rpc/ReplyWindow/Contents.antt =====
-- Which requests a window knows, and how entering and trimming change that.
use cse_yet_another_file_sys.Base.{
  ℕ, ◌≤◌, ◌<◌, ◌≡◌, ◌≢◌, refl, ◌⊎◌, inl, inr, some, List, [], ◌∷◌, Bytes, ltb, leb, ◌==◌, arith,
  Bool-cases,
}
use cse_yet_another_file_sys.Rpc.ReplyWindow.{
  Reply, RpcState, new, inprogress, done, scan, enter, trim, fill,
}

-- A reply of that xid is in the list.
abbrev pub Has : ℕ → List Reply → Type 0
Has x [] = ⊥
Has x (r ∷ rs) = (r.xid ≡ x) ⊎ Has x rs

-- Exactly one is.
abbrev pub HasOnce : ℕ → List Reply → Type 0
HasOnce x [] = ⊥
HasOnce x (r ∷ rs) = ((r.xid ≡ x) × ¬ Has x rs) ⊎ ((r.xid ≢ x) × HasOnce x rs)

pub scan-absent : (x : ℕ) (s : RpcState) (rs : List Reply) → ¬ Has x rs → scan x s rs ≡ s
unfolding scan
scan-absent x s [] h = refl
scan-absent x s (r ∷ rs) h = elim (Bool-cases (x == r.xid)) [
  | inl e ↦ absurd (h (inl (ground arith)))
  | inr e ↦ rw e (scan-absent x s rs (λ k. h (inr k)))
]

pub scan-ne-new :
    (x : ℕ) (s : RpcState) (rs : List Reply) → (s ≢ new) ⊎ Has x rs → scan x s rs ≢ new
unfolding scan
scan-ne-new x s [] (inl h) = h
scan-ne-new x s [] (inr h) = absurd h
scan-ne-new x s (r ∷ rs) h = elim (Bool-cases (x == r.xid)) [
  | inl e ↦ rw e (scan-ne-new x _ rs (inl (ground arith)))
  | inr e ↦ rw e (scan-ne-new x s rs (rest h (ground arith)))
]
  where
    rest : (s ≢ new) ⊎ Has x (r ∷ rs) → r.xid ≢ x → (s ≢ new) ⊎ Has x rs
    rest (inl h) n = inl h
    rest (inr (inl e)) n = absurd (n e)
    rest (inr (inr k)) n = inr k

pub Has-enter : (x y : ℕ) (rs : List Reply) → (x ≡ y) ⊎ Has y rs → Has y (enter x rs)
unfolding enter
Has-enter x y [] (inl e) = inl e
Has-enter x y [] (inr h) = absurd h
Has-enter x y (r ∷ rs) h = elim (Bool-cases (ltb x r.xid)) [
  | inl e ↦ rw e h
  | inr e ↦ rw e (later (Has-enter x y rs) h)
]
  where
    later :
        ((x ≡ y) ⊎ Has y rs → Has y (enter x rs))
        → (x ≡ y) ⊎ Has y (r ∷ rs)
        → (r.xid ≡ y) ⊎ Has y (enter x rs)
    later ih (inl e) = inr (ih (inl e))
    later ih (inr (inl e)) = inl e
    later ih (inr (inr k)) = inr (ih (inr k))

pub HasOnce-enter : (x : ℕ) (rs : List Reply) → ¬ Has x rs → HasOnce x (enter x rs)
unfolding enter
HasOnce-enter x [] h = inl (refl, λ e. e)
HasOnce-enter x (r ∷ rs) h = elim (Bool-cases (ltb x r.xid)) [
  | inl e ↦ rw e (inl (refl, h))
  | inr e ↦ rw e (inr (λ k. h (inl k), HasOnce-enter x rs (λ k. h (inr k))))
]

-- Trimming succeeds if a request above the bound is there, and drops none above the bound.
pub trim-some :
    (x m : ℕ) (rs : List Reply) → m < x → Has x rs → (rs' : List Reply) × (trim m rs ≡ some rs')
unfolding trim
trim-some x m [] l h = absurd h
trim-some x m (r ∷ rs) l h = elim (Bool-cases (leb r.xid m)) [
  | inl e ↦ rw e (trim-some x m rs l (rest h (ground arith)))
  | inr e ↦ (r ∷ rs, rw e refl)
]
  where
    rest : Has x (r ∷ rs) → r.xid ≢ x → Has x rs
    rest (inl e) n = absurd (n e)
    rest (inr k) n = k

pub Has-trim :
    (y m : ℕ) (rs rs' : List Reply) → trim m rs ≡ some rs' → Has y rs → (y ≤ m) ⊎ Has y rs'
unfolding trim
Has-trim y m [] rs' e h = absurd h
Has-trim y m (r ∷ rs) rs' e h = elim (Bool-cases (leb r.xid m)) [
  | inl t ↦ dropped (Has-trim y m rs rs' (rw t at e)) (ground arith) h
  | inr t ↦ inr (kept (rw t at e))
]
  where
    dropped : (Has y rs → (y ≤ m) ⊎ Has y rs') → r.xid ≤ m → Has y (r ∷ rs) → (y ≤ m) ⊎ Has y rs'
    dropped ih l (inl k) = inl (omega arith)
    dropped ih l (inr k) = ih k

    kept : some (r ∷ rs) ≡ some rs' → Has y rs'
    kept k = let same : rs' ≡ r ∷ rs = cc in rw same h

pub HasOnce-trim :
    (x m : ℕ) (rs rs' : List Reply) → trim m rs ≡ some rs' → m < x → HasOnce x rs → HasOnce x rs'
unfolding trim
HasOnce-trim x m [] rs' e l h = absurd h
HasOnce-trim x m (r ∷ rs) rs' e l h = elim (Bool-cases (leb r.xid m)) [
  | inl t ↦ HasOnce-trim x m rs rs' (rw t at e) l (dropped (ground arith) h)
  | inr t ↦ kept (rw t at e)
]
  where
    dropped : r.xid ≤ m → HasOnce x (r ∷ rs) → HasOnce x rs
    dropped le (inl k) = absurd (omega (arith, k.0))
    dropped le (inr k) = k.1

    kept : some (r ∷ rs) ≡ some rs' → HasOnce x rs'
    kept k = let same : rs' ≡ r ∷ rs = cc in rw same h

pub scan-once :
    (x : ℕ) (s : RpcState) (rs : List Reply) (b : Bytes)
    → HasOnce x rs
    → scan x s (fill x b rs) ≡ done b
unfolding scan fill
scan-once x s [] b h = absurd h
scan-once x s (r ∷ rs) b (inl h) = ground (arith, h.0, scan-absent x (done b) rs h.1)
scan-once x s (r ∷ rs) b (inr h) = ground (arith, h.0, scan-once x s rs b h.1)

-- A request that was entered and not yet answered is in progress.
pub scan-enter :
    (x : ℕ) (s : RpcState) (rs : List Reply) → ¬ Has x rs → scan x s (enter x rs) ≡ inprogress
unfolding scan enter
scan-enter x s [] h = ground arith
scan-enter x s (r ∷ rs) h = elim (Bool-cases (ltb x r.xid)) [
  | inl e ↦ rw e (ground (arith, scan-absent x inprogress rs (λ k. h (inr k))))
  | inr e ↦
      let other : r.xid ≢ x = λ k. h (inl k) in
      rw e (ground (arith, scan-enter x s rs (λ k. h (inr k))))
]

pub scan-trim :
    (x m : ℕ) (s : RpcState) (rs rs' : List Reply)
    → trim m rs ≡ some rs'
    → m < x
    → scan x s rs' ≡ scan x s rs
unfolding scan trim
scan-trim x m s [] rs' e l = cc
scan-trim x m s (r ∷ rs) rs' e l = ground (arith, scan-trim x m s rs rs')

pub enter-ne-nil : (x : ℕ) (rs : List Reply) → enter x rs ≢ []
unfolding enter
enter-ne-nil x [] e = cc
enter-ne-nil x (r ∷ rs) e = ground arith
