-- ===== src/Lock/Server/Exclusion.antt =====
-- Mutual exclusion and the order of service, from the answers of the lock server.
use mathlib.Core.List.{append_assoc}
use cse_yet_another_file_sys.Base.{
  ℕ, suc, ◌≡◌, refl, sym, ap, ◌∙◌, inl, inr, Bool, true, false, ◌==◌, if◌then◌else◌, Option, none,
  some, List, [], ◌∷◌, ◌++◌, Bytes, length, All, arith, Bool-cases, Option-cases, ==_iff,
}
use cse_yet_another_file_sys.Lock.Server.{LockServer, granted, waiting, init, enqueue, is_waiting}
use cse_yet_another_file_sys.Lock.Server.Calls.{
  Call, acquire, release, Reply, verdict, retried, serve, run,
}
use cse_yet_another_file_sys.Lock.Server.Spec.{
  Locks, none_held, at, first_of, rest_of, update, answers, IsNamed, run-init-answers, locks_of,
  line-serve, answer-serve, joined, enqueue-joined,
}

-- Replays what clients were told: a lock is taken from a grant on until its next release. A grant
-- is for a lock that is not taken, and a client waits only for one that is.
abbrev pub IsExclusive : (ℕ → Bool) → List Call → List Reply → Type 0
IsExclusive taken [] [] = Unit
IsExclusive taken (acquire lid id ∷ cs) (verdict granted ∷ rs) =
    (taken lid ≡ false) × IsExclusive (at lid true taken) cs rs
IsExclusive taken (acquire lid id ∷ cs) (verdict (waiting b) ∷ rs) =
    (taken lid ≡ true) × IsExclusive taken cs rs
IsExclusive taken (release lid id ∷ cs) (retried o ∷ rs) = IsExclusive (at lid false taken) cs rs
IsExclusive taken _ _ = ⊥

abbrev is_taken : Option Bytes → Bool
is_taken none = false
is_taken (some id) = true

answers-IsExclusive :
    (taken : ℕ → Bool) (t : Locks) (cs : List Call)
    → ((l : ℕ) → taken l ≡ is_taken (t.holder l))
    → IsExclusive taken cs (answers t cs)
answers-IsExclusive taken t [] h = tt
answers-IsExclusive taken t (release lid id ∷ cs) h =
    answers-IsExclusive (at lid false taken) (update t (release lid id)) cs
      (λ l. ground (arith, h l))
answers-IsExclusive taken t (acquire lid id ∷ cs) h =
    by_holder (λ taken' t' p. answers-IsExclusive taken' t' cs p) (t.holder lid) refl
  where
    by_holder :
        ((taken' : ℕ → Bool) (t' : Locks)
          → ((l : ℕ) → taken' l ≡ is_taken (t'.holder l))
          → IsExclusive taken' cs (answers t' cs))
        → (o : Option Bytes) → t.holder lid ≡ o
        → IsExclusive taken (acquire lid id ∷ cs) (answers t (acquire lid id ∷ cs))
    by_holder ih none e = rw e (
      h lid ∙ ap is_taken e,
      ih (at lid true taken) (record t { holder = at lid (some id) t.holder })
          (λ l. ground (arith, h l)),
    )
    by_holder ih (some owner) e = rw e (
      h lid ∙ ap is_taken e,
      ih taken (record t { line = at lid (joined id (t.line lid)) t.line }) h,
    )

-- Mutual exclusion: in whatever order calls get the mutex, the server never grants a lock that was
-- granted and not released since, and makes a client wait only for such a lock. No client that
-- acquires has an empty name.
pub run-IsExclusive : (cs : List Call) → All IsNamed cs → IsExclusive (λ l. false) cs (run init cs)
run-IsExclusive cs h =
    rw (run-init-answers cs h) (answers-IsExclusive (λ l. false) none_held cs (λ l. refl))

abbrev pub after : LockServer → List Call → LockServer
after s [] = s
after s (c ∷ cs) = after (serve s c).1 cs

-- How many of the calls release the lock.
abbrev pub releases : ℕ → List Call → ℕ
releases lid [] = 0
releases lid (acquire l id ∷ cs) = releases lid cs
releases lid (release l id ∷ cs) = if l == lid then suc (releases lid cs) else releases lid cs

abbrev pub line_of : LockServer → ℕ → List Bytes
line_of s lid = (locks_of s).line lid

enqueue-keeps :
    (id x : Bytes) (front back : List Bytes)
    → (back' : List Bytes) × (enqueue id (front ++ x ∷ back) ≡ front ++ x ∷ back')
unfolding enqueue
enqueue-keeps id x front back = elim (Bool-cases (is_waiting id (front ++ x ∷ back))) [
  | inl e ↦ (back, rw e refl)
  | inr e ↦ (back ++ id ∷ [], rw e (append_assoc front (x ∷ back) (id ∷ [])))
]

acquire-line :
    (s : LockServer) (l lid : ℕ) (i id : Bytes) (front back : List Bytes)
    → line_of s lid ≡ front ++ id ∷ back
    → (back' : List Bytes) × (line_of (serve s (acquire l i)).1 lid ≡ front ++ id ∷ back')
acquire-line s l lid i id front back e =
    let (back', k) = enqueue-keeps i id front back in
    elim (Option-cases ((locks_of s).holder l)) [
      | inl free ↦ (back, line-serve s (acquire l i) lid ∙ rw free e)
      | inr (owner, held) ↦ elim (Bool-cases (l == lid)) [
        | inl t ↦
            let same : l ≡ lid = (==_iff l lid).0 t in
            (
              back',
              line-serve s (acquire l i) lid
                  ∙ rw (held, t)
                      (ap (λ j. joined i (line_of s j)) same
                        ∙ ap (joined i) e
                        ∙ sym (enqueue-joined i (front ++ id ∷ back))
                        ∙ k),
            )
        | inr t ↦ (back, line-serve s (acquire l i) lid ∙ rw (held, t) e)
      ]
    ]

release-line :
    (s : LockServer) (l lid : ℕ) (by : Bytes) (line : List Bytes)
    → line_of s lid ≡ line
    → line_of (serve s (release l by)).1 lid ≡ (if l == lid then rest_of line else line)
release-line s l lid by line e = ground (arith, line-serve s (release l by) lid)

-- A client that waits behind `front` is told to retry by the release of the lock that comes after
-- as many releases of it as `front` is long, whatever else is called meanwhile.
pub waiter-retried :
    (cs : List Call) (s : LockServer) (lid : ℕ) (id by : Bytes) (front back : List Bytes)
    → line_of s lid ≡ front ++ id ∷ back
    → releases lid cs ≡ length front
    → (serve (after s cs) (release lid by)).0 ≡ retried (some id)
waiter-retried [] s lid id by [] back e n =
    answer-serve s (release lid by) ∙ ap (λ v. retried (first_of v)) e
waiter-retried [] s lid id by (y ∷ ys) back e n = absurd (omega arith)
waiter-retried (acquire l i ∷ cs) s lid id by front back e n =
    let (back', e') = acquire-line s l lid i id front back e in
    waiter-retried cs (serve s (acquire l i)).1 lid id by front back' e' n
waiter-retried (release l i ∷ cs) s lid id by [] back e n = elim (Bool-cases (l == lid)) [
  | inl t ↦ let one : suc (releases lid cs) ≡ 0 = rw t at n in absurd (omega arith)
  | inr t ↦
      waiter-retried cs (serve s (release l i)).1 lid id by [] back
        (release-line s l lid i _ e ∙ rw t refl) (rw t at n)
]
waiter-retried (release l i ∷ cs) s lid id by (y ∷ ys) back e n = elim (Bool-cases (l == lid)) [
  | inl t ↦
      waiter-retried cs (serve s (release l i)).1 lid id by ys back
        (release-line s l lid i _ e ∙ rw t refl)
        (let one : suc (releases lid cs) ≡ suc (length ys) = rw t at n in omega arith)
  | inr t ↦
      waiter-retried cs (serve s (release l i)).1 lid id by (y ∷ ys) back
        (release-line s l lid i _ e ∙ rw t refl) (rw t at n)
]
