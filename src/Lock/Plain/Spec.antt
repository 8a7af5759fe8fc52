-- ===== src/Lock/Plain/Spec.antt =====
-- The lock server without caching, against a table of who holds each lock and who waits for it.
use mathlib.Core.Path.{subst}
use cse_yet_another_file_sys.Base.{
  ℕ, zero, suc, ◌+◌, ◌-◌, ◌^◌, ◌≤◌, ◌<◌, ◌≡◌, ◌≢◌, refl, ◌∙◌, inl, inr, true, false, Option, none,
  some, List, [], ◌∷◌, ◌++◌, ◌==◌, ==_iff, if◌then◌else◌, Map, lookup, insert, at_or, at_or-insert,
  length, length-append, take, drop, ltb, arith, Bool-cases,
}
use cse_yet_another_file_sys.Rpc.Status.{u32}
use cse_yet_another_file_sys.Lock.Plain.{
  PlainServer, init, Outcome, ok, sleeps, woke, stirred, acquire_found, acquire, pick,
  release_found, release, Call, acquires, releases, stirs, serve, run,
}

-- Who holds each lock, and who waits for it.
pub record Table : Type 0 where
  pub holder : ℕ → Option ℕ
  pub line : ℕ → List ℕ

abbrev pub nobody : Table
nobody = record { holder = λ lid. none; line = λ lid. [] }

abbrev pub at {ℓ} : {A : Type ℓ} → ℕ → A → (ℕ → A) → ℕ → A
at lid x f l = if lid == l then x else f l

abbrev pub asked : ℕ → ℕ → Table → Option ℕ → Outcome × Table
asked clt lid t none = (ok, record t { holder = at lid (some clt) t.holder })
asked clt lid t (some owner) = (sleeps, record t { line = at lid (t.line lid ++ clt ∷ []) t.line })

abbrev first : List ℕ → Option ℕ
first [] = none
first (x ∷ xs) = some x

-- The place `k` among those that wait, or the last if there are no more than `k`.
abbrev place : ℕ → List ℕ → ℕ
place k xs = if ltb k (length xs) then k else length xs - 1

-- The others, in their order.
abbrev others : ℕ → List ℕ → List ℕ
others j xs = take j xs ++ drop 1 (drop j xs)

-- An acquire gets a lock that nobody holds, and waits otherwise. A release gives the lock to one of
-- those that wait, or to nobody if there are none.
abbrev pub answer : Call → Table → Outcome × Table
answer (acquires clt lid) t = asked clt lid t (t.holder lid)
answer (releases k clt lid) t =
    let j = place k (t.line lid) in
    let next = first (drop j (t.line lid)) in
    (
      woke next,
      record { holder = at lid next t.holder; line = at lid (others j (t.line lid)) t.line },
    )
answer (stirs k lid) t = (stirred none, t)

abbrev pub answers : List Call → Table → List Outcome
answers [] t = []
answers (c ∷ cs) t = let (o, t1) = answer c t in o ∷ answers cs t1

-- Only the client that holds a lock releases it, and no wait ends by itself.
abbrev pub Obey : List Call → Table → Type 0
Obey [] t = Unit
Obey (acquires clt lid ∷ cs) t = Obey cs (answer (acquires clt lid) t).1
Obey (releases k clt lid ∷ cs) t =
    (t.holder lid ≡ some clt) × Obey cs (answer (releases k clt lid) t).1
Obey (stirs k lid ∷ cs) t = ⊥

abbrev held : Option ℕ → ℕ
held none = 0
held (some clt) = 1

-- The count of a lock is the number of those that hold it or wait, and none waits for a free lock.
record Agrees (m count : ℕ) (sleepers : List ℕ) (h : Option ℕ) (line : List ℕ) : Type 0 where
  counted : count ≡ held h + length line
  same : sleepers ≡ line
  idle : held h ≡ 0 → length line ≡ 0
  small : count ≤ m

IsCounted : ℕ → PlainServer → Table → Type 0
IsCounted m s t =
    (l : ℕ) → Agrees m (at_or 0 l s.lock_inuse_map) (at_or [] l s.sleepers) (t.holder l) (t.line l)

abbrev Follows : ℕ → Outcome × PlainServer → Outcome × Table → Type 0
Follows m (o, s) (p, t) = (o ≡ p) × IsCounted m s t

Agrees-later :
    (m count : ℕ) (sleepers : List ℕ) (h : Option ℕ) (line : List ℕ)
    → Agrees m count sleepers h line
    → Agrees (m + 1) count sleepers h line
Agrees-later m count sleepers h line a = record {
  counted = a.counted;
  same = a.same;
  idle = a.idle;
  small = let old : count ≤ m = a.small in omega arith;
}

-- One lock is changed.
put :
    (m lid : ℕ) (s : PlainServer) (t : Table) (holder : ℕ → Option ℕ) (line : ℕ → List ℕ)
    (counts : Map ℕ) (sleepers : Map (List ℕ))
    → IsCounted m s t
    → ((l : ℕ)
        → lid ≢ l
        → (at_or 0 l counts ≡ at_or 0 l s.lock_inuse_map)
          × (at_or [] l sleepers ≡ at_or [] l s.sleepers)
          × (holder l ≡ t.holder l)
          × (line l ≡ t.line l))
    → Agrees (m + 1) (at_or 0 lid counts) (at_or [] lid sleepers) (holder lid) (line lid)
    → IsCounted
        (m + 1)
        (record { nacquire = s.nacquire; lock_inuse_map = counts; sleepers = sleepers })
        (record { holder = holder; line = line })
unfolding IsCounted
put m lid s t holder line counts sleepers i others here l = elim (Bool-cases (lid == l)) [
  | inl e ↦
      subst (λ j. Agrees (m + 1) (at_or 0 j counts) (at_or [] j sleepers) (holder j) (line j))
        ((==_iff lid l).0 e) here
  | inr e ↦
      let (c, w, h, r) = others l (ground arith) in rw (c, w, h, r) (Agrees-later m _ _ _ _ (i l))
]

abbrev number : Option ℕ → ℕ
number none = 0
number (some n) = n

count_found :
    (lid : ℕ) (counts : Map ℕ) (o : Option ℕ)
    → lookup lid counts ≡ o
    → at_or 0 lid counts ≡ number o
unfolding at_or
count_found lid counts none e = rw (at_or, e) refl
count_found lid counts (some n) e = rw (at_or, e) refl

-- One of those that wait is picked, if there is one.
pick_lem :
    (k : ℕ) (xs : List ℕ)
    → (held (pick k xs).0 + length (pick k xs).1 ≡ length xs)
      × (held (pick k xs).0 ≡ 0 → length (pick k xs).1 ≡ 0)
unfolding pick
pick_lem k [] = (omega arith, λ z. refl)
pick_lem zero (x ∷ xs) = (omega arith, λ z. absurd (omega arith))
pick_lem (suc k) (x ∷ []) = (omega arith, λ z. refl)
pick_lem (suc k) (x ∷ y ∷ xs) =
    let (size, some_left) = pick_lem k (y ∷ xs) in
    (omega (arith, size), λ z. absurd (omega (arith, size, some_left z)))

place-suc : (k x y : ℕ) (xs : List ℕ) → place (suc k) (x ∷ y ∷ xs) ≡ suc (place k (y ∷ xs))
place-suc k x y xs = ground arith

-- What a signal picks is at its place, and the others keep their order.
pick-place :
    (k : ℕ) (xs : List ℕ) → pick k xs ≡ (first (drop (place k xs) xs), others (place k xs) xs)
unfolding pick
pick-place k [] = let start : place k [] ≡ 0 = ground arith in rw start refl
pick-place zero (x ∷ xs) = let start : place 0 (x ∷ xs) ≡ 0 = ground arith in rw start refl
pick-place (suc k) (x ∷ []) = let start : place (suc k) (x ∷ []) ≡ 0 = ground arith in rw start refl
pick-place (suc k) (x ∷ y ∷ xs) =
    let later = pick-place k (y ∷ xs) in rw (place-suc k x y xs, later) refl

module _ (m lid : ℕ) (s : PlainServer) (t : Table) (i : IsCounted m s t) (l : m + 1 < 2 ^ 32) where
  -- The lock that the call is for, with what its count was.
  before :
      (n : ℕ) (h : Option ℕ)
      → at_or 0 lid s.lock_inuse_map ≡ n
      → t.holder lid ≡ h
      → Agrees m n (at_or [] lid s.sleepers) h (t.line lid)
  unfolding IsCounted
  before n h e f = rw (e, f) at (i lid)

  granted :
      (clt : ℕ)
      → at_or 0 lid s.lock_inuse_map ≡ 0
      → IsCounted
          (m + 1)
          (record s { lock_inuse_map = insert lid 1 s.lock_inuse_map })
          (record t { holder = at lid (some clt) t.holder })
  granted clt e =
      let itself : (lid == lid) ≡ true = (==_iff lid lid).1 refl in
      let a = before 0 (t.holder lid) e refl in
      put m lid s t (at lid (some clt) t.holder) t.line (insert lid 1 s.lock_inuse_map) s.sleepers i
        (λ j n. (
          ground (arith, n, at_or-insert 0 lid j 1 s.lock_inuse_map),
          refl,
          ground (arith, n),
          refl,
        ))
        (rw (at_or-insert 0 lid lid 1 s.lock_inuse_map, itself)
          (record {
            counted = omega (arith, a.counted);
            same = a.same;
            idle = λ z. absurd (omega arith);
            small = omega arith;
          }))

  delayed :
      (clt owner n : ℕ)
      → at_or 0 lid s.lock_inuse_map ≡ n
      → t.holder lid ≡ some owner
      → IsCounted
          (m + 1)
          (record s {
            lock_inuse_map = insert lid (n + 1) s.lock_inuse_map;
            sleepers = insert lid (at_or [] lid s.sleepers ++ clt ∷ []) s.sleepers;
          })
          (record t { line = at lid (t.line lid ++ clt ∷ []) t.line })
  delayed clt owner n e f =
      let itself : (lid == lid) ≡ true = (==_iff lid lid).1 refl in
      let a = before n (some owner) e f in
      let longer = at_or [] lid s.sleepers ++ clt ∷ [] in
      put m lid s t t.holder (at lid (t.line lid ++ clt ∷ []) t.line)
        (insert lid (n + 1) s.lock_inuse_map) (insert lid longer s.sleepers) i
        (λ j ne. (
          ground (arith, ne, at_or-insert 0 lid j (n + 1) s.lock_inuse_map),
          ground (arith, ne, at_or-insert [] lid j longer s.sleepers),
          refl,
          ground (arith, ne),
        ))
        (rw
          (
            at_or-insert 0 lid lid (n + 1) s.lock_inuse_map,
            at_or-insert [] lid lid longer s.sleepers,
            itself,
            f,
          )
          (record {
            counted = omega (arith, a.counted, length-append (t.line lid) (clt ∷ []));
            same = rw a.same refl;
            idle = λ z. absurd (omega arith);
            small = omega (arith, a.small);
          }))

  acquire-Follows :
      (clt : ℕ) (o h : Option ℕ)
      → lookup lid s.lock_inuse_map ≡ o
      → t.holder lid ≡ h
      → Follows (m + 1) (acquire_found clt lid s o) (asked clt lid t h)
  acquire-Follows clt none none e f = (refl, granted clt (count_found lid s.lock_inuse_map _ e))
  acquire-Follows clt none (some owner) e f =
      let a = before 0 (some owner) (count_found lid s.lock_inuse_map _ e) f in
      absurd (omega (arith, a.counted))
  acquire-Follows clt (some n) none e f =
      let a = before n none (count_found lid s.lock_inuse_map _ e) f in
      let none_there : n ≡ 0 = omega (arith, a.counted, a.idle refl) in
      rw none_there (refl, granted clt (count_found lid s.lock_inuse_map _ e ∙ none_there))
  acquire-Follows clt (some n) (some owner) e f =
      let a = before n (some owner) (count_found lid s.lock_inuse_map _ e) f in
      let no_wrap : u32 (n + 1) ≡ n + 1 = omega (arith, a.small) in
      let more : (u32 (n + 1) == 1) ≡ false = ground (arith, a.counted, no_wrap) in
      rw (more, no_wrap) (refl, delayed clt owner n (count_found lid s.lock_inuse_map _ e) f)

  handed_on :
      (n clt : ℕ) (o : Option ℕ) (rest : List ℕ)
      → at_or 0 lid s.lock_inuse_map ≡ n
      → t.holder lid ≡ some clt
      → held o + length rest ≡ length (t.line lid)
      → (held o ≡ 0 → length rest ≡ 0)
      → IsCounted
          (m + 1)
          (record s {
            lock_inuse_map = insert lid (n - 1) s.lock_inuse_map;
            sleepers = insert lid rest s.sleepers;
          })
          (record { holder = at lid o t.holder; line = at lid rest t.line })
  handed_on n clt o rest e f size none_left =
      let itself : (lid == lid) ≡ true = (==_iff lid lid).1 refl in
      let a = before n (some clt) e f in
      put m lid s t (at lid o t.holder) (at lid rest t.line) (insert lid (n - 1) s.lock_inuse_map)
        (insert lid rest s.sleepers) i
        (λ j ne. (
          ground (arith, ne, at_or-insert 0 lid j (n - 1) s.lock_inuse_map),
          ground (arith, ne, at_or-insert [] lid j rest s.sleepers),
          ground (arith, ne),
          ground (arith, ne),
        ))
        (rw
          (
            at_or-insert 0 lid lid (n - 1) s.lock_inuse_map,
            at_or-insert [] lid lid rest s.sleepers,
            itself,
          )
          (record {
            counted = omega (arith, a.counted);
            same = refl;
            idle = none_left;
            small = omega (arith, a.small);
          }))

  release-Follows :
      (k clt : ℕ) (o : Option ℕ)
      → lookup lid s.lock_inuse_map ≡ o
      → t.holder lid ≡ some clt
      → Follows (m + 1) (release_found k lid s o) (answer (releases k clt lid) t)
  release-Follows k clt none e f =
      let a = before 0 (some clt) (count_found lid s.lock_inuse_map _ e) f in
      absurd (omega (arith, a.counted))
  release-Follows k clt (some n) e f =
      let a = before n (some clt) (count_found lid s.lock_inuse_map _ e) f in
      let down : u32 (n + (2 ^ 32 - 1)) ≡ n - 1 = omega (arith, a.counted, a.small) in
      let j = place k (t.line lid) in
      let (size, none_left) = rw (pick-place k (t.line lid)) at (pick_lem k (t.line lid)) in
      rw (down, a.same, pick-place k (t.line lid))
        (
          refl,
          handed_on n clt (first (drop j (t.line lid))) (others j (t.line lid))
              (count_found lid s.lock_inuse_map _ e) f size none_left,
        )

serve-Follows :
    (c : Call) (cs : List Call) (m : ℕ) (s : PlainServer) (t : Table)
    → m + 1 < 2 ^ 32
    → IsCounted m s t
    → Obey (c ∷ cs) t
    → Follows (m + 1) (serve c s) (answer c t) × Obey cs (answer c t).1
unfolding serve acquire release
serve-Follows (acquires clt lid) cs m s t l i o =
    (acquire-Follows m lid s t i l clt (lookup lid s.lock_inuse_map) (t.holder lid) refl refl, o)
serve-Follows (releases k clt lid) cs m s t l i o =
    (release-Follows m lid s t i l k clt (lookup lid s.lock_inuse_map) refl o.0, o.1)
serve-Follows (stirs k lid) cs m s t l i o = absurd o

run-Counted :
    (cs : List Call) (m : ℕ) (s : PlainServer) (t : Table)
    → m + length cs < 2 ^ 32
    → IsCounted m s t
    → Obey cs t
    → run cs s ≡ answers cs t
unfolding run
run-Counted [] m s t l i o = refl
run-Counted (c ∷ cs) m s t l i o =
    let ((same, i1), o1) = serve-Follows c cs m s t (omega arith) i o in
    let later = run-Counted cs (m + 1) (serve c s).1 (answer c t).1 (omega arith) i1 o1 in
    rw (same, later) refl

init-IsCounted : IsCounted 0 init nobody
unfolding IsCounted at_or lookup
init-IsCounted l = record { counted = refl; same = refl; idle = λ z. refl; small = omega arith }

-- The lock server without caching is a table of holders and waiting lines: if only holders release,
-- and no wait on the condition variable ends by itself, in fewer than 2^32 calls, its answers in whatever order calls get the mutex, and whichever client
-- a release wakes, are that an acquire gets the lock if nobody holds it and waits otherwise, and that
-- a release wakes one of those that wait for the lock, which then holds it, and none only if none
-- waits.
pub run-answers :
    (cs : List Call) → length cs < 2 ^ 32 → Obey cs nobody → run cs init ≡ answers cs nobody
run-answers cs l o = run-Counted cs 0 init nobody (omega arith) init-IsCounted o
