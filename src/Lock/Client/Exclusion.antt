-- ===== src/Lock/Client/Exclusion.antt =====
-- The threads of one client that take and release locks through lock_client_cache, with the calls
-- of the server among their steps.
use cse_yet_another_file_sys.Base.{
  ℕ, ◌≡◌, refl, sym, ap, ◌∙◌, Bool, true, false, ◌==◌, if◌then◌else◌, Option, none, some, List, [],
  ◌∷◌, Map, lookup, at_or, lookup-insert, arith,
}
use cse_yet_another_file_sys.Lock.Client.{
  LockState, not_here, free, locked, releasing, LockClient, empty, Answer, Turn, returns, state_at,
  prepare, turn, release, revoke_handler, retry_handler, first_free, give_back, give_up,
}

-- A thread's turn in the loop of acquire, a thread's release, the server's revoke and retry, and what
-- give_back does under the mutex with a lock that it has found.
pub data Step : Type 0 where
  acquires : ℕ → ℕ → Answer → Step
  releases : ℕ → ℕ → Step
  revoked retried gives_back : ℕ → Step

-- Which thread has the lock, as the threads see it.
abbrev pub Held : Type 0
Held = ℕ → Option ℕ

abbrev pub now_held : Held → ℕ → Option ℕ → Held
now_held held lid o l = if lid == l then o else held l

abbrev taken : Held → ℕ → ℕ → Turn → Held
taken held lid thread returns = now_held held lid (some thread)
taken held lid thread _ = held

unfoldable pub step : LockClient → Step → LockClient
step c (acquires lid thread answer) = (turn answer c lid).1
step c (releases lid thread) = (release c lid).1
step c (revoked lid) = revoke_handler c lid
step c (retried lid) = (retry_handler c lid).1
step c (gives_back lid) = give_up c lid

unfoldable pub held_after : LockClient → Held → Step → Held
held_after c held (acquires lid thread answer) = taken held lid thread (turn answer c lid).0
held_after c held (releases lid thread) = now_held held lid none
held_after c held _ = held

-- A thread releases a lock that it has, a retry comes for a lock that no thread has, and a lock that
-- give_back has found FREE is still so when it has the mutex.
abbrev pub Obeys : LockClient → Held → Step → Type 0
Obeys c held (releases lid thread) = held lid ≡ some thread
Obeys c held (retried lid) = held lid ≡ none
Obeys c held (gives_back lid) = state_at c lid ≡ free
Obeys c held _ = Unit

abbrev pub AllObey : LockClient → Held → List Step → Type 0
AllObey c held [] = Unit
AllObey c held (s ∷ ss) = Obeys c held s × AllObey (step c s) (held_after c held s) ss

-- An acquire that returns takes a lock that no thread has.
abbrev pub Takes : Held → ℕ → Turn → Type 0
Takes held lid returns = held lid ≡ none
Takes held lid _ = Unit

-- Such an acquire, and give_back gives back a lock that no thread has.
abbrev pub IsSafe : LockClient → Held → Step → Type 0
IsSafe c held (acquires lid thread answer) = Takes held lid (turn answer c lid).0
IsSafe c held (gives_back lid) = held lid ≡ none
IsSafe c held _ = Unit

abbrev pub AllSafe : LockClient → Held → List Step → Type 0
AllSafe c held [] = Unit
AllSafe c held (s ∷ ss) = IsSafe c held s × AllSafe (step c s) (held_after c held s) ss

abbrev is_held : LockState → Bool
is_held locked = true
is_held releasing = true
is_held _ = false

abbrev is_some : Option ℕ → Bool
is_some none = false
is_some (some t) = true

-- The states LOCKED and RELEASING are those of the locks that a thread has.
abbrev Agrees : LockClient → Held → Type 0
Agrees c held = (l : ℕ) → is_held (state_at c l) ≡ is_some (held l)

state_at-prepare : (c : LockClient) (lid l : ℕ) → state_at (prepare c lid) l ≡ state_at c l
unfolding prepare state_at at_or
state_at-prepare c lid l = grind (arith, lookup-insert)

first_free-free :
    (locks m : Map LockState) (lid : ℕ)
    → first_free locks m ≡ some lid
    → at_or not_here lid locks ≡ free
unfolding first_free at_or
first_free-free locks [] lid e = cc
first_free-free locks ((j, s) ∷ m) lid e = grind (arith, first_free-free locks m lid)

-- A round of give_back with nothing in between gives back only a lock that is FREE.
give_back-free : (c : LockClient) (lid : ℕ) → (give_back c).0 ≡ some lid → state_at c lid ≡ free
unfolding give_back state_at
give_back-free c lid e =
    let found : first_free c.lockstate_map c.lockstate_map ≡ some lid = ground (arith, e) in
    first_free-free c.lockstate_map c.lockstate_map lid found

step-Agrees :
    (c : LockClient) (held : Held) (s : Step)
    → Obeys c held s
    → Agrees c held
    → Agrees (step c s) (held_after c held s)
unfolding step held_after turn release revoke_handler retry_handler state_at
step-Agrees c held (acquires lid thread answer) o h l = grind (arith, h l, h lid, lookup-insert)
step-Agrees c held (releases lid thread) o h l = grind (arith, h l, h lid, lookup-insert)
step-Agrees c held (revoked lid) o h l = grind (arith, h l, h lid, lookup-insert)
step-Agrees c held (retried lid) o h l = grind (arith, h l, h lid, lookup-insert)
step-Agrees c held (gives_back lid) o h l =
    unfold give_up in grind (arith, h l, h lid, o, lookup-insert)

no_thread : (o : Option ℕ) → is_some o ≡ false → o ≡ none
no_thread none e = refl
no_thread (some t) e = cc

step-IsSafe :
    (c : LockClient) (held : Held) (s : Step) → Obeys c held s → Agrees c held → IsSafe c held s
unfolding turn state_at
step-IsSafe c held (acquires lid thread answer) o h =
    grind (arith, h lid, lookup-insert, no_thread (held lid))
step-IsSafe c held (gives_back lid) o h = no_thread (held lid) (sym (h lid) ∙ ap is_held o)
step-IsSafe c held (releases lid thread) o h = tt
step-IsSafe c held (revoked lid) o h = tt
step-IsSafe c held (retried lid) o h = tt

steps-AllSafe :
    (c : LockClient) (held : Held) (ss : List Step)
    → Agrees c held
    → AllObey c held ss
    → AllSafe c held ss
steps-AllSafe c held [] h o = tt
steps-AllSafe c held (s ∷ ss) h o = (
  step-IsSafe c held s o.0 h,
  steps-AllSafe (step c s) (held_after c held s) ss (step-Agrees c held s o.0 h) o.1,
)

-- Among the threads of one client, in whatever order their steps, the server's revokes and retries
-- and give_back have the mutex, and whatever the server answers: acquire returns only a lock that no
-- thread has, and give_back gives back only such a lock. A thread releases only a lock that it has, a
-- retry comes only for a lock that no thread has, and a lock that give_back has found FREE, without
-- the mutex, is still FREE when it has the mutex.
threads-AllSafe : (ss : List Step) → AllObey empty (λ l. none) ss → AllSafe empty (λ l. none) ss
threads-AllSafe ss o = steps-AllSafe empty (λ l. none) ss (λ l. unfold state_at lookup in refl) o
