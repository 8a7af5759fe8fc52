-- ===== src/Lock/System/Token.antt =====
-- A client's step on one lock: the states that it leaves, and who owns the lock at the server.
use cse_yet_another_file_sys.Base.{
  ℕ, ◌≡◌, ◌≢◌, refl, ◌∙◌, ◌⊎◌, inl, inr, Bool, Option, none, some, [], ◌∷◌, Bytes, ◌==◌, ==_iff,
  if◌then◌else◌, lookup, at_or, lookup-insert, at_or-insert, arith, Bool-cases, Option-cases,
}
use cse_yet_another_file_sys.Lock.Client.{
  LockState, not_here, free, locked, acquiring, releasing, LockClient, Answer, Turn, returns, waits,
  goes_on, state_at, prepare, turn, Release, noent, gives_back, keeps, release, revoke_handler,
  retry_handler, give_up,
}
use cse_yet_another_file_sys.Lock.Client
use cse_yet_another_file_sys.Lock.Server.{LockServer, Verdict, granted, waiting, enter}
use cse_yet_another_file_sys.Lock.Server

abbrev pub after_turn : Answer → LockState → LockState
after_turn answer free = locked
after_turn Answer.ok not_here = locked
after_turn Answer.retry not_here = acquiring
after_turn Answer.other not_here = not_here
after_turn answer s = s

abbrev pub turn_of : Answer → LockState → Turn
turn_of answer free = returns
turn_of Answer.ok not_here = returns
turn_of Answer.retry not_here = waits
turn_of Answer.other not_here = goes_on
turn_of answer s = waits

pub prepare-state : (c : LockClient) (lid l : ℕ) → state_at (prepare c lid) l ≡ state_at c l
unfolding prepare state_at at_or
prepare-state c lid l = grind (arith, lookup-insert)

set-state :
    (c : LockClient) (lid l : ℕ) (s : LockState)
    → state_at (Client.set c lid s) l ≡ (if lid == l then s else state_at c l)
unfolding state_at
set-state c lid l s = at_or-insert not_here lid l s c.lockstate_map

pub turn-state :
    (answer : Answer) (c : LockClient) (lid l : ℕ)
    → state_at (turn answer c lid).1 l
      ≡ (if lid == l then after_turn answer (state_at c lid) else state_at c l)
unfolding turn state_at
turn-state answer c lid l = grind (arith, lookup-insert)

pub turn-turn_of :
    (answer : Answer) (c : LockClient) (lid : ℕ)
    → (turn answer c lid).0 ≡ turn_of answer (state_at c lid)
unfolding turn state_at
turn-turn_of answer c lid = grind (arith, lookup-insert)

abbrev pub after_release : LockState → LockState
after_release releasing = not_here
after_release _ = free

abbrev pub release_of : LockState → Release
release_of releasing = gives_back
release_of _ = keeps

-- For a lock that the client has asked for.
pub release-state :
    (c : LockClient) (lid l : ℕ)
    → state_at c lid ≢ not_here
    → (state_at (release c lid).1 l
        ≡ (if lid == l then after_release (state_at c lid) else state_at c l))
      × ((release c lid).0 ≡ release_of (state_at c lid))
unfolding release state_at
release-state c lid l n = (grind (arith, lookup-insert), grind (arith, lookup-insert))

abbrev pub after_revoke : LockState → LockState
after_revoke locked = releasing
after_revoke s = s

pub revoke-state :
    (c : LockClient) (lid l : ℕ)
    → state_at (revoke_handler c lid) l
      ≡ (if lid == l then after_revoke (state_at c lid) else state_at c l)
unfolding revoke_handler state_at
revoke-state c lid l = grind (arith, lookup-insert)

pub give_up-state :
    (c : LockClient) (lid l : ℕ)
    → state_at (give_up c lid) l ≡ (if lid == l then not_here else state_at c l)
unfolding give_up
give_up-state c lid l = set-state c lid l not_here

-- A retry takes the state away, if there is one.
pub retry-state :
    (c : LockClient) (lid l : ℕ)
    → (state_at (retry_handler c lid).1 l ≡ state_at c l)
      ⊎ ((lid ≡ l) × (state_at (retry_handler c lid).1 l ≡ not_here))
unfolding retry_handler
retry-state c lid l = elim (Option-cases (lookup lid c.lock_cv_map)) [
  | inl e ↦ inl (rw (e, retry_handler) refl)
  | inr (u, e) ↦ elim (Bool-cases (lid == l)) [
    | inl same ↦
        inr
          ((==_iff lid l).0 same, rw (e, retry_handler) (set-state c lid l not_here ∙ rw same refl))
    | inr other ↦ inl (rw (e, retry_handler) (set-state c lid l not_here ∙ rw other refl))
  ]
]

-- A lock is in the client: a thread has it, or could have it without asking the server.
abbrev pub is_in : LockState → ℕ
is_in not_here = 0
is_in acquiring = 0
is_in _ = 1

-- Whom the server has granted the lock.
abbrev pub owner : LockServer → ℕ → Option Bytes
owner s l = lookup l s.where_is_lock

-- An acquire that is granted finds no owner, and makes the client the owner.
pub enter-granted :
    (s : LockServer) (lid : ℕ) (id : Bytes)
    → (enter s lid id).0 ≡ granted
    → ((owner s lid ≡ none) ⊎ (owner s lid ≡ some []))
      × ((l : ℕ) → owner (enter s lid id).1 l ≡ (if lid == l then some id else owner s l))
unfolding enter
enter-granted s lid id e = by_owner (lookup lid s.where_is_lock) refl
  where
    Found : Type 0
    Found =
        ((owner s lid ≡ none) ⊎ (owner s lid ≡ some []))
        × ((l : ℕ) → owner (enter s lid id).1 l ≡ (if lid == l then some id else owner s l))

    by_owner : (o : Option Bytes) → lookup lid s.where_is_lock ≡ o → Found
    by_owner none f = (inl f, λ l. rw (f, enter) (lookup-insert lid l id s.where_is_lock))
    by_owner (some []) f = (inr f, λ l. rw (f, enter) (lookup-insert lid l id s.where_is_lock))
    by_owner (some (c ∷ o)) f = let never = rw (f, enter) at e in cc

pub enter-waiting :
    (s : LockServer) (lid l : ℕ) (id : Bytes) (need_revoke : Bool)
    → (enter s lid id).0 ≡ waiting need_revoke
    → owner (enter s lid id).1 l ≡ owner s l
unfolding enter
enter-waiting s lid l id b e = grind (arith, e)

pub release-owner :
    (s : LockServer) (lid l : ℕ) (id : Bytes)
    → owner (Server.release s lid id).1 l ≡ (if lid == l then some [] else owner s l)
unfolding Server.release
release-owner s lid l id = lookup-insert lid l [] s.where_is_lock
