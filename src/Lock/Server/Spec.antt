-- ===== src/Lock/Server/Spec.antt =====
-- What the lock server promises: each lock has at most one holder, and a line of clients that wait
-- for it in the order in which they came.
use mathlib.Core.Path.{fun_ext}
use cse_yet_another_file_sys.Base.{
  ℕ, ◌≡◌, ◌≢◌, refl, Bool, true, false, bytes_eq, ◌==◌, if◌then◌else◌, Option, none, some, List, [],
  ◌∷◌, Bytes, All, lookup, at_or, lookup-insert, at_or-insert, arith,
}
use cse_yet_another_file_sys.Lock.Server
use cse_yet_another_file_sys.Lock.Server.{
  LockServer, Verdict, granted, waiting, enter, is_empty, is_waiting, enqueue, init,
}
use cse_yet_another_file_sys.Lock.Server.Calls.{
  Call, acquire, release, Reply, verdict, retried, serve, run,
}

pub record Locks : Type 0 where
  pub holder : ℕ → Option Bytes
  pub line : ℕ → List Bytes

abbrev pub none_held : Locks
none_held = record { holder = λ l. none; line = λ l. [] }

abbrev pub at : {A : Type 0} → ℕ → A → (ℕ → A) → ℕ → A
at lid a f l = if lid == l then a else f l

abbrev pub first_of : List Bytes → Option Bytes
first_of [] = none
first_of (x ∷ xs) = some x

abbrev pub rest_of : List Bytes → List Bytes
rest_of [] = []
rest_of (x ∷ xs) = xs

-- A line with a client at its end, unless it stands in it already.
abbrev pub joined : Bytes → List Bytes → List Bytes
joined id [] = id ∷ []
joined id (x ∷ xs) = if bytes_eq x id then x ∷ xs else x ∷ joined id xs

abbrev nobody_waits : List Bytes → Bool
nobody_waits [] = true
nobody_waits (x ∷ xs) = false

abbrev answer_acquire : Locks → ℕ → Option Bytes → Reply
answer_acquire t lid none = verdict granted
answer_acquire t lid (some owner) = verdict (waiting (nobody_waits (t.line lid)))

-- A free lock is granted; else the client waits, and the holder is asked for the lock if the client
-- is the first to wait. A release tells the client that waits longest.
abbrev pub answer : Locks → Call → Reply
answer t (acquire lid id) = answer_acquire t lid (t.holder lid)
answer t (release lid id) = retried (first_of (t.line lid))

abbrev update_acquire : Locks → ℕ → Bytes → Option Bytes → Locks
update_acquire t lid id none = record t { holder = at lid (some id) t.holder }
update_acquire t lid id (some owner) = record t { line = at lid (joined id (t.line lid)) t.line }

abbrev pub update : Locks → Call → Locks
update t (acquire lid id) = update_acquire t lid id (t.holder lid)
update t (release lid id) = record {
  holder = at lid none t.holder;
  line = at lid (rest_of (t.line lid)) t.line;
}

abbrev pub answers : Locks → List Call → List Reply
answers t [] = []
answers t (c ∷ cs) = answer t c ∷ answers (update t c) cs

-- A client has a name that is not empty.
abbrev pub IsNamed : Call → Type 0
IsNamed (acquire lid id) = id ≢ []
IsNamed (release lid id) = Unit

-- The owner "" is the server itself.
abbrev owner : Option Bytes → Option Bytes
owner none = none
owner (some []) = none
owner (some (c ∷ id)) = some (c ∷ id)

abbrev pub locks_of : LockServer → Locks
locks_of s = record {
  holder = λ l. owner (lookup l s.where_is_lock);
  line = λ l. at_or [] l s.who_waiting_lock;
}

owner-named : (id : Bytes) → id ≢ [] → owner (some id) ≡ some id
owner-named [] h = absurd (h refl)
owner-named (c ∷ id) h = refl

pub enqueue-joined : (id : Bytes) (xs : List Bytes) → enqueue id xs ≡ joined id xs
unfolding enqueue is_waiting
enqueue-joined id [] = refl
enqueue-joined id (x ∷ xs) = grind (arith, enqueue-joined id xs)

is_empty-nobody_waits : (xs : List Bytes) → is_empty xs ≡ nobody_waits xs
unfolding is_empty
is_empty-nobody_waits [] = refl
is_empty-nobody_waits (x ∷ xs) = refl

pub answer-serve : (s : LockServer) (c : Call) → (serve s c).0 ≡ answer (locks_of s) c
unfolding serve enter Server.release
answer-serve s (acquire lid id) =
    ground (arith, is_empty-nobody_waits (at_or [] lid s.who_waiting_lock))
answer-serve s (release lid id) = ground arith

holder-serve :
    (s : LockServer) (c : Call) (l : ℕ)
    → IsNamed c
    → (locks_of (serve s c).1).holder l ≡ (update (locks_of s) c).holder l
unfolding serve enter Server.release
holder-serve s (acquire lid id) l h = grind (arith, lookup-insert, owner-named id h)
holder-serve s (release lid id) l h = grind (arith, lookup-insert)

pub line-serve :
    (s : LockServer) (c : Call) (l : ℕ)
    → (locks_of (serve s c).1).line l ≡ (update (locks_of s) c).line l
unfolding serve enter Server.release
line-serve s (acquire lid id) l =
    grind (arith, at_or-insert, enqueue-joined id (at_or [] lid s.who_waiting_lock))
line-serve s (release lid id) l = grind (arith, at_or-insert)

locks-serve :
    (s : LockServer) (c : Call) → IsNamed c → locks_of (serve s c).1 ≡ update (locks_of s) c
locks-serve s c h = eta (fun_ext (λ l. holder-serve s c l h)) (fun_ext (λ l. line-serve s c l))
  where
    eta : {t u : Locks} → t.holder ≡ u.holder → t.line ≡ u.line → t ≡ u
    eta e k = λ i. record { holder = e i; line = k i }

run-answers :
    (s : LockServer) (cs : List Call) → All IsNamed cs → run s cs ≡ answers (locks_of s) cs
unfolding run
run-answers s [] h = refl
run-answers s (c ∷ cs) h =
    rw (answer-serve s c, run-answers (serve s c).1 cs h.1, locks-serve s c h.0) refl

-- In whatever order the clients' calls get the server's mutex, the server answers them as a table
-- of locks does in which each lock has at most one holder and a line of waiting clients: an acquire
-- is granted when there is no holder, and else joins the line unless it is in it, with a revoke if
-- the line was empty; a release, by whichever client, frees the lock and tells the first in the
-- line to retry. No client that acquires has an empty name.
pub run-init-answers : (cs : List Call) → All IsNamed cs → run init cs ≡ answers none_held cs
unfolding lookup at_or
run-init-answers cs h = run-answers init cs h
