-- ===== src/Lock/System.antt =====
-- The lock server and its clients together: lock_server_cache.cc and lock_client_cache.cc. A client
-- keeps its mutex during its acquire call, so a turn of acquire with the call in it is one step. A
-- release is two: the client gives the lock up under its mutex, and later the server gets the call.
pub mod Token
pub mod Moves
pub mod Invariant
pub mod Steps
pub mod Acquire
pub mod Exclusion
use cse_yet_another_file_sys.Base.{
  ℕ, ◌+◌, ◌-◌, Bool, true, false, not, ◌&&◌, Option, none, some, List, [], ◌∷◌, Bytes, ◌==◌,
  if◌then◌else◌,
}
use cse_yet_another_file_sys.Lock.Client.{
  LockState, not_here, LockClient, Answer, Turn, returns, waits, goes_on, state_at, prepare,
  Release, noent, gives_back, keeps, revoke_handler, retry_handler, give_up,
}
use cse_yet_another_file_sys.Lock.Client
use cse_yet_another_file_sys.Lock.Server.{LockServer, Verdict, granted, waiting, enter}
use cse_yet_another_file_sys.Lock.Server

-- `leaving` counts the release calls of a client for a lock that have not reached the server, and
-- `held` is the thread of a client that has the lock.
pub record System : Type 0 where
  pub server : LockServer
  pub client : ℕ → LockClient
  pub leaving : ℕ → ℕ → ℕ
  pub held : ℕ → ℕ → Option ℕ

abbrev pub start : System
start = record {
  server = Server.init;
  client = λ x. Client.empty;
  leaving = λ x lid. 0;
  held = λ x lid. none;
}

-- A value at one client.
abbrev pub at {ℓ} : {A : Type ℓ} → ℕ → A → (ℕ → A) → ℕ → A
at x a f y = if x == y then a else f y

-- A value at one client and lock.
abbrev pub at_lock {ℓ} : {A : Type ℓ} → ℕ → ℕ → A → (ℕ → ℕ → A) → ℕ → ℕ → A
at_lock x lid a f y l = if x == y && lid == l then a else f y l

-- What becomes of an acquire call: it does not reach the server; or it does, and `answered` says
-- whether its client gets the answer (with a revoke call that failed, it gets another one).
pub data Fate : Type 0 where
  lost : Fate
  arrives : Bool → Fate

abbrev pub seen : Bool → Verdict → Answer
seen false v = Answer.other
seen true granted = Answer.ok
seen true (waiting need_revoke) = Answer.retry

abbrev pub call_acquire : Fate → LockServer → ℕ → Bytes → Answer × LockServer
call_acquire lost s lid id = (Answer.other, s)
call_acquire (arrives answered) s lid id = let (v, s1) = enter s lid id in (seen answered v, s1)

-- The server is called only where the state is NONE.
abbrev pub asks : LockState → Fate → LockServer → ℕ → Bytes → Answer × LockServer
asks not_here f s lid id = call_acquire f s lid id
asks _ f s lid id = (Answer.other, s)

abbrev pub took : ℕ → ℕ → ℕ → Turn → (ℕ → ℕ → Option ℕ) → ℕ → ℕ → Option ℕ
took x lid thread returns held = at_lock x lid (some thread) held
took x lid thread _ held = held

abbrev pub sent_back : ℕ → ℕ → Release → (ℕ → ℕ → ℕ) → ℕ → ℕ → ℕ
sent_back x lid gives_back leaving = at_lock x lid (leaving x lid + 1) leaving
sent_back x lid _ leaving = leaving

-- The client that the server tells to retry, if its handler gets the mutex in time.
abbrev pub retried : Bool → ℕ → Option ℕ → (ℕ → LockClient) → ℕ → LockClient
retried false lid o client = client
retried true lid none client = client
retried true lid (some y) client = at y (retry_handler (client y) lid).1 client

pub data Step : Type 0 where
  acquires : ℕ → ℕ → ℕ → Fate → Step
  releases : ℕ → ℕ → Step
  revoked : ℕ → ℕ → Step
  gives_up : ℕ → ℕ → Step
  released : ℕ → ℕ → Bool → Step

-- `name` is the id of a client, and `who` the client of an id.
module _ (name : ℕ → Bytes) (who : Bytes → Option ℕ) where
  abbrev pub whose : Option Bytes → Option ℕ
  whose none = none
  whose (some id) = who id

  unfoldable pub step : System → Step → System
  step s (acquires x lid thread f) =
      let c = s.client x in
      let (answer, server) = asks (state_at (prepare c lid) lid) f s.server lid (name x) in
      let (t, c1) = Client.turn answer c lid in
      record s { server = server; client = at x c1 s.client; held = took x lid thread t s.held }
  step s (releases x lid) =
      let (r, c1) = Client.release (s.client x) lid in
      record s {
        client = at x c1 s.client;
        leaving = sent_back x lid r s.leaving;
        held = at_lock x lid none s.held;
      }
  step s (revoked x lid) = record s { client = at x (revoke_handler (s.client x) lid) s.client }
  step s (gives_up x lid) = record s {
    client = at x (give_up (s.client x) lid) s.client;
    leaving = at_lock x lid (s.leaving x lid + 1) s.leaving;
  }
  step s (released x lid delivered) =
      let (first, server) = Server.release s.server lid (name x) in
      record s {
        server = server;
        client = retried delivered lid (whose first) s.client;
        leaving = at_lock x lid (s.leaving x lid - 1) s.leaving;
      }
