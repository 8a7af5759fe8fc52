-- ===== src/Lock/Tests.antt =====
-- Three clients and one lock at the lock server, and two threads of one client.
mod Plain
mod System
use cse_yet_another_file_sys.Base.{
  none, ◌≡◌, refl, true, false, some, List, [], ◌∷◌, Bytes, All, lookup, at_or, insert, bytes_eq,
}
use cse_yet_another_file_sys.Lock.Client.{empty}
use cse_yet_another_file_sys.Lock.Client
use cse_yet_another_file_sys.Lock.Client.Exclusion
use cse_yet_another_file_sys.Lock.Client.Exclusion.{Step, acquires, revoked, gives_back, AllObey}
use cse_yet_another_file_sys.Lock.Server.{
  LockServer, granted, waiting, init, enter, enqueue, is_empty, is_waiting, finish, retry, rpcerr,
}
use cse_yet_another_file_sys.Lock.Server
use cse_yet_another_file_sys.Lock.Server.Calls.{
  Call, acquire, release, verdict, retried, serve, run,
}
use cse_yet_another_file_sys.Lock.Server.Spec.{none_held, answers, IsNamed, run-init-answers}
use cse_yet_another_file_sys.Lock.Server.Exclusion.{
  IsExclusive, run-IsExclusive, after, line_of, waiter-retried,
}

abbrev a_id : Bytes
a_id = 97 ∷ []

abbrev b_id : Bytes
b_id = 98 ∷ []

abbrev c_id : Bytes
c_id = 99 ∷ []

abbrev calls : List Call
calls = acquire 7 a_id ∷ acquire 7 b_id ∷ acquire 7 c_id ∷ release 7 a_id ∷ acquire 7 b_id ∷ []

answered :
    run init calls
    ≡ verdict granted
      ∷ verdict (waiting true)
      ∷ verdict (waiting false)
      ∷ retried (some b_id)
      ∷ verdict granted
      ∷ []
unfolding run serve enter Server.release lookup insert at_or enqueue is_empty is_waiting bytes_eq
answered = refl

calls-IsNamed : All IsNamed calls
calls-IsNamed = ((λ e. cc), ((λ e. cc), ((λ e. cc), (tt, ((λ e. cc), tt)))))

run-init-answers_example : run init calls ≡ answers none_held calls
run-init-answers_example = run-init-answers calls calls-IsNamed

run-IsExclusive_example : IsExclusive (λ l. false) calls (run init calls)
run-IsExclusive_example = run-IsExclusive calls calls-IsNamed

-- The server when a holds the lock, and b and c wait.
abbrev busy : LockServer
busy = after init (acquire 7 a_id ∷ acquire 7 b_id ∷ acquire 7 c_id ∷ [])

busy_line : line_of busy 7 ≡ b_id ∷ c_id ∷ []
unfolding serve enter lookup insert at_or enqueue is_empty is_waiting bytes_eq
busy_line = refl

waiter-retried_example :
    (serve (after busy (release 7 a_id ∷ acquire 7 a_id ∷ [])) (release 7 a_id)).0
    ≡ retried (some c_id)
waiter-retried_example =
    waiter-retried (release 7 a_id ∷ acquire 7 a_id ∷ []) busy 7 c_id a_id (b_id ∷ []) [] busy_line
      refl

-- Threads 1 and 2 of a client and its lock 7: thread 1 waits for a retry, and has the lock; the
-- server asks for it while it does.
abbrev steps : List Step
steps =
    acquires 7 1 Client.retry
    ∷ Exclusion.retried 7
    ∷ acquires 7 1 Client.ok
    ∷ acquires 7 2 Client.ok
    ∷ revoked 7
    ∷ Exclusion.releases 7 1
    ∷ acquires 7 2 Client.ok
    ∷ Exclusion.releases 7 2
    ∷ gives_back 7
    ∷ []

steps-AllObey : AllObey empty (λ l. none) steps
unfolding Exclusion.step Exclusion.held_after Client.turn Client.release Client.revoke_handler
    Client.retry_handler Client.give_up Client.state_at at_or lookup insert
steps-AllObey = (tt, (refl, (tt, (tt, (tt, (refl, (tt, (refl, (refl, tt)))))))))
