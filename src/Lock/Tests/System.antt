-- ===== src/Lock/Tests/System.antt =====
-- Two clients of one lock server.
use cse_yet_another_file_sys.Base.{
  ℕ, ◌≡◌, ◌≢◌, refl, some, none, Option, true, List, [], ◌∷◌, Bytes, lookup, insert, at_or,
  bytes_eq, arith,
}
use cse_yet_another_file_sys.Lock.Client
use cse_yet_another_file_sys.Lock.Server.{enter, enqueue, is_empty, is_waiting}
use cse_yet_another_file_sys.Lock.Server
use cse_yet_another_file_sys.Lock.System.{
  start, lost, arrives, Step, acquires, releases, revoked, gives_up, released, step,
}
use cse_yet_another_file_sys.Lock.System.Exclusion.{AllObey, AllExclude, system-AllExclude}

abbrev name : ℕ → Bytes
name x = x ∷ []

abbrev who : Bytes → Option ℕ
who (x ∷ []) = some x
who _ = none

same_client : (x y : ℕ) → name x ≡ name y → x ≡ y
same_client x y e = cc

not_empty : (x : ℕ) → name x ≢ []
not_empty x e = cc

-- Client 1 holds lock 7, client 2 asks for it and waits; 1 releases it, and 2 has it; a call of 1 is
-- lost; 2 keeps the lock, and gives it up later.
abbrev steps : List Step
steps =
    acquires 1 7 5 (arrives true)
    ∷ acquires 2 7 6 (arrives true)
    ∷ revoked 1 7
    ∷ releases 1 7
    ∷ released 1 7 true
    ∷ acquires 1 7 5 lost
    ∷ acquires 2 7 6 (arrives true)
    ∷ releases 2 7
    ∷ gives_up 2 7
    ∷ released 2 7 true
    ∷ acquires 1 7 5 (arrives true)
    ∷ []

steps-AllObey : AllObey name who start steps
unfolding step Client.turn Client.release Client.revoke_handler Client.prepare Client.retry_handler
    Client.give_up Client.state_at at_or lookup insert enter Server.release enqueue is_empty
    is_waiting bytes_eq
steps-AllObey = (
  tt,
  (tt, (tt, ((5, refl), (omega arith, (tt, (tt, ((6, refl), (refl, (omega arith, (tt, tt)))))))))),
)

system-AllExclude_example : AllExclude name who start steps
system-AllExclude_example = system-AllExclude name who same_client not_empty steps steps-AllObey
