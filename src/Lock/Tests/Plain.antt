-- ===== src/Lock/Tests/Plain.antt =====
-- Three clients at the lock server without caching.
use cse_yet_another_file_sys.Base.{
  ◌≡◌, refl, some, none, List, [], ◌∷◌, lookup, insert, at_or, arith,
}
use cse_yet_another_file_sys.Lock.Plain.{
  init, Call, acquires, releases, stirs, ok, sleeps, woke, stirred, acquire, release, stir, pick,
  serve, run,
}
use cse_yet_another_file_sys.Lock.Plain.Spec.{nobody, answers, Obey, run-answers}

-- 1 holds lock 7, 2 and 3 wait; 3 is woken first.
abbrev calls : List Call
calls =
    acquires 1 7
    ∷ acquires 2 7
    ∷ acquires 3 7
    ∷ releases 1 1 7
    ∷ releases 0 3 7
    ∷ releases 0 2 7
    ∷ acquires 1 7
    ∷ []

outcomes :
    run calls init ≡ ok ∷ sleeps ∷ sleeps ∷ woke (some 3) ∷ woke (some 2) ∷ woke none ∷ ok ∷ []
unfolding run serve acquire release pick lookup insert at_or
outcomes = refl

-- A waiter whose wait ends by itself returns OK while another client holds the lock.
stir_runs :
    run (acquires 1 7 ∷ acquires 2 7 ∷ stirs 0 7 ∷ []) init ≡ ok ∷ sleeps ∷ stirred (some 2) ∷ []
unfolding run serve acquire stir pick lookup insert at_or
stir_runs = refl

calls-Obey : Obey calls nobody
calls-Obey = (refl, (refl, (refl, tt)))

run-answers_example : run calls init ≡ answers calls nobody
run-answers_example = run-answers calls (omega arith) calls-Obey
