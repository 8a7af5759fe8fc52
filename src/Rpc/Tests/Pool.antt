-- ===== src/Rpc/Tests/Pool.antt =====
-- Runs of fifo and ThrPool.
use cse_yet_another_file_sys.Base.{
  Bool, Option, none, map, ℕ, ◌+◌, ◌*◌, ◌≤◌, ◌≡◌, refl, ◌⊎◌, true, false, some, List, [], ◌∷◌, ◌++◌,
  length, arith,
}
use cse_yet_another_file_sys.Rpc.Fifo
use cse_yet_another_file_sys.Rpc.Fifo.{enqueue, dequeue, unused, step_all, fifo_lem, enq, deq}
use cse_yet_another_file_sys.Rpc.ThrPool.{
  ThrPool, Turn, put_pill, worker, job_returns, worker_stirs, turn, turns, Use, adds, makes,
  use_all, add_job,
}
use cse_yet_another_file_sys.Rpc.ThrPool.Drain.{stirs, turns_left, Ended, CanGoOn}
use cse_yet_another_file_sys.Rpc.ThrPool.End.{destroy_lem}

abbrev room : ℕ
room = 2

-- The third call finds the fifo full.
abbrev uses : List (Fifo.Use ℕ)
uses = enqueue 7 false ∷ enqueue 8 true ∷ enqueue 9 false ∷ dequeue ∷ enqueue 5 true ∷ dequeue ∷ []

fifo_lem_example :
    ((step_all (unused room) uses).taken ++ (step_all (unused room) uses).fifo.q
      ≡ (step_all (unused room) uses).accepted)
    × ((room ≡ 0) ⊎ (length (step_all (unused room) uses).fifo.q ≤ room))
fifo_lem_example = fifo_lem room uses

-- Two threads; one runs 3, and 4 and 5 are in the queue.
abbrev used : List (Use ℕ)
used = adds 3 ∷ makes worker ∷ makes worker ∷ makes worker_stirs ∷ adds 4 ∷ adds 5 ∷ []

abbrev two_threads : ThrPool ℕ
two_threads = record {
  jobq = record { q = some 4 ∷ some 5 ∷ []; max = 200 };
  blockadd = false;
  nthreads = 2;
  awake = 1;
  asleep = 0;
  busy = 1;
  pills = 0;
  blocked = false;
  ran = 3 ∷ [];
}

abbrev all_ended : ThrPool ℕ
all_ended = record {
  jobq = record { q = []; max = 200 };
  blockadd = false;
  nthreads = 2;
  awake = 0;
  asleep = 0;
  busy = 0;
  pills = 0;
  blocked = false;
  ran = 3 ∷ 4 ∷ 5 ∷ [];
}

abbrev schedule : List Turn
schedule =
    put_pill ∷ worker ∷ job_returns ∷ put_pill ∷ job_returns ∷ worker ∷ worker ∷ job_returns
    ∷ worker ∷ []

destroy_lem_example :
    (js : List ℕ) × (two_threads.jobq.q ≡ map some js)
    × (length schedule + turns_left all_ended ≤ 3 * length js + 7 * 2 + 1 + 2 * stirs schedule)
    × (Ended (two_threads.ran ++ js) all_ended ⊎ CanGoOn all_ended)
unfolding turns turn enq deq use_all add_job
destroy_lem_example =
    destroy_lem 2 false used two_threads all_ended schedule (omega arith) refl refl

-- With a queue that is full, the destructor waits for the signal of the thread that takes a job.
abbrev full : ThrPool ℕ
full = record two_threads { jobq = record { q = some 4 ∷ some 5 ∷ []; max = 2 }; pills = 2 }

abbrev is_blocked : Option (ThrPool ℕ) → Bool
is_blocked none = false
is_blocked (some p) = p.blocked

full_queue :
    (is_blocked (turns (put_pill ∷ []) (some full)) ≡ true)
    × (is_blocked (turns (put_pill ∷ worker ∷ []) (some full)) ≡ false)
unfolding turns turn enq deq
full_queue = (refl, refl)
