-- ===== src/Rpc/ThrPool.antt =====
-- ThrPool (rpc/thr_pool.h and rpc/thr_pool.cc): threads that take jobs from a fifo, with the signals of
-- the fifo (rpc/fifo.h), and how its destructor makes them end. The threads are alike, so the pool
-- counts them.
pub mod Drain
pub mod End
use cse_yet_another_file_sys.Base.{
  ℕ, ◌+◌, ◌-◌, ◌*◌, Bool, true, false, not, ◌&&◌, ◌||◌, Option, none, some, List, [], ◌∷◌, ◌++◌,
  ltb, ◌==◌, if◌then◌else◌, length,
}
use cse_yet_another_file_sys.Rpc.Fifo.{Fifo, Call, returned, waits, enq, deq}

-- job_t: a function with its argument, or the poison pill, whose function is NULL.
abbrev pub Job : Type 0 → Type 0
Job J = Option J

-- Of the threads that have not ended, `asleep` wait at non_empty_c_ and have got no signal, `busy` run
-- a job, and `awake` are about to look at the queue. `ran` are the jobs that threads have taken,
-- `pills` those that the destructor still has to put into the queue, and `blocked` whether it waits at
-- has_space_c_ and has got no signal.
pub record ThrPool (J : Type 0) : Type 0 where
  pub jobq : Fifo (Job J)
  pub blockadd : Bool
  pub nthreads : ℕ
  pub awake : ℕ
  pub asleep : ℕ
  pub busy : ℕ
  pub pills : ℕ
  pub blocked : Bool
  pub ran : List J

-- What happens next: the destructor, in its first loop, or a thread, in the loop of do_worker, gets the
-- mutex of the fifo; a job returns; or a wait of a thread or of the destructor ends by itself.
pub data Turn : Type 0 where
  put_pill worker job_returns worker_stirs destructor_stirs : Turn

module _ {J : Type 0} where
  abbrev pub started : ℕ → Bool → ThrPool J
  started sz blocking = record {
    jobq = record { q = []; max = 100 * sz };
    blockadd = blocking;
    nthreads = sz;
    awake = sz;
    asleep = 0;
    busy = 0;
    pills = 0;
    blocked = false;
    ran = [];
  }

  -- pthread_cond_signal(&non_empty_c_): one of those that wait goes on.
  abbrev pub wake : ThrPool J → ThrPool J
  wake p = record p {
    awake = if p.asleep == 0 then p.awake else p.awake + 1;
    asleep = p.asleep - 1;
  }

  -- deq signals has_space_c_ if there is room.
  abbrev pub signal_space : ThrPool J → ThrPool J
  signal_space p =
      let room = not (p.jobq.max == 0) && ltb (length p.jobq.q) p.jobq.max in
      record p { blocked = p.blocked && not room }

  abbrev pub with_queue : ThrPool J → Call (Bool × Fifo (Job J)) → Call (Bool × ThrPool J)
  with_queue p waits = waits
  with_queue p (returned (true, f)) = returned (true, wake (record p { jobq = f }))
  with_queue p (returned (false, f)) = returned (false, record p { jobq = f })

  unfoldable pub add_job : J → ThrPool J → Call (Bool × ThrPool J)
  add_job j p = with_queue p (enq (some j) p.blockadd p.jobq)

  abbrev pub destroy : ThrPool J → ThrPool J
  destroy p = record p { pills = p.nthreads }

  abbrev pub put_one : ThrPool J → Call (Bool × Fifo (Job J)) → ThrPool J
  put_one p waits = record p { blocked = true }
  put_one p (returned (b, f)) = wake (record p { jobq = f; pills = p.pills - 1 })

  abbrev pub work : ThrPool J → Call (Job J × Fifo (Job J)) → ThrPool J
  work p waits = record p { awake = p.awake - 1; asleep = p.asleep + 1 }
  work p (returned (none, f)) = signal_space (record p { jobq = f; awake = p.awake - 1 })
  work p (returned (some j, f)) =
      signal_space
        (record p { jobq = f; awake = p.awake - 1; busy = p.busy + 1; ran = p.ran ++ j ∷ [] })

  -- `none` if nobody can make the turn.
  unfoldable pub turn : Turn → ThrPool J → Option (ThrPool J)
  turn put_pill p =
      if p.pills == 0 || p.blocked then none else some (put_one p (enq none true p.jobq))
  turn worker p = if p.awake == 0 then none else some (work p (deq p.jobq))
  turn job_returns p =
      if p.busy == 0 then none else some (record p { awake = p.awake + 1; busy = p.busy - 1 })
  turn worker_stirs p =
      if p.asleep == 0 then none else some (record p { awake = p.awake + 1; asleep = p.asleep - 1 })
  turn destructor_stirs p = if p.blocked then some (record p { blocked = false }) else none

  unfoldable pub turns : List Turn → Option (ThrPool J) → Option (ThrPool J)
  turns [] o = o
  turns (t ∷ ts) none = none
  turns (t ∷ ts) (some p) = turns ts (turn t p)

-- What happens to a pool in use: a job is added, by a thread outside of it, or a turn is made.
pub data Use (J : Type 0) : Type 0 where
  adds : J → Use J
  makes : Turn → Use J

module _ {J : Type 0} where
  -- A call that waits tries again later.
  abbrev pub after_add : ThrPool J → Call (Bool × ThrPool J) → ThrPool J
  after_add p waits = p
  after_add p (returned (b, p1)) = p1

  unfoldable pub use_all : List (Use J) → Option (ThrPool J) → Option (ThrPool J)
  unfolding add_job turn
  use_all [] o = o
  use_all (u ∷ us) none = none
  use_all (adds j ∷ us) (some p) = use_all us (some (after_add p (add_job j p)))
  use_all (makes t ∷ us) (some p) = use_all us (turn t p)
