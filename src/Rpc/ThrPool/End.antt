-- ===== src/Rpc/ThrPool/End.antt =====
-- ThrPool::~ThrPool after any use of the pool: how its threads end.
use cse_yet_another_file_sys.Base.{
  ℕ, ◌+◌, ◌*◌, ◌<◌, ◌≤◌, ◌≡◌, refl, sym, ◌∙◌, ap, ◌⊎◌, inl, inr, Bool, false, ◌||◌, none, some,
  List, [], ◌∷◌, ◌++◌, map, ltb, ◌==◌, length, length-append, arith, Bool-cases, Option,
  Option-cases,
}
use mathlib.Core.List.{append-nil}
use cse_yet_another_file_sys.Rpc.Fifo.{enq, deq}
use cse_yet_another_file_sys.Rpc.ThrPool.{
  ThrPool, Turn, put_pill, worker, job_returns, worker_stirs, destructor_stirs, destroy, started,
  Use, adds, makes, after_add, add_job, use_all, work, turn, turns,
}
use cse_yet_another_file_sys.Rpc.ThrPool.Drain.{
  stirs, live, unblocked, turns_left, IsHeard, made, length-map-some, Ended, CanGoOn,
  turns-IsDraining,
}

module _ {J : Type 0} where
  -- A pool of `sz` threads in use.
  record IsUsed (sz : ℕ) (p : ThrPool J) (js : List J) : Type 0 where
    queue : p.jobq.q ≡ map some js
    all : live p ≡ sz
    threads : p.nthreads ≡ sz
    size : p.jobq.max ≡ 100 * sz
    heard : IsHeard p
    going : p.blocked ≡ false
    no_pills : p.pills ≡ 0

  map-snoc : (js : List J) (j : J) → map some js ++ some j ∷ [] ≡ map some (js ++ j ∷ [])
  map-snoc [] j = refl
  map-snoc (k ∷ js) j = ap (◌∷◌ (some k)) (map-snoc js j)

  add_job-IsUsed :
      (sz : ℕ) (p : ThrPool J) (js : List J) (j : J)
      → IsUsed sz p js
      → (js1 : List J) × IsUsed sz (after_add p (add_job j p)) js1
  unfolding add_job enq
  add_job-IsUsed sz p js j i =
      elim (Bool-cases (p.jobq.max == 0 || ltb (length p.jobq.q) p.jobq.max)) [
        | inl r ↦
            let longer = length-append p.jobq.q (some j ∷ []) in
            rw r (
              js ++ j ∷ [],
              record {
                queue = ap (λ t. t ++ some j ∷ []) i.queue ∙ map-snoc js j;
                all = ground (arith, i.all);
                threads = i.threads;
                size = i.size;
                heard = elim i.heard [
                  | inl z ↦ inl (omega (arith, z))
                  | inr l ↦ elim (Bool-cases (p.asleep == 0)) [
                    | inl z ↦ inl (ground (arith, z))
                    | inr z ↦ inr (rw z (omega (arith, longer, l)))
                  ]
                ];
                going = i.going;
                no_pills = i.no_pills;
              },
            )
        | inr r ↦ elim (Bool-cases p.blockadd) [
          | inl b ↦
              rw (r, b)
                (
                  js,
                  record {
                    queue = i.queue;
                    all = i.all;
                    threads = i.threads;
                    size = i.size;
                    heard = i.heard;
                    going = i.going;
                    no_pills = i.no_pills;
                  },
                )
          | inr b ↦
              rw (r, b)
                (
                  js,
                  record {
                    queue = i.queue;
                    all = i.all;
                    threads = i.threads;
                    size = i.size;
                    heard = i.heard;
                    going = i.going;
                    no_pills = i.no_pills;
                  },
                )
        ]
      ]

  work-IsUsed :
      (sz : ℕ) (p : ThrPool J) (js : List J)
      → IsUsed sz p js
      → (p.awake == 0) ≡ false
      → (js1 : List J) × IsUsed sz (work p (deq p.jobq)) js1
  unfolding deq
  work-IsUsed sz p [] i can =
      let some_awake : 0 < p.awake = ground (arith, can) in
      rw i.queue (
        [],
        record {
          queue = refl;
          all = omega (arith, i.all, some_awake);
          threads = i.threads;
          size = i.size;
          heard = inr (omega arith);
          going = i.going;
          no_pills = i.no_pills;
        },
      )
  work-IsUsed sz p (j ∷ js) i can =
      let some_awake : 0 < p.awake = ground (arith, can) in
      let size = ap length i.queue in
      rw i.queue (
        js,
        record {
          queue = refl;
          all = omega (arith, i.all, some_awake);
          threads = i.threads;
          size = i.size;
          heard = elim i.heard [ inl z ↦ inl z | inr l ↦ inr (omega (arith, l, size, some_awake)) ];
          going = rw i.going refl;
          no_pills = i.no_pills;
        },
      )

  turn-IsUsed :
      (t : Turn) (sz : ℕ) (p p' : ThrPool J) (js : List J)
      → IsUsed sz p js
      → turn t p ≡ some p'
      → (js1 : List J) × IsUsed sz p' js1
  unfolding turn
  turn-IsUsed put_pill sz p p' js i e =
      let (can, is_p') = made (p.pills == 0 || p.blocked) _ p' e in
      absurd (ground (arith, can, i.no_pills))
  turn-IsUsed worker sz p p' js i e =
      let (can, is_p') = made (p.awake == 0) _ p' e in rw is_p' (work-IsUsed sz p js i can)
  turn-IsUsed job_returns sz p p' js i e =
      let (can, is_p') = made (p.busy == 0) _ p' e in
      let some_busy : 0 < p.busy = ground (arith, can) in
      rw is_p' (
        js,
        record {
          queue = i.queue;
          all = omega (arith, i.all, some_busy);
          threads = i.threads;
          size = i.size;
          heard = elim i.heard [ inl z ↦ inl z | inr l ↦ inr (omega (arith, l)) ];
          going = i.going;
          no_pills = i.no_pills;
        },
      )
  turn-IsUsed worker_stirs sz p p' js i e =
      let (can, is_p') = made (p.asleep == 0) _ p' e in
      let some_asleep : 0 < p.asleep = ground (arith, can) in
      rw is_p' (
        js,
        record {
          queue = i.queue;
          all = omega (arith, i.all, some_asleep);
          threads = i.threads;
          size = i.size;
          heard = elim i.heard [ inl z ↦ inl (omega (arith, z)) | inr l ↦ inr (omega (arith, l)) ];
          going = i.going;
          no_pills = i.no_pills;
        },
      )
  turn-IsUsed destructor_stirs sz p p' js i e = let never : none ≡ some p' = rw i.going at e in cc

  use_all-none : (us : List (Use J)) (o : Option (ThrPool J)) → o ≡ none → use_all us o ≡ none
  unfolding use_all
  use_all-none [] o e = e
  use_all-none (u ∷ us) none e = refl
  use_all-none (u ∷ us) (some p) e = cc

  use_all-IsUsed :
      (us : List (Use J)) (sz : ℕ) (p p' : ThrPool J) (js : List J)
      → IsUsed sz p js
      → use_all us (some p) ≡ some p'
      → (js1 : List J) × IsUsed sz p' js1
  unfolding use_all
  use_all-IsUsed [] sz p p' js i e = let same : p' ≡ p = cc in rw same (js, i)
  use_all-IsUsed (adds j ∷ us) sz p p' js i e =
      let (js1, i1) = add_job-IsUsed sz p js j i in
      use_all-IsUsed us sz (after_add p (add_job j p)) p' js1 i1 e
  use_all-IsUsed (makes t ∷ us) sz p p' js i e = elim (Option-cases (turn t p)) [
    | inl never ↦ let no : use_all us (turn t p) ≡ none = use_all-none us (turn t p) never in cc
    | inr (p1, went) ↦
        let (js1, i1) = turn-IsUsed t sz p p1 js i went in
        use_all-IsUsed us sz p1 p' js1 i1 (rw went at e)
  ]

  -- The end of a pool of `sz` threads, at least one, after any use of it, in which jobs are added and
  -- the threads take them, with the signals of the fifo. Its queue then holds jobs only. However the
  -- destructor and the threads take turns, at most 3 * jobs + 7 * sz + 1 turns are made, and two more
  -- for each wait that ends by itself; and at each point either all pills were put, every thread has
  -- ended, the queue is empty, and the jobs of the queue were taken, each once and in their order, and
  -- have returned, as have those before them, or somebody can go on without a wait that ends by
  -- itself: the destructor, a thread that is awake, or a job that runs and returns. So if each job
  -- that runs returns, the destructor's joins do.
  pub destroy_lem :
      (sz : ℕ) (blocking : Bool) (us : List (Use J)) (p p' : ThrPool J) (ts : List Turn)
      → 0 < sz
      → use_all us (some (started sz blocking)) ≡ some p
      → turns ts (some (destroy p)) ≡ some p'
      → (js : List J) × (p.jobq.q ≡ map some js)
        × (length ts + turns_left p' ≤ 3 * length js + 7 * sz + 1 + 2 * stirs ts)
        × (Ended (p.ran ++ js) p' ⊎ CanGoOn p')
  destroy_lem sz blocking us p p' ts some_there used e =
      let (js, i) =
        use_all-IsUsed us sz (started sz blocking) p []
          (record {
            queue = refl;
            all = omega arith;
            threads = refl;
            size = refl;
            heard = inl refl;
            going = refl;
            no_pills = refl;
          })
          used in
      let size = ap length i.queue ∙ length-map-some js in
      let (few, rest) =
        turns-IsDraining ts (p.ran ++ js) (destroy p) p' js 0
          (record {
            queue = i.queue ∙ sym (append-nil (map some js));
            each = omega (arith, i.all, i.threads);
            all_jobs = refl;
            anyone = inr (omega (arith, i.all));
            capacity = omega (arith, i.size);
            heard = i.heard;
            full = inl i.going;
          })
          e in
      let begins : unblocked (destroy p) ≡ 1 = rw i.going refl in
      (js, i.queue, omega (arith, few, size, i.all, i.threads, begins), rest)
