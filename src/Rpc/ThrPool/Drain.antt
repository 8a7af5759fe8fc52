-- ===== src/Rpc/ThrPool/Drain.antt =====
-- ThrPool::~ThrPool: a pool whose queue holds jobs and then pills, and the turns that it has left.
use cse_yet_another_file_sys.Base.{
  ℕ, suc, zero, ◌+◌, ◌-◌, ◌*◌, ◌<◌, ◌≤◌, ◌≡◌, refl, sym, ◌∙◌, ap, ◌⊎◌, inl, inr, Bool, true, false,
  not, ◌&&◌, ◌||◌, none, some, List, [], ◌∷◌, ◌++◌, map, ltb, ◌==◌, if◌then◌else◌, length,
  length-append, arith, Bool-cases, Option, Option-cases, replicate,
}
use mathlib.Core.List.{append_assoc, append-nil}
use cse_yet_another_file_sys.Rpc.Fifo.{enq, deq}
use cse_yet_another_file_sys.Rpc.ThrPool.{
  Job, ThrPool, Turn, put_pill, worker, job_returns, worker_stirs, destructor_stirs, work, put_one,
  turn, turns,
}

-- A wait that ends without a signal.
abbrev pub by_itself : Turn → Bool
by_itself put_pill = false
by_itself worker = false
by_itself job_returns = false
by_itself worker_stirs = true
by_itself destructor_stirs = true

-- How many of the waits end by themselves.
abbrev pub stirs : List Turn → ℕ
stirs [] = 0
stirs (t ∷ ts) = if by_itself t then stirs ts + 1 else stirs ts

abbrev cost : Turn → ℕ
cost t = if by_itself t then 2 else 0

stirs-cost : (t : Turn) (ts : List Turn) → 2 * stirs (t ∷ ts) ≡ cost t + 2 * stirs ts
stirs-cost t ts = elim (Bool-cases (by_itself t)) [
  | inl e ↦ rw e (omega arith)
  | inr e ↦ rw e (omega arith)
]

-- Taking an entry from the queue, with the signal that there is room.
taken-full :
    (blocked : Bool) (max n : ℕ)
    → (blocked ≡ false) ⊎ (max ≤ n + 1)
    → 0 < max
    → ((blocked && not (not (max == 0) && ltb n max)) ≡ false) ⊎ (max ≤ n)
taken-full blocked max n f room = elim (Bool-cases (ltb n max)) [
  | inl r ↦ inl (ground (arith, r, room))
  | inr r ↦ inr (ground (arith, r))
]

module _ {J : Type 0} where
  -- The threads that have not ended.
  abbrev pub live : ThrPool J → ℕ
  live p = p.awake + p.asleep + p.busy

  abbrev pub unblocked : ThrPool J → ℕ
  unblocked p = if p.blocked then 0 else 1

  -- The turns that are left at most, if no wait ends by itself.
  abbrev pub turns_left : ThrPool J → ℕ
  turns_left p = 3 * length p.jobq.q + 5 * p.pills + p.awake + 2 * p.busy + unblocked p

  -- No signal was lost: if a thread sleeps, there is one that is awake for each entry of the queue.
  abbrev pub IsHeard : ThrPool J → Type 0
  IsHeard p = (p.asleep ≡ 0) ⊎ (length p.jobq.q ≤ p.awake)

  -- The queue holds jobs and then `k` pills, and each thread that has not ended has a pill in the queue
  -- or yet to come.
  pub record IsDraining (jobs : List J) (p : ThrPool J) (js : List J) (k : ℕ) : Type 0 where
    pub queue : p.jobq.q ≡ map some js ++ replicate k none
    pub each : k + p.pills ≡ live p
    pub all_jobs : p.ran ++ js ≡ jobs
    pub anyone : (js ≡ []) ⊎ (0 < live p)
    pub capacity : 0 < p.jobq.max
    pub heard : IsHeard p
    pub full : (p.blocked ≡ false) ⊎ (p.jobq.max ≤ length p.jobq.q)

  replicate-snoc : (k : ℕ) (j : Job J) → replicate k j ++ j ∷ [] ≡ replicate (suc k) j
  replicate-snoc zero j = refl
  replicate-snoc (suc k) j = ap (◌∷◌ j) (replicate-snoc k j)

  -- The next state is as if the threads still have to drain, with fewer turns left.
  Step : List J → ThrPool J → ℕ → ThrPool J → Type 0
  Step jobs p cost p' =
      (js : List J) × (k : ℕ) × IsDraining jobs p' js k
      × (suc (turns_left p') ≤ turns_left p + cost)

  put_one-Step :
      (jobs : List J) (p : ThrPool J) (js : List J) (k : ℕ)
      → IsDraining jobs p js k
      → (p.pills == 0 || p.blocked) ≡ false
      → Step jobs p 0 (put_one p (enq none true p.jobq))
  unfolding Step enq
  put_one-Step jobs p js k i can =
      let open_ : p.blocked ≡ false = ground (arith, can) in
      let some_left : 0 < p.pills = ground (arith, can) in
      let longer = length-append p.jobq.q (none ∷ []) in
      elim (Bool-cases (p.jobq.max == 0 || ltb (length p.jobq.q) p.jobq.max)) [
        | inl r ↦ rw r (
          js,
          suc k,
          record {
            queue =
                ap (λ t. t ++ none ∷ []) i.queue
                ∙ append_assoc (map some js) (replicate k none) (none ∷ [])
                ∙ ap (λ t. map some js ++ t) (replicate-snoc k none);
            each = ground (arith, i.each, some_left);
            all_jobs = i.all_jobs;
            anyone = inr (ground (arith, i.each, some_left));
            capacity = i.capacity;
            heard = elim i.heard [
              | inl none_asleep ↦ inl (omega (arith, none_asleep))
              | inr enough ↦ (elim (Bool-cases (p.asleep == 0)) [
                | inl z ↦ inl (ground (arith, z))
                | inr z ↦ inr (rw z (omega (arith, longer, enough)))
              ])
            ];
            full = inl open_;
          },
          ground (arith, longer, some_left, open_),
        )
        | inr r ↦ rw r (
          js,
          k,
          record {
            queue = i.queue;
            each = i.each;
            all_jobs = i.all_jobs;
            anyone = i.anyone;
            capacity = i.capacity;
            heard = i.heard;
            full = inr (ground (arith, r));
          },
          ground (arith, open_),
        )
      ]

  work-Step :
      (jobs : List J) (p : ThrPool J) (js : List J) (k : ℕ)
      → IsDraining jobs p js k
      → (p.awake == 0) ≡ false
      → Step jobs p 0 (work p (deq p.jobq))
  unfolding Step deq
  work-Step jobs p [] zero i can =
      let some_awake : 0 < p.awake = ground (arith, can) in
      let empty = ap length i.queue in
      rw i.queue (
        [],
        zero,
        record {
          queue = refl;
          each = omega (arith, i.each, some_awake);
          all_jobs = i.all_jobs;
          anyone = inl refl;
          capacity = i.capacity;
          heard = inr (omega arith);
          full = (rw i.queue at i.full);
        },
        ground (arith, empty, some_awake),
      )
  work-Step jobs p [] (suc k) i can =
      let some_awake : 0 < p.awake = ground (arith, can) in
      let size = ap length i.queue in
      rw i.queue (
        [],
        k,
        record {
          queue = refl;
          each = omega (arith, i.each, some_awake);
          all_jobs = i.all_jobs;
          anyone = inl refl;
          capacity = i.capacity;
          heard = (elim i.heard [
            | inl z ↦ inl z
            | inr l ↦ inr (omega (arith, l, size, some_awake))
          ]);
          full =
              taken-full p.blocked p.jobq.max (length (replicate {A = Job J} k none))
                (elim i.full [ inl o ↦ inl o | inr l ↦ inr (omega (arith, l, size)) ]) i.capacity;
        },
        ground (arith, size, some_awake),
      )
  work-Step jobs p (j ∷ js) k i can =
      let some_awake : 0 < p.awake = ground (arith, can) in
      let size = ap length i.queue in
      rw i.queue (
        js,
        k,
        record {
          queue = refl;
          each = omega (arith, i.each, some_awake);
          all_jobs = append_assoc p.ran (j ∷ []) js ∙ i.all_jobs;
          anyone = inr (omega arith);
          capacity = i.capacity;
          heard = (elim i.heard [
            | inl z ↦ inl z
            | inr l ↦ inr (omega (arith, l, size, some_awake))
          ]);
          full =
              taken-full p.blocked p.jobq.max (length (map some js ++ replicate k none))
                (elim i.full [ inl o ↦ inl o | inr l ↦ inr (omega (arith, l, size)) ]) i.capacity;
        },
        ground (arith, size, some_awake),
      )

  stir-IsDraining :
      (jobs : List J) (p : ThrPool J) (js : List J) (k : ℕ)
      → IsDraining jobs p js k
      → (p.asleep == 0) ≡ false
      → IsDraining jobs (record p { awake = p.awake + 1; asleep = p.asleep - 1 }) js k
  stir-IsDraining jobs p js k i can =
      let some_asleep : 0 < p.asleep = ground (arith, can) in
      record {
        queue = i.queue;
        each = omega (arith, i.each, some_asleep);
        all_jobs = i.all_jobs;
        anyone = inr (omega arith);
        capacity = i.capacity;
        heard = elim i.heard [ inl z ↦ inl (omega (arith, z)) | inr l ↦ inr (omega (arith, l)) ];
        full = i.full;
      }

  return-IsDraining :
      (jobs : List J) (p : ThrPool J) (js : List J) (k : ℕ)
      → IsDraining jobs p js k
      → (p.busy == 0) ≡ false
      → IsDraining jobs (record p { awake = p.awake + 1; busy = p.busy - 1 }) js k
  return-IsDraining jobs p js k i can =
      let some_busy : 0 < p.busy = ground (arith, can) in
      record {
        queue = i.queue;
        each = omega (arith, i.each, some_busy);
        all_jobs = i.all_jobs;
        anyone = inr (omega arith);
        capacity = i.capacity;
        heard = elim i.heard [ inl z ↦ inl z | inr l ↦ inr (omega (arith, l)) ];
        full = i.full;
      }

  -- A turn that is made under a condition.
  pub made :
      (b : Bool) (q p' : ThrPool J)
      → (if b then none else some q) ≡ some p'
      → (b ≡ false) × (p' ≡ q)
  made false q p' e = (refl, cc)
  made true q p' e = cc

  turn-Step :
      (t : Turn) (jobs : List J) (p p' : ThrPool J) (js : List J) (k : ℕ)
      → IsDraining jobs p js k
      → turn t p ≡ some p'
      → Step jobs p (cost t) p'
  unfolding turn Step
  turn-Step put_pill jobs p p' js k i e =
      let (can, is_p') = made (p.pills == 0 || p.blocked) _ p' e in
      rw is_p' (put_one-Step jobs p js k i can)
  turn-Step worker jobs p p' js k i e =
      let (can, is_p') = made (p.awake == 0) _ p' e in rw is_p' (work-Step jobs p js k i can)
  turn-Step job_returns jobs p p' js k i e =
      let (can, is_p') = made (p.busy == 0) _ p' e in
      let some_busy : 0 < p.busy = ground (arith, can) in
      rw (is_p', Step) (js, k, return-IsDraining jobs p js k i can, omega (arith, some_busy))
  turn-Step worker_stirs jobs p p' js k i e =
      let (can, is_p') = made (p.asleep == 0) _ p' e in
      rw (is_p', Step) (js, k, stir-IsDraining jobs p js k i can, omega arith)
  turn-Step destructor_stirs jobs p p' js k i e = elim (Bool-cases p.blocked) [
    | inl b ↦
        let went : some (record p { blocked = false }) ≡ some p' = rw b at e in
        let is_p' : p' ≡ record p { blocked = false } = cc in
        rw (is_p', Step)
          (
            js,
            k,
            record {
              queue = i.queue;
              each = i.each;
              all_jobs = i.all_jobs;
              anyone = i.anyone;
              capacity = i.capacity;
              heard = i.heard;
              full = inl refl;
            },
            ground (arith, b),
          )
    | inr b ↦ let never : none ≡ some p' = rw b at e in cc
  ]

  -- A pool that is ending: all its threads have ended, no pill is left to put, and the jobs were taken
  -- in order and have returned; or somebody can go on whose wait need not end by itself.
  abbrev pub Ended : List J → ThrPool J → Type 0
  Ended jobs p = (live p ≡ 0) × (p.pills ≡ 0) × (p.jobq.q ≡ []) × (p.ran ≡ jobs)

  abbrev pub CanGoOn : ThrPool J → Type 0
  CanGoOn p = (t : Turn) × (by_itself t ≡ false) × (p' : ThrPool J) × (turn t p ≡ some p')

  none_awake :
      (jobs : List J) (p : ThrPool J) (js : List J) (k : ℕ)
      → IsDraining jobs p js k
      → p.busy ≡ 0
      → p.awake ≡ 0
      → Ended jobs p ⊎ CanGoOn p
  unfolding turn
  none_awake jobs p [] zero i b a = elim (Bool-cases (p.pills == 0)) [
    | inl z ↦
        let no_pills : p.pills ≡ 0 = ground (arith, z) in
        inl
          (omega (arith, i.each, no_pills), no_pills, i.queue, sym (append-nil p.ran) ∙ i.all_jobs)
    | inr z ↦
        let size = ap length i.queue in
        let open_ : p.blocked ≡ false = elim i.full [
          | inl o ↦ o
          | inr l ↦ absurd (omega (arith, l, size, i.capacity))
        ] in
        inr (put_pill, refl, put_one p (enq none true p.jobq), rw (z, open_) refl)
  ]
  none_awake jobs p [] (suc k) i b a =
      let size = ap length i.queue in
      absurd (elim i.heard [ inl z ↦ omega (arith, z, i.each) | inr l ↦ omega (arith, l, size) ])
  none_awake jobs p (j ∷ js) k i b a =
      let size = ap length i.queue in
      absurd (elim i.heard [
        | inl z ↦ elim i.anyone [ inl never ↦ cc | inr l ↦ omega (arith, l, z) ]
        | inr l ↦ omega (arith, l, size)
      ])

  progress :
      (jobs : List J) (p : ThrPool J) (js : List J) (k : ℕ)
      → IsDraining jobs p js k
      → Ended jobs p ⊎ CanGoOn p
  unfolding turn
  progress jobs p js k i = elim (Bool-cases (p.busy == 0)) [
    | inr b ↦
        inr (job_returns, refl, record p { awake = p.awake + 1; busy = p.busy - 1 }, rw b refl)
    | inl b ↦ elim (Bool-cases (p.awake == 0)) [
      | inr a ↦ inr (worker, refl, work p (deq p.jobq), rw a refl)
      | inl a ↦ none_awake jobs p js k i (ground (arith, b)) (ground (arith, a))
    ]
  ]

  turns-none : (ts : List Turn) (o : Option (ThrPool J)) → o ≡ none → turns ts o ≡ none
  unfolding turns
  turns-none [] o e = e
  turns-none (t ∷ ts) none e = refl
  turns-none (t ∷ ts) (some p) e = cc

  pub turns-IsDraining :
      (ts : List Turn) (jobs : List J) (p p' : ThrPool J) (js : List J) (k : ℕ)
      → IsDraining jobs p js k
      → turns ts (some p) ≡ some p'
      → (length ts + turns_left p' ≤ turns_left p + 2 * stirs ts) × (Ended jobs p' ⊎ CanGoOn p')
  unfolding turns Step
  turns-IsDraining [] jobs p p' js k i e =
      let same : p' ≡ p = cc in rw same (omega arith, progress jobs p js k i)
  turns-IsDraining (t ∷ ts) jobs p p' js k i e = elim (Option-cases (turn t p)) [
    | inl never ↦ let no : turns ts (turn t p) ≡ none = turns-none ts (turn t p) never in cc
    | inr (p1, went) ↦
        let (js1, k1, i1, less) = turn-Step t jobs p p1 js k i went in
        let (size, rest) = turns-IsDraining ts jobs p1 p' js1 k1 i1 (rw went at e) in
        (omega (arith, size, less, stirs-cost t ts), rest)
  ]

  pub length-map-some : (js : List J) → length (map some js) ≡ length js
  length-map-some [] = refl
  length-map-some (j ∷ js) = ap suc (length-map-some js)
