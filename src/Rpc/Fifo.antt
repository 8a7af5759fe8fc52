-- ===== src/Rpc/Fifo.antt =====
-- fifo (rpc/fifo.h): a queue between threads, which may have a capacity.
use cse_yet_another_file_sys.Base.{
  ℕ, ◌≤◌, ◌≡◌, refl, sym, ◌∙◌, ap, ◌⊎◌, inl, inr, Bool, true, false, ◌||◌, List, [], ◌∷◌, ◌++◌, ltb,
  ◌==◌, if◌then◌else◌, length, length-append, arith, Bool-cases,
}
use mathlib.Core.List.{append_assoc}

-- q_ and max_; a capacity of 0 is none.
pub record Fifo (A : Type 0) : Type 0 where
  pub q : List A
  pub max : ℕ

-- A call either returns or waits for a condition variable, in which case it looks again later.
pub data Call (R : Type 0) : Type 0 where
  returned : R → Call R
  waits : Call R

-- Calls of many threads, in the order in which they hold m_.
pub data Use (A : Type 0) : Type 0 where
  enqueue : A → Bool → Use A
  dequeue : Use A

-- The elements that calls of enq have accepted and that calls of deq have returned, in order.
pub record History (A : Type 0) : Type 0 where
  pub fifo : Fifo A
  pub accepted : List A
  pub taken : List A

module _ {A : Type 0} where
  unfoldable pub enq : A → Bool → Fifo A → Call (Bool × Fifo A)
  enq e blocking f =
      if f.max == 0 || ltb (length f.q) f.max
      then returned (true, record f { q = f.q ++ e ∷ [] })
      else if blocking
      then waits
      else returned (false, f)

  abbrev front_of : List A → ℕ → Call (A × Fifo A)
  front_of [] max = waits
  front_of (e ∷ q) max = returned (e, record { q = q; max = max })

  unfoldable pub deq : Fifo A → Call (A × Fifo A)
  deq f = front_of f.q f.max

  abbrev after_enq : A → Call (Bool × Fifo A) → History A → History A
  after_enq e waits h = h
  after_enq e (returned (false, f)) h = record h { fifo = f }
  after_enq e (returned (true, f)) h = record h { fifo = f; accepted = h.accepted ++ e ∷ [] }

  abbrev after_deq : Call (A × Fifo A) → History A → History A
  after_deq waits h = h
  after_deq (returned (e, f)) h = record h { fifo = f; taken = h.taken ++ e ∷ [] }

  -- A thread that waits does nothing until it tries again.
  unfoldable pub step : History A → Use A → History A
  step h (enqueue e blocking) = after_enq e (enq e blocking h.fifo) h
  step h dequeue = after_deq (deq h.fifo) h

  unfoldable pub step_all : History A → List (Use A) → History A
  step_all h [] = h
  step_all h (u ∷ us) = step_all (step h u) us

  abbrev pub unused : ℕ → History A
  unused max = record { fifo = record { q = []; max = max }; accepted = []; taken = [] }

  record IsFifo (max : ℕ) (h : History A) : Type 0 where
    capacity : h.fifo.max ≡ max
    in_order : h.taken ++ h.fifo.q ≡ h.accepted
    bounded : (max ≡ 0) ⊎ (length h.fifo.q ≤ max)

  enq-IsFifo :
      (max : ℕ) (h : History A) (e : A) (blocking : Bool)
      → IsFifo max h
      → IsFifo max (step h (enqueue e blocking))
  unfolding step enq
  enq-IsFifo max h e blocking i =
      elim (Bool-cases (h.fifo.max == 0 || ltb (length h.fifo.q) h.fifo.max)) [
        | inl room ↦ rw room (record {
          capacity = i.capacity;
          in_order =
              sym (append_assoc h.taken h.fifo.q (e ∷ [])) ∙ ap (λ t. t ++ e ∷ []) i.in_order;
          bounded = grind (arith, length-append h.fifo.q (e ∷ []), i.capacity);
        })
        | inr full ↦ elim (Bool-cases blocking) [
          | inl b ↦ rw (full, b) i
          | inr b ↦
              rw (full, b)
                (record { capacity = i.capacity; in_order = i.in_order; bounded = i.bounded })
        ]
      ]

  deq-IsFifo : (max : ℕ) (h : History A) → IsFifo max h → IsFifo max (step h dequeue)
  unfolding step deq
  deq-IsFifo max h i = from_front h.fifo.q i.in_order i.bounded
    where
      from_front :
          (q : List A)
          → h.taken ++ q ≡ h.accepted
          → (max ≡ 0) ⊎ (length q ≤ max)
          → IsFifo max (
              after_deq
                (front_of q h.fifo.max)
                (record h { fifo = record { q = q; max = h.fifo.max } }))
      from_front [] e b = record { capacity = i.capacity; in_order = e; bounded = b }
      from_front (x ∷ q) e b = record {
        capacity = i.capacity;
        in_order = append_assoc h.taken (x ∷ []) q ∙ e;
        bounded = ground arith;
      }

  step_all-IsFifo :
      (max : ℕ) (h : History A) (us : List (Use A)) → IsFifo max h → IsFifo max (step_all h us)
  unfolding step_all
  step_all-IsFifo max h [] i = i
  step_all-IsFifo max h (enqueue e blocking ∷ us) i =
      step_all-IsFifo max (step h (enqueue e blocking)) us (enq-IsFifo max h e blocking i)
  step_all-IsFifo max h (dequeue ∷ us) i =
      step_all-IsFifo max (step h dequeue) us (deq-IsFifo max h i)

  -- A fifo, whatever calls of enq and deq are made on it and in whatever order they hold its mutex,
  -- gives out what it has accepted in the order in which it was accepted, and holds the rest:
  -- nothing is lost, made up or given out twice. If it has a capacity, it never holds more.
  pub fifo_lem :
      (max : ℕ) (us : List (Use A))
      → ((step_all (unused max) us).taken ++ (step_all (unused max) us).fifo.q
          ≡ (step_all (unused max) us).accepted)
        × ((max ≡ 0) ⊎ (length (step_all (unused max) us).fifo.q ≤ max))
  fifo_lem max us =
      let i =
        step_all-IsFifo max (unused max) us
          (record { capacity = refl; in_order = refl; bounded = inr (omega arith) }) in
      (i.in_order, i.bounded)
