-- ===== src/Lock/System/Acquire.antt =====
-- A turn of acquire, with its call of the server, keeps what holds in every state.
use cse_yet_another_file_sys.Base.{
  ℕ, ◌+◌, ◌≤◌, ◌<◌, ◌≡◌, ◌≢◌, refl, sym, ap, ◌∙◌, ◌⊎◌, inl, inr, Bool, Option, none, some, [],
  Bytes, ◌==◌, if◌then◌else◌, arith,
}
use cse_yet_another_file_sys.Lock.Client.{
  LockState, not_here, free, locked, acquiring, releasing, Answer, Turn, returns, waits, goes_on,
  state_at, prepare, turn,
}
use cse_yet_another_file_sys.Lock.Server.{Verdict, granted, waiting, enter, LockServer}
use cse_yet_another_file_sys.Lock.System.{
  System, at_lock, Fate, lost, arrives, seen, asks, took, acquires, step,
}
use cse_yet_another_file_sys.Lock.System.Token.{
  after_turn, turn_of, prepare-state, turn-state, turn-turn_of, is_in, owner, enter-granted,
  enter-waiting,
}
use cse_yet_another_file_sys.Lock.System.Moves
use cse_yet_another_file_sys.Lock.System.Invariant.{
  states, load, is_held, is_some, IsSound, no_thread, load-held, at-state, at_lock-same, Changed,
  Changed-load, Changed-Agrees, Changed-IsSound,
}

-- The thread that has the lock after a turn.
abbrev taken_by : Turn → ℕ → Option ℕ → Option ℕ
taken_by returns thread o = some thread
taken_by _ thread o = o

took-taken_by :
    (t : Turn) (x lid thread y l : ℕ) (held : ℕ → ℕ → Option ℕ)
    → took x lid thread t held y l ≡ at_lock x lid (taken_by t thread (held x lid)) held y l
took-taken_by returns x lid thread y l held = refl
took-taken_by waits x lid thread y l held = at_lock-same x lid held y l
took-taken_by goes_on x lid thread y l held = at_lock-same x lid held y l

turn-is_held :
    (answer : Answer) (u : LockState) (thread : ℕ) (o : Option ℕ)
    → is_held u ≡ is_some o
    → is_held (after_turn answer u) ≡ is_some (taken_by (turn_of answer u) thread o)
turn-is_held answer u thread o h = ground (arith, h)

after_turn-is_in : (answer : Answer) (u : LockState) → is_in (after_turn answer u) ≤ 1
after_turn-is_in answer u = ground arith

-- What a turn's call does at the server: nothing that changes an owner, or it gets a lock that has no owner.
abbrev Asked : LockState → Answer → LockServer → LockServer → ℕ → Bytes → Type 0
Asked u answer sv sv' lid id =
    (((l : ℕ) → owner sv' l ≡ owner sv l) × (is_in (after_turn answer u) ≤ is_in u))
    ⊎ (((owner sv lid ≡ none) ⊎ (owner sv lid ≡ some []))
        × ((l : ℕ) → owner sv' l ≡ (if lid == l then some id else owner sv l)))

entered-Asked :
    (answered : Bool) (v : Verdict) (sv : LockServer) (lid : ℕ) (id : Bytes)
    → (enter sv lid id).0 ≡ v
    → Asked not_here (seen answered v) sv (enter sv lid id).1 lid id
entered-Asked answered granted sv lid id e = inr (enter-granted sv lid id e)
entered-Asked answered (waiting b) sv lid id e =
    inl (λ l. enter-waiting sv lid l id b e, ground arith)

asks-Asked :
    (u : LockState) (f : Fate) (sv : LockServer) (lid : ℕ) (id : Bytes)
    → Asked u (asks u f sv lid id).0 sv (asks u f sv lid id).1 lid id
asks-Asked not_here lost sv lid id = inl (λ l. refl, omega arith)
asks-Asked not_here (arrives answered) sv lid id =
    entered-Asked answered (enter sv lid id).0 sv lid id refl
asks-Asked free f sv lid id = inl (λ l. refl, omega arith)
asks-Asked locked f sv lid id = inl (λ l. refl, omega arith)
asks-Asked acquiring f sv lid id = inl (λ l. refl, omega arith)
asks-Asked releasing f sv lid id = inl (λ l. refl, omega arith)

returns-gains :
    (answer : Answer) (u : LockState)
    → turn_of answer u ≡ returns
    → (u ≡ free) ⊎ (is_in u < is_in (after_turn answer u))
returns-gains answer u e = ground (arith, e)

module _ (name : ℕ → Bytes) where
  -- The call's answer, and the server after it.
  abbrev pub called : System → ℕ → ℕ → Fate → Answer × LockServer
  called s x lid f = asks (state_at (prepare (s.client x) lid) lid) f s.server lid (name x)

  called-Asked :
      (s : System) (x lid : ℕ) (f : Fate)
      → let p = called s x lid f in Asked (states s x lid) p.0 s.server p.1 lid (name x)
  called-Asked s x lid f =
      rw (prepare-state (s.client x) lid lid) (asks-Asked (states s x lid) f s.server lid (name x))

module _ (name : ℕ → Bytes) (who : Bytes → Option ℕ)
    (injective : (x y : ℕ) → name x ≡ name y → x ≡ y) (named : (x : ℕ) → name x ≢ []) where
  granted-IsSound :
      (s s' : System) (x lid : ℕ) (u : LockState) (o : Option ℕ)
      → Changed s s' x lid u (s.leaving x lid) o
      → (owner s.server lid ≡ none) ⊎ (owner s.server lid ≡ some [])
      → ((l : ℕ) → owner s'.server l ≡ (if lid == l then some (name x) else owner s.server l))
      → is_in u ≤ 1
      → is_held u ≡ is_some o
      → IsSound name s
      → IsSound name s'
  granted-IsSound s s' x lid u o c nobody w le e h =
      let free_here =
        Moves.Fine-nobody name injective named (owner s.server) (load s) lid x nobody h.0 in
      let small : is_in u + s.leaving x lid ≤ 1 = omega arith in
      let after = at_lock x lid (is_in u + s.leaving x lid) (load s) in
      (
        Moves.Fine-same name (owner s'.server) (owner s'.server) after (load s') (λ l. refl)
            (Changed-load s s' x lid u (s.leaving x lid) o c)
            (Moves.Fine-granted name injective named (owner s.server) (owner s'.server) (load s) x
              lid (is_in u + s.leaving x lid) nobody w small h.0),
        Changed-Agrees s s' x lid u (s.leaving x lid) o c e h.1,
      )

  turned-IsSound :
      (s s' : System) (x lid thread : ℕ) (answer : Answer)
      → let u = states s x lid in
        let o = taken_by (turn_of answer u) thread (s.held x lid) in
        Changed s s' x lid (after_turn answer u) (s.leaving x lid) o
        → Asked u answer s.server s'.server lid (name x)
        → IsSound name s
        → IsSound name s'
  turned-IsSound s s' x lid thread answer c (inl (w, le)) h =
      let u = states s x lid in
      let o = taken_by (turn_of answer u) thread (s.held x lid) in
      Changed-IsSound name s s' x lid (after_turn answer u) (s.leaving x lid) o c w (omega arith)
        (turn-is_held answer u thread (s.held x lid) (h.1 x lid)) h
  turned-IsSound s s' x lid thread answer c (inr (nobody, w)) h =
      let u = states s x lid in
      let o = taken_by (turn_of answer u) thread (s.held x lid) in
      granted-IsSound s s' x lid (after_turn answer u) o c nobody w (after_turn-is_in answer u)
        (turn-is_held answer u thread (s.held x lid) (h.1 x lid)) h

  pub acquires-IsSound :
      (s : System) (x lid thread : ℕ) (f : Fate)
      → IsSound name s
      → IsSound name (step name who s (acquires x lid thread f))
  unfolding step
  acquires-IsSound s x lid thread f h =
      let answer = (called name s x lid f).0 in
      let u = states s x lid in
      turned-IsSound s (step name who s (acquires x lid thread f)) x lid thread answer
        (λ y l. (
          at-state x lid (after_turn answer u) (turn answer (s.client x) lid).1 s.client
              (λ m. turn-state answer (s.client x) lid m) y l,
          at_lock-same x lid s.leaving y l,
          rw (turn-turn_of answer (s.client x) lid)
              (took-taken_by (turn_of answer u) x lid thread y l s.held),
        ))
        (called-Asked name s x lid f) h

  -- A turn returns with a lock that is FREE, or that the server has granted.
  turn-takes :
      (s : System) (answer : Answer) (sv' : LockServer) (x lid : ℕ)
      → turn_of answer (states s x lid) ≡ returns
      → Asked (states s x lid) answer s.server sv' lid (name x)
      → (states s x lid ≡ free) ⊎ ((owner s.server lid ≡ none) ⊎ (owner s.server lid ≡ some []))
  turn-takes s answer sv' x lid e a = elim (returns-gains answer (states s x lid) e) [
    | inl here ↦ inl here
    | inr more ↦ elim a [ inl (w, le) ↦ absurd (omega arith) | inr (nobody, w) ↦ inr nobody ]
  ]

  -- A turn that returns takes a lock that no thread of any client has.
  pub acquires-takes :
      (s : System) (x lid y : ℕ) (f : Fate)
      → IsSound name s
      → (turn (called name s x lid f).0 (s.client x) lid).0 ≡ returns
      → s.held y lid ≡ none
  acquires-takes s x lid y f h e =
      let answer = (called name s x lid f).0 in
      let e' : turn_of answer (states s x lid) ≡ returns =
        sym (turn-turn_of answer (s.client x) lid) ∙ e in
      elim (turn-takes s answer (called name s x lid f).1 x lid e' (called-Asked name s x lid f)) [
        | inl here ↦ takes_free here
        | inr nobody ↦
            load-held s y lid
              (Moves.Fine-nobody name injective named (owner s.server) (load s) lid y nobody h.0)
              h.1
      ]
    where
      takes_free : states s x lid ≡ free → s.held y lid ≡ none
      takes_free here =
          let loaded : 0 < load s x lid = rw here (omega arith) in
          elim (Moves.Fine-one name injective named (owner s.server) (load s) lid x y loaded h.0) [
            | inl same ↦
                no_thread (s.held y lid)
                  (sym (h.1 y lid) ∙ ap is_held (ap (λ z. states s z lid) (sym same) ∙ here))
            | inr none_there ↦ load-held s y lid none_there h.1
          ]
