-- ===== src/Rpc/Poll/Round.antt =====
-- A round of PollMgr::wait_loop over SelectAIO::wait_ready (rpc/pollmgr.cc).
use cse_yet_another_file_sys.Base.{
  ltb, ℕ, zero, suc, ◌+◌, ◌≤◌, ◌<◌, ◌≡◌, ◌≢◌, refl, sym, ap, ◌∙◌, ◌⊎◌, inl, inr, Bool, true, false,
  not, ◌&&◌, Option, none, some, List, [], ◌∷◌, ◌++◌, ◌==◌, if◌then◌else◌, arith, Bool-cases,
  Option-cases,
}
use cse_yet_another_file_sys.Rpc.Poll.{
  FdSet, SelectAio, is_set, PollMgr, Request, add, del, removes, removed, perform, poll_start,
  max_poll_fds, fits, set_callback, add_callback, del_callback, start_remove, end_remove, watch_fd,
  unwatch_fd,
}
use cse_yet_another_file_sys.Rpc.Poll.Watched.{
  has, InTurn, no_removal, perform_all, perform_all_lem,
}

abbrev pushed : Bool → ℕ → List ℕ → List ℕ
pushed b fd fds = if b then fds ++ fd ∷ [] else fds

-- The readable and the writable descriptors below a number, where `tr` and `tw` are the sets that
-- select leaves.
unfoldable pub ready_below : ℕ → FdSet → FdSet → ℕ → List ℕ × List ℕ
ready_below pipe tr tw zero = ([], [])
ready_below pipe tr tw (suc fd) =
    let (readable, writable) = ready_below pipe tr tw fd in
    if fd == pipe && tr fd
    then (readable, writable)
    else (pushed (tr fd) fd readable, pushed (tw fd) fd writable)

unfoldable pub wait_ready : FdSet → FdSet → SelectAio → List ℕ × List ℕ
unfolding ready_below
wait_ready tr tw s = ready_below s.pipe tr tw (s.highfds + 1)

-- A call of an aio_callback with a descriptor.
pub data Upcall : Type 0 where
  read_cb write_cb : ℕ → ℕ → Upcall

abbrev pub called : (ℕ → ℕ → Upcall) → ℕ → Option ℕ → List Upcall → List Upcall
called cb fd none rest = rest
called cb fd (some c) rest = cb c fd ∷ rest

unfoldable pub call_each : (ℕ → ℕ → Upcall) → (ℕ → Option ℕ) → List ℕ → List Upcall
call_each cb callbacks [] = []
call_each cb callbacks (fd ∷ fds) = called cb fd (callbacks fd) (call_each cb callbacks fds)

-- The calls of a round, in their order.
unfoldable pub round : FdSet → FdSet → PollMgr → List Upcall
unfolding wait_ready call_each
round tr tw p =
    let (readable, writable) = wait_ready tr tw p.aio in
    call_each read_cb p.callbacks readable ++ call_each write_cb p.callbacks writable

unfoldable pub Among : {A : Type 0} → A → List A → Type 0
Among x [] = ⊥
Among x (y ∷ ys) = (x ≡ y) ⊎ Among x ys

Among-left : {A : Type 0} (x : A) (xs ys : List A) → Among x xs → Among x (xs ++ ys)
unfolding Among
Among-left x [] ys h = absurd h
Among-left x (z ∷ xs) ys (inl e) = inl e
Among-left x (z ∷ xs) ys (inr h) = inr (Among-left x xs ys h)

Among-right : {A : Type 0} (x : A) (xs ys : List A) → Among x ys → Among x (xs ++ ys)
unfolding Among
Among-right x [] ys h = h
Among-right x (z ∷ xs) ys h = inr (Among-right x xs ys h)

pushed-old : (b : Bool) (j fd : ℕ) (fds : List ℕ) → Among j fds → Among j (pushed b fd fds)
pushed-old false j fd fds h = h
pushed-old true j fd fds h = Among-left j fds (fd ∷ []) h

pushed-new : (b : Bool) (fd : ℕ) (fds : List ℕ) → b ≡ true → Among fd (pushed b fd fds)
unfolding Among
pushed-new false fd fds e = cc
pushed-new true fd fds e = Among-right fd fds (fd ∷ []) (inl refl)

call_each-Among :
    (cb : ℕ → ℕ → Upcall) (callbacks : ℕ → Option ℕ) (c fd : ℕ) (fds : List ℕ)
    → callbacks fd ≡ some c
    → Among fd fds
    → Among (cb c fd) (call_each cb callbacks fds)
unfolding Among call_each
call_each-Among cb callbacks c fd [] e h = absurd h
call_each-Among cb callbacks c fd (j ∷ fds) e (inl same) =
    let there : callbacks j ≡ some c = ap callbacks (sym same) ∙ e in
    rw there (inl (ap (cb c) same))
call_each-Among cb callbacks c fd (j ∷ fds) e (inr h) =
    later (callbacks j) (call_each-Among cb callbacks c fd fds e h)
  where
    later :
        (o : Option ℕ)
        → Among (cb c fd) (call_each cb callbacks fds)
        → Among (cb c fd) (called cb j o (call_each cb callbacks fds))
    later none i = i
    later (some d) i = inr i

-- What is ready is in the lists, but for the pipe.
ready_below-Among :
    (pipe : ℕ) (tr tw : FdSet) (n fd : ℕ)
    → fd ≢ pipe
    → fd < n
    → (tr fd ≡ true → Among fd (ready_below pipe tr tw n).0)
      × (tw fd ≡ true → Among fd (ready_below pipe tr tw n).1)
unfolding ready_below
ready_below-Among pipe tr tw zero fd other l = absurd (omega arith)
ready_below-Among pipe tr tw (suc n) fd other l = elim (Bool-cases (fd == n)) [
  | inl here ↦
      let e : n ≡ fd = ground arith in
      let not_pipe : (n == pipe && tr n) ≡ false = ground arith in
      rw (not_pipe) (
        rw e (
          λ t. pushed-new (tr fd) fd (ready_below pipe tr tw fd).0 t,
          λ t. pushed-new (tw fd) fd (ready_below pipe tr tw fd).1 t,
        ))
  | inr below ↦
      let (rd, wr) = ready_below-Among pipe tr tw n fd other (ground arith) in
      elim (Bool-cases (n == pipe && tr n)) [
        | inl t ↦ rw t (rd, wr)
        | inr t ↦ rw t (
          λ e. pushed-old (tr n) fd n (ready_below pipe tr tw n).0 (rd e),
          λ e. pushed-old (tw n) fd n (ready_below pipe tr tw n).1 (wr e),
        )
      ]
]

perform-pipe : (r : Request) (p p' : PollMgr) → perform r p ≡ some p' → p'.aio.pipe ≡ p.aio.pipe
unfolding perform add_callback del_callback start_remove end_remove watch_fd unwatch_fd
perform-pipe (add fd flag ch) p p' e =
    elim (Bool-cases (ltb fd max_poll_fds && fits (p.callbacks fd) ch)) [
      | inl t ↦
          let is_p' : p' ≡ record {
            aio = watch_fd fd flag p.aio;
            callbacks = set_callback fd (some ch) p.callbacks;
          } =
            let ran = rw t at e in cc in
          ap (λ (q : PollMgr). q.aio.pipe) is_p'
      | inr t ↦ let never : none ≡ some p' = rw t at e in cc
    ]
perform-pipe (del fd flag) p p' e =
    let is_p' : p' ≡ del_callback fd flag p = cc in ap (λ (q : PollMgr). q.aio.pipe) is_p'
perform-pipe (removes fd) p p' e =
    let is_p' : p' ≡ start_remove fd p = cc in ap (λ (q : PollMgr). q.aio.pipe) is_p'
perform-pipe (removed fd) p p' e =
    let is_p' : p' ≡ end_remove fd p = cc in ap (λ (q : PollMgr). q.aio.pipe) is_p'

perform_all-none : (rs : List Request) → perform_all rs none ≡ none
unfolding perform_all
perform_all-none [] = refl
perform_all-none (r ∷ rs) = refl

perform_all-pipe :
    (rs : List Request) (q p : PollMgr) → perform_all rs (some q) ≡ some p → p.aio.pipe ≡ q.aio.pipe
unfolding perform_all
perform_all-pipe [] q p e = let same : p ≡ q = cc in ap (λ (t : PollMgr). t.aio.pipe) same
perform_all-pipe (r ∷ rs) q p e = elim (Option-cases (perform r q)) [
  | inl t ↦ let never : none ≡ some p = sym (perform_all-none rs) ∙ (rw t at e) in cc
  | inr (q1, t) ↦ perform_all-pipe rs q1 p (rw t at e) ∙ perform-pipe r q q1 t
]

-- A descriptor that is watched has a callback.
callback_of :
    (pipe fd : ℕ) (gone : Bool) (p : PollMgr)
    → fd ≢ pipe
    → (fd ≡ pipe) ⊎ (is_set p.aio fd ≡ (has (p.callbacks fd) && not gone))
    → is_set p.aio fd ≡ true
    → (c : ℕ) × (p.callbacks fd ≡ some c)
callback_of pipe fd gone p other (inl e) t = absurd (other e)
callback_of pipe fd gone p other (inr e) t = elim (Option-cases (p.callbacks fd)) [
  | inl z ↦ let wrong : true ≡ false = sym t ∙ e ∙ ap (λ o. has o && not gone) z in cc
  | inr found ↦ found
]

below_high :
    (fd : ℕ) (s : SelectAio)
    → (is_set s fd ≡ false) ⊎ (fd ≤ s.highfds)
    → is_set s fd ≡ true
    → fd < s.highfds + 1
below_high fd s (inl e) t = let wrong : true ≡ false = sym t ∙ e in cc
below_high fd s (inr l) t = omega arith

-- No event is lost: whatever callbacks were added, deleted and removed, as long as no VERIFY fails,
-- and nobody adds or again removes a descriptor at whose block_remove_fd a thread waits, if select
-- leaves no descriptor in its sets that was not in them, each descriptor other than the pipe that it
-- leaves in the set for reading has a callback, whose read_cb is called in the round with it, and so
-- for writing and write_cb. The callbacks and the watched sets do not change during the round.
pub round_lem :
    (pipe : ℕ) (rs : List Request) (p : PollMgr) (tr tw : FdSet) (fd : ℕ)
    → InTurn rs no_removal
    → perform_all rs (some (poll_start pipe)) ≡ some p
    → fd ≢ pipe
    → ((j : ℕ) → tr j ≡ true → p.aio.rfds j ≡ true)
    → ((j : ℕ) → tw j ≡ true → p.aio.wfds j ≡ true)
    → (tr fd ≡ true → (c : ℕ) × (p.callbacks fd ≡ some c) × Among (read_cb c fd) (round tr tw p))
      × (tw fd ≡ true → (c : ℕ) × (p.callbacks fd ≡ some c) × Among (write_cb c fd) (round tr tw p))
unfolding round wait_ready
round_lem pipe rs p tr tw fd in_turn e other rd wr =
    let (calls, high) = perform_all_lem pipe rs p fd in_turn e in
    let same : p.aio.pipe ≡ pipe = perform_all-pipe rs (poll_start pipe) p e in
    let other_pipe : fd ≢ p.aio.pipe = λ t. other (t ∙ same) in
    let ready = ready_below-Among p.aio.pipe tr tw (p.aio.highfds + 1) fd other_pipe in
    let lists = wait_ready tr tw p.aio in
    let reading = call_each read_cb p.callbacks lists.0 in
    let writing = call_each write_cb p.callbacks lists.1 in
    (
      λ t.
          let set : is_set p.aio fd ≡ true = rw (rd fd t) refl in
          let (c, has_c) = callback_of pipe fd _ p other calls set in
          let there = (ready (below_high fd p.aio high set)).0 t in
          (
            c,
            has_c,
            Among-left (read_cb c fd) reading writing
                (call_each-Among read_cb p.callbacks c fd lists.0 has_c there),
          ),
      λ t.
          let set : is_set p.aio fd ≡ true = ground (arith, wr fd t) in
          let (c, has_c) = callback_of pipe fd _ p other calls set in
          let there = (ready (below_high fd p.aio high set)).1 t in
          (
            c,
            has_c,
            Among-right (write_cb c fd) reading writing
                (call_each-Among write_cb p.callbacks c fd lists.1 has_c there),
          ),
    )
