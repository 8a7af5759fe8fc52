-- ===== src/Rpc/Poll/Watched.antt =====
-- PollMgr over SelectAIO: every descriptor that is watched is seen by select and has a callback.
use mathlib.Core.Path.{subst}
use cse_yet_another_file_sys.Base.{
  ℕ, zero, suc, ◌+◌, ◌≤◌, ◌<◌, ◌≡◌, ◌≢◌, refl, sym, ◌∙◌, ◌⊎◌, inl, inr, Bool, true, false, not,
  ◌&&◌, ◌||◌, Option, none, some, List, [], ◌∷◌, ltb, ◌==◌, ==_iff, if◌then◌else◌, arith,
  Bool-cases, Option-cases,
}
use cse_yet_another_file_sys.Rpc.Poll.{
  PollFlag, rdonly, wronly, rdwr, SelectAio, select_start, with_bits, watch_fd, is_set, new_high,
  unwatch_fd, PollMgr, max_poll_fds, fits, set_callback, add_callback, del_callback, start_remove,
  end_remove, Request, add, del, removes, removed, perform, poll_start, fd_put,
}

with_bits-true :
    (fd j : ℕ) (flag : PollFlag) (s : SelectAio)
    → is_set (with_bits true fd flag s) j ≡ (fd == j || is_set s j)
with_bits-true fd j rdonly s = ground arith
with_bits-true fd j wronly s = ground arith
with_bits-true fd j rdwr s = ground arith

with_bits-false :
    (fd j : ℕ) (flag : PollFlag) (s : SelectAio)
    → is_set (with_bits false fd flag s) j ≡ true
    → is_set s j ≡ true
with_bits-false fd j rdonly s e = ground arith
with_bits-false fd j wronly s e = ground arith
with_bits-false fd j rdwr s e = ground arith

with_bits-other :
    (fd j : ℕ) (flag : PollFlag) (s : SelectAio)
    → fd ≢ j
    → is_set (with_bits false fd flag s) j ≡ is_set s j
with_bits-other fd j rdonly s e = ground arith
with_bits-other fd j wronly s e = ground arith
with_bits-other fd j rdwr s e = ground arith

new_high-covers : (s : SelectAio) (n j : ℕ) → is_set s j ≡ true → j < n → j ≤ new_high s n
unfolding new_high
new_high-covers s zero j e l = absurd (omega arith)
new_high-covers s (suc n) j e l = elim (Bool-cases (is_set s n)) [
  | inl t ↦ rw t (omega arith)
  | inr t ↦ elim (Bool-cases (j == n)) [
    | inl same ↦
        let wrong : is_set s n ≡ true = rw ((==_iff j n).0 same) at e in
        let clash : true ≡ false = sym wrong ∙ t in cc
    | inr other ↦ rw t (new_high-covers s n j e (ground arith))
  ]
]

-- select looks at the descriptors up to highfds.
IsCovered : SelectAio → Type 0
IsCovered s = (j : ℕ) → is_set s j ≡ true → j ≤ s.highfds

watch_fd-IsCovered :
    (fd : ℕ) (flag : PollFlag) (s : SelectAio) → IsCovered s → IsCovered (watch_fd fd flag s)
unfolding IsCovered watch_fd
watch_fd-IsCovered fd flag s h j e =
    let before : (fd == j || is_set s j) ≡ true = sym (with_bits-true fd j flag s) ∙ e in
    elim (Bool-cases (fd == j)) [
      | inl same ↦ ground arith
      | inr other ↦ let old : j ≤ s.highfds = h j (rw other at before) in ground arith
    ]

unwatch_fd-IsCovered :
    (fd : ℕ) (flag : PollFlag) (s : SelectAio) → IsCovered s → IsCovered (unwatch_fd fd flag s).1
unfolding IsCovered unwatch_fd
unwatch_fd-IsCovered fd flag s h j e =
    let s1 = with_bits false fd flag s in
    let old : j ≤ s.highfds = h j (with_bits-false fd j flag s e) in
    elim (Bool-cases (not (is_set s1 fd) && fd == s.highfds)) [
      | inl lower ↦ rw lower (new_high-covers s1 (s.highfds + 1) j e (omega arith))
      | inr same ↦ rw same old
    ]

abbrev pub has : Option ℕ → Bool
has none = false
has (some c) = true

-- Which descriptors are being removed: those at whose block_remove_fd a thread waits.
abbrev pub removing_after : Request → (ℕ → Bool) → ℕ → Bool
removing_after (add fd flag ch) rm = rm
removing_after (del fd flag) rm = rm
removing_after (removes fd) rm = fd_put true fd rm
removing_after (removed fd) rm = fd_put false fd rm

abbrev pub removing : List Request → (ℕ → Bool) → ℕ → Bool
removing [] rm = rm
removing (r ∷ rs) rm = removing rs (removing_after r rm)

-- The second half of a removal comes after its first, and a descriptor that is being removed is not
-- added, or removed again, in between.
abbrev pub MayCome : Request → (ℕ → Bool) → Type 0
MayCome (add fd flag ch) rm = rm fd ≡ false
MayCome (del fd flag) rm = Unit
MayCome (removes fd) rm = rm fd ≡ false
MayCome (removed fd) rm = rm fd ≡ true

abbrev pub InTurn : List Request → (ℕ → Bool) → Type 0
InTurn [] rm = Unit
InTurn (r ∷ rs) rm = MayCome r rm × InTurn rs (removing_after r rm)

abbrev pub no_removal : ℕ → Bool
no_removal fd = false

-- Besides the pipe, exactly the descriptors with a callback that are not being removed are watched.
HasCallbacks : ℕ → (ℕ → Bool) → PollMgr → Type 0
HasCallbacks pipe rm p =
    (j : ℕ) → (j ≡ pipe) ⊎ (is_set p.aio j ≡ (has (p.callbacks j) && not (rm j)))

record IsServed (pipe : ℕ) (rm : ℕ → Bool) (p : PollMgr) : Type 0 where
  covered : IsCovered p.aio
  called : HasCallbacks pipe rm p

put_callback :
    (fd j : ℕ) (c : Option ℕ) (callbacks : ℕ → Option ℕ)
    → has (set_callback fd c callbacks j) ≡ (if fd == j then has c else has (callbacks j))
put_callback fd j c callbacks = elim (Bool-cases (fd == j)) [
  | inl e ↦ rw e refl
  | inr e ↦ rw e refl
]

add-IsServed :
    (pipe fd ch : ℕ) (flag : PollFlag) (rm : ℕ → Bool) (p p' : PollMgr)
    → rm fd ≡ false
    → IsServed pipe rm p
    → add_callback fd flag ch p ≡ some p'
    → IsServed pipe rm p'
unfolding add_callback HasCallbacks watch_fd
add-IsServed pipe fd ch flag rm p p' free h e =
    elim (Bool-cases (ltb fd max_poll_fds && fits (p.callbacks fd) ch)) [
      | inl t ↦
          let is_p' : p' ≡ record {
            aio = watch_fd fd flag p.aio;
            callbacks = set_callback fd (some ch) p.callbacks;
          } =
            let ran = rw t at e in cc in
          rw is_p' (record {
            covered = watch_fd-IsCovered fd flag p.aio h.covered;
            called = λ j. still j (h.called j);
          })
      | inr t ↦ let never : none ≡ some p' = rw t at e in cc
    ]
  where
    still :
        (j : ℕ)
        → (j ≡ pipe) ⊎ (is_set p.aio j ≡ (has (p.callbacks j) && not (rm j)))
        → (j ≡ pipe)
          ⊎ (is_set (watch_fd fd flag p.aio) j
              ≡ (has (set_callback fd (some ch) p.callbacks j) && not (rm j)))
    still j (inl k) = inl k
    still j (inr k) = inr (
        with_bits-true fd j flag p.aio
        ∙ rw (put_callback fd j (some ch) p.callbacks, k)
            (elim (Bool-cases (fd == j)) [
              | inl same ↦
                  let here : rm j ≡ false = subst (λ t. rm t ≡ false) ((==_iff fd j).0 same) free in
                  rw (same, here) refl
              | inr other ↦ rw other refl
            ]))

-- A descriptor and the callbacks after some of its bits were cleared.
cleared :
    (fd j : ℕ) (flag : PollFlag) (s : SelectAio) (rm : ℕ → Bool) (callbacks : ℕ → Option ℕ)
    → is_set s j ≡ (has (callbacks j) && not (rm j))
    → is_set (with_bits false fd flag s) j ≡ (
        has (
          (if not (is_set (with_bits false fd flag s) fd)
              then set_callback fd none callbacks
              else callbacks)
            j)
        && not (rm j))
cleared fd j flag s rm callbacks k = elim (Bool-cases (is_set (with_bits false fd flag s) fd)) [
  | inl kept ↦ rw kept (elim (Bool-cases (fd == j)) [
    | inl same ↦
        let here : is_set (with_bits false fd flag s) j ≡ true =
          subst (λ t. is_set (with_bits false fd flag s) t ≡ true) ((==_iff fd j).0 same) kept in
        here ∙ sym (with_bits-false fd j flag s here) ∙ k
    | inr other ↦ with_bits-other fd j flag s (ground arith) ∙ k
  ])
  | inr gone ↦
      rw (gone, put_callback fd j none callbacks)
        (elim (Bool-cases (fd == j)) [
          | inl same ↦ rw same (
              subst (λ t. is_set (with_bits false fd flag s) t ≡ false) ((==_iff fd j).0 same) gone)
          | inr other ↦ rw other (with_bits-other fd j flag s (ground arith) ∙ k)
        ])
]

del-IsServed :
    (pipe fd : ℕ) (flag : PollFlag) (rm : ℕ → Bool) (p : PollMgr)
    → IsServed pipe rm p
    → IsServed pipe rm (del_callback fd flag p)
unfolding del_callback HasCallbacks unwatch_fd
del-IsServed pipe fd flag rm p h = record {
  covered = unwatch_fd-IsCovered fd flag p.aio h.covered;
  called = λ j. still j (h.called j);
}
  where
    still :
        (j : ℕ)
        → (j ≡ pipe) ⊎ (is_set p.aio j ≡ (has (p.callbacks j) && not (rm j)))
        → (j ≡ pipe)
          ⊎ (is_set (del_callback fd flag p).aio j
              ≡ (has ((del_callback fd flag p).callbacks j) && not (rm j)))
    still j (inl k) = inl k
    still j (inr k) = inr (cleared fd j flag p.aio rm p.callbacks k)

nothing_left : (fd : ℕ) (s : SelectAio) → is_set (with_bits false fd rdwr s) fd ≡ false
nothing_left fd s = ground arith

and_false : (b : Bool) → (b && false) ≡ false
and_false false = refl
and_false true = refl

-- From its first half on, a descriptor that is being removed is not watched.
start_remove-IsServed :
    (pipe fd : ℕ) (rm : ℕ → Bool) (p : PollMgr)
    → IsServed pipe rm p
    → IsServed pipe (fd_put true fd rm) (start_remove fd p)
unfolding start_remove HasCallbacks unwatch_fd
start_remove-IsServed pipe fd rm p h = record {
  covered = unwatch_fd-IsCovered fd rdwr p.aio h.covered;
  called = λ j. still j (h.called j);
}
  where
    still :
        (j : ℕ)
        → (j ≡ pipe) ⊎ (is_set p.aio j ≡ (has (p.callbacks j) && not (rm j)))
        → (j ≡ pipe)
          ⊎ (is_set (start_remove fd p).aio j ≡ (has (p.callbacks j) && not (fd_put true fd rm j)))
    still j (inl k) = inl k
    still j (inr k) = inr (elim (Bool-cases (fd == j)) [
      | inl same ↦
          let gone : is_set (with_bits false fd rdwr p.aio) j ≡ false =
            subst (λ t. is_set (with_bits false fd rdwr p.aio) t ≡ false) ((==_iff fd j).0 same)
              (nothing_left fd p.aio) in
          gone ∙ rw same (sym (and_false (has (p.callbacks j))))
      | inr other ↦ with_bits-other fd j rdwr p.aio (ground arith) ∙ rw other k
    ])

end_remove-IsServed :
    (pipe fd : ℕ) (rm : ℕ → Bool) (p : PollMgr)
    → rm fd ≡ true
    → IsServed pipe rm p
    → IsServed pipe (fd_put false fd rm) (end_remove fd p)
unfolding end_remove HasCallbacks
end_remove-IsServed pipe fd rm p waits h = record {
  covered = h.covered;
  called = λ j. still j (h.called j);
}
  where
    still :
        (j : ℕ)
        → (j ≡ pipe) ⊎ (is_set p.aio j ≡ (has (p.callbacks j) && not (rm j)))
        → (j ≡ pipe)
          ⊎ (is_set p.aio j
              ≡ (has (set_callback fd none p.callbacks j) && not (fd_put false fd rm j)))
    still j (inl k) = inl k
    still j (inr k) = inr (
        k
        ∙ rw (put_callback fd j none p.callbacks) (elim (Bool-cases (fd == j)) [
          | inl same ↦
              let here : rm j ≡ true = subst (λ t. rm t ≡ true) ((==_iff fd j).0 same) waits in
              ground arith
          | inr other ↦ rw other refl
        ]))

-- A PollMgr after some requests, none of which failed a VERIFY.
unfoldable pub perform_all : List Request → Option PollMgr → Option PollMgr
perform_all [] o = o
perform_all (r ∷ rs) none = none
perform_all (r ∷ rs) (some p) = perform_all rs (perform r p)

perform-IsServed :
    (pipe : ℕ) (rm : ℕ → Bool) (r : Request) (p p' : PollMgr)
    → MayCome r rm
    → IsServed pipe rm p
    → perform r p ≡ some p'
    → IsServed pipe (removing_after r rm) p'
unfolding perform
perform-IsServed pipe rm (add fd flag ch) p p' m h e = add-IsServed pipe fd ch flag rm p p' m h e
perform-IsServed pipe rm (del fd flag) p p' m h e =
    let is_p' : p' ≡ del_callback fd flag p = cc in rw is_p' (del-IsServed pipe fd flag rm p h)
perform-IsServed pipe rm (removes fd) p p' m h e =
    let is_p' : p' ≡ start_remove fd p = cc in rw is_p' (start_remove-IsServed pipe fd rm p h)
perform-IsServed pipe rm (removed fd) p p' m h e =
    let is_p' : p' ≡ end_remove fd p = cc in rw is_p' (end_remove-IsServed pipe fd rm p m h)

ServedIn : ℕ → (ℕ → Bool) → Option PollMgr → Type 0
ServedIn pipe rm none = Unit
ServedIn pipe rm (some p) = IsServed pipe rm p

perform-ServedIn :
    (pipe : ℕ) (rm : ℕ → Bool) (r : Request) (p : PollMgr)
    → MayCome r rm
    → IsServed pipe rm p
    → ServedIn pipe (removing_after r rm) (perform r p)
unfolding ServedIn
perform-ServedIn pipe rm r p m h = elim (Option-cases (perform r p)) [
  | inl e ↦ rw (e, ServedIn) tt
  | inr (p', e) ↦ rw (e, ServedIn) (perform-IsServed pipe rm r p p' m h e)
]

perform_all-IsServed :
    (pipe : ℕ) (rm : ℕ → Bool) (rs : List Request) (o : Option PollMgr) (p : PollMgr)
    → InTurn rs rm
    → ServedIn pipe rm o
    → perform_all rs o ≡ some p
    → IsServed pipe (removing rs rm) p
unfolding perform_all ServedIn
perform_all-IsServed pipe rm [] o p t h e = rw (e, ServedIn) at h
perform_all-IsServed pipe rm (r ∷ rs) none p t h e = cc
perform_all-IsServed pipe rm (r ∷ rs) (some q) p (m, t) h e =
    perform_all-IsServed pipe (removing_after r rm) rs (perform r q) p t
      (perform-ServedIn pipe rm r q m h) e

start-IsServed : (pipe : ℕ) → IsServed pipe no_removal (poll_start pipe)
unfolding IsCovered HasCallbacks
start-IsServed pipe = record { covered = λ j e. ground arith; called = λ j. start_called j }
  where
    start_called :
        (j : ℕ)
        → (j ≡ pipe)
          ⊎ (is_set (select_start pipe) j ≡ (has ((poll_start pipe).callbacks j) && not false))
    start_called j = elim (Bool-cases (pipe == j)) [
      | inl e ↦ inl (ground arith)
      | inr e ↦ inr (ground arith)
    ]

-- Whatever callbacks are added, deleted and removed, as long as no VERIFY fails, and nobody adds or
-- again removes a descriptor at whose block_remove_fd a thread waits, though others may come in
-- between: a descriptor other than the pipe is watched, for reading or writing, exactly if it has a
-- callback and is not being removed, so no event is dropped for want of one; and every descriptor
-- that is watched is among those that select looks at.
pub perform_all_lem :
    (pipe : ℕ) (rs : List Request) (p : PollMgr) (fd : ℕ)
    → InTurn rs no_removal
    → perform_all rs (some (poll_start pipe)) ≡ some p
    → ((fd ≡ pipe) ⊎ (is_set p.aio fd ≡ (has (p.callbacks fd) && not (removing rs no_removal fd))))
      × ((is_set p.aio fd ≡ false) ⊎ (fd ≤ p.aio.highfds))
unfolding ServedIn HasCallbacks IsCovered
perform_all_lem pipe rs p fd t e =
    let h =
      perform_all-IsServed pipe no_removal rs (some (poll_start pipe)) p t (start-IsServed pipe)
        e in
    (
      h.called fd,
      elim (Bool-cases (is_set p.aio fd)) [ inl t ↦ inr (h.covered fd t) | inr t ↦ inl t ],
    )
