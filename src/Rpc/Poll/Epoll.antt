-- ===== src/Rpc/Poll/Epoll.antt =====
-- EPollAIO (rpc/pollmgr.cc), which watches as SelectAIO does.
use cse_yet_another_file_sys.Base.{
  ◌<◌, ◌&&◌, Option, some, none, ltb, ℕ, ◌≡◌, ◌≢◌, refl, ap, ◌∙◌, ◌⊎◌, inl, inr, Bool, true, false,
  not, ◌||◌, List, [], ◌∷◌, ◌==◌, if◌then◌else◌, arith, Bool-cases, sym, ==_iff,
}
use cse_yet_another_file_sys.Rpc.Poll.{
  max_poll_fds, PollFlag, rdonly, wronly, rdwr, FdSet, fd_put, reads, writes, SelectAio,
  select_start, with_bits, is_set,
}
use cse_yet_another_file_sys.Rpc.Poll

-- The operation of epoll_ctl and the events it asks for, EPOLLIN and EPOLLOUT.
pub data Ctl : Type 0 where
  ctl_add ctl_mod : Bool → Bool → Ctl
  ctl_del : Ctl

-- fdstatus_, as the bits CB_RDONLY and CB_WRONLY of each descriptor; and `pollfd`, the state of the
-- epoll instance, which is the kernel's.
pub record EpollAio (K : Type 0) : Type 0 where
  pub rd_bit : FdSet
  pub wr_bit : FdSet
  pub pollfd : K

abbrev pub epoll_start : {K : Type 0} → K → EpollAio K
epoll_start created = record { rd_bit = λ fd. false; wr_bit = λ fd. false; pollfd = created }

abbrev pub with_status : {K : Type 0} → Bool → ℕ → PollFlag → EpollAio K → EpollAio K
with_status b fd flag s = record s {
  rd_bit = if reads flag then fd_put b fd s.rd_bit else s.rd_bit;
  wr_bit = if writes flag then fd_put b fd s.wr_bit else s.wr_bit;
}

abbrev pub any_bit : {K : Type 0} → EpollAio K → ℕ → Bool
any_bit s fd = s.rd_bit fd || s.wr_bit fd

-- A call of watch_fd or unwatch_fd.
pub data AioCall : Type 0 where
  watch unwatch : ℕ → PollFlag → AioCall

-- The calls at a SelectAIO, with the answers of unwatch_fd.
unfoldable pub run_select : List AioCall → SelectAio → List Bool × SelectAio
run_select [] s = ([], s)
run_select (watch fd flag ∷ cs) s = run_select cs (Poll.watch_fd fd flag s)
run_select (unwatch fd flag ∷ cs) s =
    let (gone, s1) = Poll.unwatch_fd fd flag s in
    let (answers, s2) = run_select cs s1 in (gone ∷ answers, s2)

-- `ctl` is epoll_ctl: whether it returns 0, and the instance after it.
module _ {K : Type 0} (ctl : ℕ → Ctl → K → Bool × K) where
  -- `none` is a VERIFY that fails. The one on the events of CB_RDWR always holds, with both bits put
  -- before it.
  abbrev controlled : ℕ → Ctl → EpollAio K → Option (EpollAio K)
  controlled fd op s =
      let (ok, k) = ctl fd op s.pollfd in
      if ltb fd max_poll_fds && ok then some (record s { pollfd = k }) else none

  unfoldable pub watch_fd : ℕ → PollFlag → EpollAio K → Option (EpollAio K)
  watch_fd fd flag s =
      let s1 = with_status true fd flag s in
      controlled fd
        (if any_bit s fd
          then ctl_mod (s1.rd_bit fd) (s1.wr_bit fd)
          else ctl_add (s1.rd_bit fd) (s1.wr_bit fd))
        s1

  abbrev returning : Bool → Option (EpollAio K) → Option (Bool × EpollAio K)
  returning gone none = none
  returning gone (some s) = some (gone, s)

  -- The state after unwatch_fd, which returns whether the operation was EPOLL_CTL_DEL.
  unfoldable pub unwatch_fd : ℕ → PollFlag → EpollAio K → Option (Bool × EpollAio K)
  unwatch_fd fd flag s =
      let s1 = with_status false fd flag s in
      let op = if any_bit s1 fd then ctl_mod (s1.rd_bit fd) (s1.wr_bit fd) else ctl_del in
      returning (not (any_bit s1 fd)) (controlled fd op s1)

  abbrev pub answered : Bool → Option (List Bool × EpollAio K) → Option (List Bool × EpollAio K)
  answered gone none = none
  answered gone (some (answers, s)) = some (gone ∷ answers, s)

  unfoldable pub run_epoll : List AioCall → EpollAio K → Option (List Bool × EpollAio K)
  run_epoll [] s = some ([], s)
  run_epoll (watch fd flag ∷ cs) s = elim (watch_fd fd flag s) [
    | none ↦ none
    | some s1 ↦ run_epoll cs s1
  ]
  run_epoll (unwatch fd flag ∷ cs) s = elim (unwatch_fd fd flag s) [
    | none ↦ none
    | some (gone, s1) ↦ answered gone (run_epoll cs s1)
  ]

-- Calls on descriptors in range and other than the pipe, in which unwatch_fd gets a descriptor that
-- is watched.
abbrev pub Allowed : ℕ → List AioCall → SelectAio → Type 0
Allowed pipe [] s = Unit
Allowed pipe (watch fd flag ∷ cs) s =
    (fd ≢ pipe) × (fd < max_poll_fds) × Allowed pipe cs (Poll.watch_fd fd flag s)
Allowed pipe (unwatch fd flag ∷ cs) s =
    (fd ≢ pipe)
    × (fd < max_poll_fds)
    × (is_set s fd ≡ true)
    × Allowed pipe cs (Poll.unwatch_fd fd flag s).1

abbrev pub Registered : Type 0
Registered = Option (Bool × Bool)

abbrev pub is_registered : Registered → Bool
is_registered none = false
is_registered (some events) = true

abbrev pub events_of : Bool → Bool → Registered
events_of false false = none
events_of rd wr = some (rd, wr)

-- What epoll_ctl(2) says, where `interest` has the descriptors that are registered and for which
-- events: a new instance has none; EPOLL_CTL_ADD registers one that is not registered, EPOLL_CTL_MOD
-- changes the events of one that is, and EPOLL_CTL_DEL removes one that is; and each returns 0 then
-- (the descriptors are open, and there is memory).
pub record IsEpoll {K : Type 0} (ctl : ℕ → Ctl → K → Bool × K) (created : K)
    (interest : K → ℕ → Registered) : Type 0 where
  pub empty : (j : ℕ) → interest created j ≡ none
  pub adds :
      (fd : ℕ) (rd wr : Bool) (k : K)
      → is_registered (interest k fd) ≡ false
      → ((ctl fd (ctl_add rd wr) k).0 ≡ true)
        × ((j : ℕ)
            → interest (ctl fd (ctl_add rd wr) k).1 j
              ≡ (if fd == j then some (rd, wr) else interest k j))
  pub mods :
      (fd : ℕ) (rd wr : Bool) (k : K)
      → is_registered (interest k fd) ≡ true
      → ((ctl fd (ctl_mod rd wr) k).0 ≡ true)
        × ((j : ℕ)
            → interest (ctl fd (ctl_mod rd wr) k).1 j
              ≡ (if fd == j then some (rd, wr) else interest k j))
  pub dels :
      (fd : ℕ) (k : K)
      → is_registered (interest k fd) ≡ true
      → ((ctl fd ctl_del k).0 ≡ true)
        × ((j : ℕ) → interest (ctl fd ctl_del k).1 j ≡ (if fd == j then none else interest k j))

-- The same descriptors are watched for the same, besides the pipe.
record Agrees {K : Type 0} (pipe : ℕ) (s : SelectAio) (e : EpollAio K) : Type 0 where
  reading : (j : ℕ) → (j ≡ pipe) ⊎ (s.rfds j ≡ e.rd_bit j)
  writing : (j : ℕ) → (j ≡ pipe) ⊎ (s.wfds j ≡ e.wr_bit j)

put-same :
    (pipe fd j : ℕ) (b : Bool) (f g : FdSet)
    → (j ≡ pipe) ⊎ (f j ≡ g j)
    → (j ≡ pipe) ⊎ (fd_put b fd f j ≡ fd_put b fd g j)
put-same pipe fd j b f g (inl e) = inl e
put-same pipe fd j b f g (inr e) = inr (ground (arith, e))

bits-Agrees :
    (pipe fd : ℕ) (flag : PollFlag) (b : Bool) {K : Type 0} (s : SelectAio) (e : EpollAio K)
    → Agrees pipe s e
    → Agrees pipe (with_bits b fd flag s) (with_status b fd flag e)
bits-Agrees pipe fd rdonly b s e a = record {
  reading = λ j. put-same pipe fd j b s.rfds e.rd_bit (a.reading j);
  writing = a.writing;
}
bits-Agrees pipe fd wronly b s e a = record {
  reading = a.reading;
  writing = λ j. put-same pipe fd j b s.wfds e.wr_bit (a.writing j);
}
bits-Agrees pipe fd rdwr b s e a = record {
  reading = λ j. put-same pipe fd j b s.rfds e.rd_bit (a.reading j);
  writing = λ j. put-same pipe fd j b s.wfds e.wr_bit (a.writing j);
}

same_at :
    (pipe j : ℕ) {K : Type 0} (s : SelectAio) (e : EpollAio K)
    → j ≢ pipe
    → Agrees pipe s e
    → (s.rfds j ≡ e.rd_bit j) × (s.wfds j ≡ e.wr_bit j)
same_at pipe j s e n a = (other (a.reading j), other (a.writing j))
  where
    other : {P : Type 0} → (j ≡ pipe) ⊎ P → P
    other (inl z) = absurd (n z)
    other (inr p) = p

-- What fdstatus_ says of a descriptor.
abbrev asked : {K : Type 0} → EpollAio K → ℕ → Registered
asked e j = events_of (e.rd_bit j) (e.wr_bit j)

is_registered-events_of : (rd wr : Bool) → is_registered (events_of rd wr) ≡ (rd || wr)
is_registered-events_of false false = refl
is_registered-events_of false true = refl
is_registered-events_of true wr = refl

events_of-some : (rd wr : Bool) → (rd || wr) ≡ true → events_of rd wr ≡ some (rd, wr)
events_of-some false false e = cc
events_of-some false true e = refl
events_of-some true wr e = refl

events_of-none : (rd wr : Bool) → (rd || wr) ≡ false → events_of rd wr ≡ none
events_of-none false false e = refl
events_of-none false true e = cc
events_of-none true wr e = cc

asked-other :
    {K : Type 0} (b : Bool) (fd j : ℕ) (flag : PollFlag) (e : EpollAio K)
    → (fd == j) ≡ false
    → asked (with_status b fd flag e) j ≡ asked e j
asked-other b fd j rdonly e n = rw n refl
asked-other b fd j wronly e n = rw n refl
asked-other b fd j rdwr e n = rw n refl

any_bit-true :
    {K : Type 0} (fd : ℕ) (flag : PollFlag) (e : EpollAio K)
    → any_bit (with_status true fd flag e) fd ≡ true
any_bit-true fd rdonly e = ground arith
any_bit-true fd wronly e = ground arith
any_bit-true fd rdwr e = ground arith

module _ {K : Type 0} (ctl : ℕ → Ctl → K → Bool × K) (created : K) (interest : K → ℕ → Registered)
    (kernel : IsEpoll ctl created interest) where
  -- The kernel has the descriptors and events of fdstatus_.
  IsListed : EpollAio K → Type 0
  IsListed e = (j : ℕ) → interest e.pollfd j ≡ asked e j

  IsListed-after :
      (b : Bool) (fd : ℕ) (flag : PollFlag) (e : EpollAio K) (op : Ctl)
      → IsListed e
      → ((j : ℕ)
          → interest (ctl fd op e.pollfd).1 j
            ≡ (if fd == j then asked (with_status b fd flag e) fd else interest e.pollfd j))
      → IsListed (record (with_status b fd flag e) { pollfd = (ctl fd op e.pollfd).1 })
  unfolding IsListed
  IsListed-after b fd flag e op l changed j = elim (Bool-cases (fd == j)) [
    | inl same ↦
        rw same at (changed j) ∙ ap (asked (with_status b fd flag e)) ((==_iff fd j).0 same)
    | inr other ↦ rw other at (changed j) ∙ l j ∙ sym (asked-other b fd j flag e other)
  ]

  -- watch_fd and unwatch_fd fail no VERIFY, and the kernel follows.
  watch_fd-IsListed :
      (fd : ℕ) (flag : PollFlag) (e : EpollAio K)
      → fd < max_poll_fds
      → IsListed e
      → (k : K) × (watch_fd ctl fd flag e
          ≡ some (record (with_status true fd flag e) { pollfd = k }))
        × IsListed (record (with_status true fd flag e) { pollfd = k })
  unfolding watch_fd IsListed
  watch_fd-IsListed fd flag e small l =
      let e1 = with_status true fd flag e in
      let there : any_bit e1 fd ≡ true = any_bit-true fd flag e in
      let events = events_of-some (e1.rd_bit fd) (e1.wr_bit fd) there in
      let low : ltb fd max_poll_fds ≡ true = ground arith in
      let known : is_registered (interest e.pollfd fd) ≡ any_bit e fd =
        ap is_registered (l fd) ∙ is_registered-events_of (e.rd_bit fd) (e.wr_bit fd) in
      elim (Bool-cases (any_bit e fd)) [
        | inl old ↦
            let op = ctl_mod (e1.rd_bit fd) (e1.wr_bit fd) in
            let (passed, changed) =
              kernel.mods fd (e1.rd_bit fd) (e1.wr_bit fd) e.pollfd (known ∙ old) in
            (
              (ctl fd op e.pollfd).1,
              rw (old, low, passed) refl,
              IsListed-after true fd flag e op l (rw events changed),
            )
        | inr new ↦
            let op = ctl_add (e1.rd_bit fd) (e1.wr_bit fd) in
            let (passed, changed) =
              kernel.adds fd (e1.rd_bit fd) (e1.wr_bit fd) e.pollfd (known ∙ new) in
            (
              (ctl fd op e.pollfd).1,
              rw (new, low, passed) refl,
              IsListed-after true fd flag e op l (rw events changed),
            )
      ]

  unwatch_fd-IsListed :
      (fd : ℕ) (flag : PollFlag) (e : EpollAio K)
      → fd < max_poll_fds
      → any_bit e fd ≡ true
      → IsListed e
      → (k : K) × (unwatch_fd ctl fd flag e
          ≡ some (
            not (any_bit (with_status false fd flag e) fd),
            record (with_status false fd flag e) { pollfd = k },
          ))
        × IsListed (record (with_status false fd flag e) { pollfd = k })
  unfolding unwatch_fd IsListed
  unwatch_fd-IsListed fd flag e small old l =
      let e1 = with_status false fd flag e in
      let low : ltb fd max_poll_fds ≡ true = ground arith in
      let known : is_registered (interest e.pollfd fd) ≡ true =
        ap is_registered (l fd) ∙ is_registered-events_of (e.rd_bit fd) (e.wr_bit fd) ∙ old in
      elim (Bool-cases (any_bit e1 fd)) [
        | inl left ↦
            let op = ctl_mod (e1.rd_bit fd) (e1.wr_bit fd) in
            let (passed, changed) = kernel.mods fd (e1.rd_bit fd) (e1.wr_bit fd) e.pollfd known in
            let events = events_of-some (e1.rd_bit fd) (e1.wr_bit fd) left in
            (
              (ctl fd op e.pollfd).1,
              rw (left, low, passed) refl,
              IsListed-after false fd flag e op l (rw events changed),
            )
        | inr gone ↦
            let (passed, changed) = kernel.dels fd e.pollfd known in
            let events = events_of-none (e1.rd_bit fd) (e1.wr_bit fd) gone in
            (
              (ctl fd ctl_del e.pollfd).1,
              rw (gone, low, passed) refl,
              IsListed-after false fd flag e ctl_del l (rw events changed),
            )
      ]

  -- A run of EPollAIO has come through, with the answers and the watched descriptors of SelectAIO.
  Matches : ℕ → List Bool × SelectAio → Option (List Bool × EpollAio K) → Type 0
  Matches pipe (answers, s) o =
      (e : EpollAio K) × (o ≡ some (answers, e)) × Agrees pipe s e × IsListed e

  run-Matches :
      (pipe : ℕ) (cs : List AioCall) (s : SelectAio) (e : EpollAio K)
      → Allowed pipe cs s
      → Agrees pipe s e
      → IsListed e
      → Matches pipe (run_select cs s) (run_epoll ctl cs e)
  unfolding Matches run_select run_epoll Poll.watch_fd Poll.unwatch_fd
  run-Matches pipe [] s e n a l = (e, refl, a, l)
  run-Matches pipe (watch fd flag ∷ cs) s e (other, small, ns) a l =
      let (k, passed, l1) = watch_fd-IsListed fd flag e small l in
      let b = bits-Agrees pipe fd flag true s e a in
      let (e2, ran, a2, l2) =
        run-Matches pipe cs (Poll.watch_fd fd flag s)
          (record (with_status true fd flag e) { pollfd = k }) ns
          (record { reading = b.reading; writing = b.writing }) l1 in
      (e2, rw (run_epoll, passed) ran, a2, l2)
  run-Matches pipe (unwatch fd flag ∷ cs) s e (other, small, set, ns) a l =
      let (rd0, wr0) = same_at pipe fd s e other a in
      let (k, passed, l1) = unwatch_fd-IsListed fd flag e small (rw (sym rd0, sym wr0) set) l in
      let b = bits-Agrees pipe fd flag false s e a in
      let (rd, wr) =
        same_at pipe fd (with_bits false fd flag s) (with_status false fd flag e) other b in
      let (e2, ran, a2, l2) =
        run-Matches pipe cs (Poll.unwatch_fd fd flag s).1
          (record (with_status false fd flag e) { pollfd = k }) ns
          (record { reading = b.reading; writing = b.writing }) l1 in
      let gone : not (any_bit (with_status false fd flag e) fd)
          ≡ not (is_set (with_bits false fd flag s) fd) =
        rw (rd, wr) refl in
      (
        e2,
        rw (run_epoll, passed, ran)
            (ap (λ t. some (t ∷ (run_select cs (Poll.unwatch_fd fd flag s).1).0, e2)) gone),
        a2,
        l2,
      )

  start-Agrees : (pipe : ℕ) → Agrees pipe (select_start pipe) (epoll_start created)
  start-Agrees pipe = record { reading = λ j. at_start j; writing = λ j. inr refl }
    where
      at_start :
          (j : ℕ) → (j ≡ pipe) ⊎ ((select_start pipe).rfds j ≡ (epoll_start created).rd_bit j)
      at_start j = elim (Bool-cases (pipe == j)) [
        | inl e ↦ inl (ground arith)
        | inr e ↦ inr (ground arith)
      ]

  -- The two ways to watch agree, where epoll_ctl does what its manual says: after the same calls of
  -- watch_fd and unwatch_fd, on descriptors below MAX_POLL_FDS and other than the pipe, with
  -- unwatch_fd only of a descriptor that is watched, no VERIFY of EPollAIO has failed, so every
  -- epoll_ctl has returned 0; SelectAIO and EPollAIO have answered the same to each unwatch_fd; and a
  -- descriptor `fd` other than the pipe is registered at the kernel exactly for what SelectAIO selects
  -- it for, reading and writing, and not registered if that is nothing.
  pub run_select-run_epoll :
      (pipe fd : ℕ) (cs : List AioCall)
      → Allowed pipe cs (select_start pipe)
      → fd ≢ pipe
      → (e : EpollAio K) × (run_epoll ctl cs (epoll_start created)
          ≡ some ((run_select cs (select_start pipe)).0, e))
        × (interest e.pollfd fd
            ≡ events_of
                ((run_select cs (select_start pipe)).1.rfds fd)
                ((run_select cs (select_start pipe)).1.wfds fd))
  unfolding Matches IsListed
  run_select-run_epoll pipe fd cs n other =
      let (e, ran, a, l) =
        run-Matches pipe cs (select_start pipe) (epoll_start created) n (start-Agrees pipe)
          kernel.empty in
      let (rd, wr) = same_at pipe fd (run_select cs (select_start pipe)).1 e other a in
      (e, ran, rw (rd, wr) (l fd))
