-- ===== src/Rpc/Tests/Poll.antt =====
-- Runs of the poll manager, with descriptor 3 as the pipe.
use cse_yet_another_file_sys.Base.{
  ◌==◌, ◌&&◌, not, Bool, true, if◌then◌else◌, ℕ, ◌≤◌, ◌≡◌, refl, ◌⊎◌, false, Option, some, none,
  List, [], ◌∷◌, arith,
}
use cse_yet_another_file_sys.Rpc.Poll
use cse_yet_another_file_sys.Rpc.Poll.{
  FdSet, rdonly, wronly, rdwr, is_set, SelectAio, select_start, PollMgr, Request, add, del, removes,
  removed, perform, poll_start, add_callback, start_remove, end_remove,
}
use cse_yet_another_file_sys.Rpc.Poll.Watched.{
  has, InTurn, removing, no_removal, perform_all, perform_all_lem,
}
use cse_yet_another_file_sys.Rpc.Poll.Round.{Among, read_cb, write_cb, round, round_lem}
use cse_yet_another_file_sys.Rpc.Poll.Epoll.{
  AioCall, EpollAio, Ctl, ctl_add, ctl_mod, ctl_del, Allowed, Registered, is_registered, events_of,
  IsEpoll, watch, unwatch, run_select, run_epoll, epoll_start, run_select-run_epoll,
}

-- Connection 50 reads on 5 and has something to write for a while; connection 60 goes away.
abbrev requests : List Request
requests =
    add 5 rdonly 50 ∷ add 6 rdonly 60 ∷ add 5 wronly 50 ∷ removes 6 ∷ del 5 wronly ∷ removed 6 ∷ []

abbrev pipe : ℕ
pipe = 3

abbrev socket : ℕ
socket = 5

abbrev or_start : Option PollMgr → PollMgr
or_start none = poll_start pipe
or_start (some p) = p

abbrev end : PollMgr
end = or_start (perform_all requests (some (poll_start pipe)))

requests-InTurn : InTurn requests no_removal
requests-InTurn = (refl, (refl, (refl, (refl, (tt, (refl, tt))))))

-- A callback that is added to a descriptor while a thread waits at its block_remove_fd is lost, and
-- the descriptor is watched without one.
abbrev added_while_removed : List Request
added_while_removed = add 5 rdonly 50 ∷ removes 5 ∷ add 5 rdonly 50 ∷ removed 5 ∷ []

abbrev lost : PollMgr
lost = or_start (perform_all added_while_removed (some (poll_start pipe)))

lost_callback : (is_set lost.aio socket ≡ true) × (lost.callbacks socket ≡ none)
unfolding perform_all perform add_callback start_remove end_remove
lost_callback = (refl, refl)

perform_all_lem_example :
    ((socket ≡ pipe)
      ⊎ (is_set end.aio socket
          ≡ (has (end.callbacks socket) && not (removing requests no_removal socket))))
    × ((is_set end.aio socket ≡ false) ⊎ (socket ≤ end.aio.highfds))
unfolding perform_all perform add_callback
perform_all_lem_example = perform_all_lem pipe requests end socket requests-InTurn refl

-- select has found 5 readable.
abbrev readable : FdSet
readable fd = fd == 5

abbrev nothing : FdSet
nothing fd = false

round_lem_example :
    (readable socket ≡ true
      → (c : ℕ) × (end.callbacks socket ≡ some c)
        × Among (read_cb c socket) (round readable nothing end))
    × (nothing socket ≡ true
        → (c : ℕ) × (end.callbacks socket ≡ some c)
          × Among (write_cb c socket) (round readable nothing end))
unfolding perform_all perform add_callback
round_lem_example =
    round_lem pipe requests end readable nothing socket requests-InTurn refl (λ e. omega arith)
      (λ j t. ground arith) (λ j t. cc)

abbrev calls : List AioCall
calls = watch 5 rdonly ∷ watch 6 rdwr ∷ watch 5 wronly ∷ unwatch 6 rdwr ∷ unwatch 5 wronly ∷ []

abbrev select_calls : List Bool × SelectAio
select_calls = run_select calls (select_start pipe)

-- An epoll instance: the descriptors that are registered, with their events.
abbrev Instance : Type 0
Instance = ℕ → Registered

abbrev registering : ℕ → Registered → Instance → Instance
registering fd r k j = if fd == j then r else k j

abbrev ctl : ℕ → Ctl → Instance → Bool × Instance
ctl fd (ctl_add rd wr) k =
    if is_registered (k fd) then (false, k) else (true, registering fd (some (rd, wr)) k)
ctl fd (ctl_mod rd wr) k =
    if is_registered (k fd) then (true, registering fd (some (rd, wr)) k) else (false, k)
ctl fd ctl_del k = if is_registered (k fd) then (true, registering fd none k) else (false, k)

abbrev created : Instance
created fd = none

ctl-IsEpoll : IsEpoll ctl created (λ k. k)
ctl-IsEpoll = record {
  empty = λ j. refl;
  adds = λ fd rd wr k e. rw e (refl, λ j. refl);
  mods = λ fd rd wr k e. rw e (refl, λ j. refl);
  dels = λ fd k e. rw e (refl, λ j. refl);
}

calls-Allowed : Allowed pipe calls (select_start pipe)
unfolding Poll.watch_fd Poll.unwatch_fd
calls-Allowed = (
  (λ e. omega arith),
  omega arith,
  (
    (λ e. omega arith),
    omega arith,
    (
      (λ e. omega arith),
      omega arith,
      ((λ e. omega arith), omega arith, refl, ((λ e. omega arith), omega arith, refl, tt)),
    ),
  ),
)

run_select-run_epoll_example :
    (e : EpollAio Instance) × (run_epoll ctl calls (epoll_start created) ≡ some (select_calls.0, e))
    × (e.pollfd socket ≡ events_of (select_calls.1.rfds socket) (select_calls.1.wfds socket))
run_select-run_epoll_example =
    run_select-run_epoll ctl created (λ k. k) ctl-IsEpoll pipe socket calls calls-Allowed
      (λ e. omega arith)
