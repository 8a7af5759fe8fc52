-- ===== src/Rpc/Poll.antt =====
-- PollMgr and SelectAIO (rpc/pollmgr.cc): which descriptors are watched, and whose callbacks they
-- have. Round is a round of the loop, and Epoll EPollAIO, the other way to watch them.
pub mod Watched
pub mod Epoll
pub mod Round
use cse_yet_another_file_sys.Base.{
  ℕ, zero, suc, ◌+◌, Bool, true, false, not, ◌&&◌, ◌||◌, Option, none, some, List, [], ◌∷◌, ltb,
  leb, ◌==◌, if◌then◌else◌,
}

-- The values of poll_flag that are passed in.
pub data PollFlag : Type 0 where
  rdonly wronly rdwr : PollFlag

-- An fd_set.
abbrev pub FdSet : Type 0
FdSet = ℕ → Bool

abbrev pub fd_put : Bool → ℕ → FdSet → FdSet
fd_put b fd fds j = if fd == j then b else fds j

abbrev pub reads : PollFlag → Bool
reads rdonly = true
reads wronly = false
reads rdwr = true

abbrev pub writes : PollFlag → Bool
writes rdonly = false
writes wronly = true
writes rdwr = true

-- `pipe` is pipefd_[0], on which a change of the sets is announced.
pub record SelectAio : Type 0 where
  pub rfds : FdSet
  pub wfds : FdSet
  pub highfds : ℕ
  pub pipe : ℕ

abbrev none_set : FdSet
none_set fd = false

abbrev pub select_start : ℕ → SelectAio
select_start pipe = record {
  rfds = fd_put true pipe none_set;
  wfds = none_set;
  highfds = pipe;
  pipe = pipe;
}

-- The sets with the bits of the flag put to `b`.
abbrev pub with_bits : Bool → ℕ → PollFlag → SelectAio → SelectAio
with_bits b fd flag s = record s {
  rfds = if reads flag then fd_put b fd s.rfds else s.rfds;
  wfds = if writes flag then fd_put b fd s.wfds else s.wfds;
}

unfoldable pub watch_fd : ℕ → PollFlag → SelectAio → SelectAio
watch_fd fd flag s =
    with_bits true fd flag (record s { highfds = if leb s.highfds fd then fd else s.highfds })

abbrev pub is_set : SelectAio → ℕ → Bool
is_set s fd = s.rfds fd || s.wfds fd

unfoldable pub is_watched : ℕ → PollFlag → SelectAio → Bool
is_watched fd rdonly s = s.rfds fd
is_watched fd wronly s = s.wfds fd
is_watched fd rdwr s = s.rfds fd && s.wfds fd

-- `newh` after the rounds for the descriptors below `n`.
unfoldable pub new_high : SelectAio → ℕ → ℕ
new_high s zero = s.pipe
new_high s (suc n) = let before = new_high s n in if is_set s n then n else before

-- The state, and whether nothing of the descriptor is watched any more.
unfoldable pub unwatch_fd : ℕ → PollFlag → SelectAio → Bool × SelectAio
unfolding new_high
unwatch_fd fd flag s =
    let s1 = with_bits false fd flag s in
    let gone = not (is_set s1 fd) in
    (
      gone,
      record s1 {
        highfds = if gone && fd == s1.highfds then new_high s1 (s1.highfds + 1) else s1.highfds;
      },
    )

-- An aio_callback is a number; callbacks_ has the one of each descriptor, or NULL.
pub record PollMgr : Type 0 where
  pub aio : SelectAio
  pub callbacks : ℕ → Option ℕ

abbrev pub max_poll_fds : ℕ
max_poll_fds = 128

abbrev pub fits : Option ℕ → ℕ → Bool
fits none ch = true
fits (some c) ch = c == ch

abbrev pub set_callback : ℕ → Option ℕ → (ℕ → Option ℕ) → ℕ → Option ℕ
set_callback fd c callbacks j = if fd == j then c else callbacks j

-- `none` is a VERIFY that fails.
unfoldable pub add_callback : ℕ → PollFlag → ℕ → PollMgr → Option PollMgr
unfolding watch_fd
add_callback fd flag ch p =
    if ltb fd max_poll_fds && fits (p.callbacks fd) ch
    then some
        (record { aio = watch_fd fd flag p.aio; callbacks = set_callback fd (some ch) p.callbacks })
    else none

unfoldable pub del_callback : ℕ → PollFlag → PollMgr → PollMgr
unfolding unwatch_fd
del_callback fd flag p =
    let (gone, aio) = unwatch_fd fd flag p.aio in
    record { aio = aio; callbacks = if gone then set_callback fd none p.callbacks else p.callbacks }

-- block_remove_fd up to its pthread_cond_wait, which gives up the mutex until the loop has gone round.
unfoldable pub start_remove : ℕ → PollMgr → PollMgr
unfolding unwatch_fd
start_remove fd p = record p { aio = (unwatch_fd fd rdwr p.aio).1 }

-- What block_remove_fd does after the wait.
unfoldable pub end_remove : ℕ → PollMgr → PollMgr
end_remove fd p = record p { callbacks = set_callback fd none p.callbacks }

abbrev same_callback : Option ℕ → ℕ → Bool
same_callback none c = false
same_callback (some d) c = d == c

unfoldable pub has_callback : ℕ → PollFlag → ℕ → PollMgr → Bool
unfolding is_watched
has_callback fd flag c p = same_callback (p.callbacks fd) c && is_watched fd flag p.aio

-- What is done under the mutex at a time. Between the two halves of a block_remove_fd there may be
-- others.
pub data Request : Type 0 where
  add : ℕ → PollFlag → ℕ → Request
  del : ℕ → PollFlag → Request
  removes removed : ℕ → Request

unfoldable pub perform : Request → PollMgr → Option PollMgr
unfolding add_callback del_callback start_remove end_remove
perform (add fd flag ch) p = add_callback fd flag ch p
perform (del fd flag) p = some (del_callback fd flag p)
perform (removes fd) p = some (start_remove fd p)
perform (removed fd) p = some (end_remove fd p)

abbrev pub poll_start : ℕ → PollMgr
poll_start pipe = record { aio = select_start pipe; callbacks = λ fd. none }
