-- ===== src/Rpc/Caller.antt =====
-- rpcc::call1 (rpc/rpc.cc): a call waits in rounds for its reply, and gives up at a deadline. What
-- other threads do to the client meanwhile is left out, but for the reply that comes.
pub mod Deadline
pub mod Upcall
use cse_yet_another_file_sys.Base.{
  ℕ, zero, suc, ◌+◌, ◌-◌, ◌*◌, ◌%◌, ◌^◌, Bool, true, false, not, ◌&&◌, ◌||◌, Option, none, some,
  List, [], ◌∷◌, ◌++◌, ltb, leb, ◌==◌, if◌then◌else◌, Bytes, Map, lookup, insert, erase,
}
use cse_yet_another_file_sys.Rpc.Status.{u32}
use cse_yet_another_file_sys.Rpc.Connection.{Connection}
use cse_yet_another_file_sys.Rpc.Marshall.Header.{ReqHeader}
use cse_yet_another_file_sys.Rpc.XidWindow.{init, update_xid_rep}
use cse_yet_another_file_sys.Rpc.Timespec.{
  Timespec, cmp_timespec, Order, greater, less, equal, add_timespec, second,
}

-- rpc_const::bind, and failures as the bits of an int of 32 bits.
abbrev pub bind : ℕ
bind = 1

abbrev pub timeout_failure : ℕ
timeout_failure = 2 ^ 32 - 1

abbrev pub bind_failure : ℕ
bind_failure = 2 ^ 32 - 6

abbrev pub cancel_failure : ℕ
cancel_failure = 2 ^ 32 - 7

-- rpcc::to_min
abbrev pub to_min : ℕ
to_min = 1000

-- caller: what is known of a call's reply. `un` is the content that take_in moved into it.
pub record Pending : Type 0 where
  pub done : Bool
  pub intret : ℕ
  pub un : Bytes

abbrev pub waiting : Pending
waiting = record { done = false; intret = 0; un = [] }

-- The members of rpcc that a call uses; `calls` has the callers by their xids.
pub record Rpcc : Type 0 where
  pub clt_nonce : ℕ
  pub srv_nonce : ℕ
  pub bind_done : Bool
  pub destroy_wait : Bool
  pub retrans : Bool
  pub reachable : Bool
  pub xid : ℕ
  pub calls : Map Pending
  pub xid_rep_window : List ℕ

-- rpcc::rpcc, where `random` is what random() returns.
unfoldable pub new_client : Bool → ℕ → Rpcc
new_client retrans random = record {
  clt_nonce = if retrans then u32 random else 0;
  srv_nonce = 0;
  bind_done = false;
  destroy_wait = false;
  retrans = retrans;
  reachable = true;
  xid = 1;
  calls = [];
  xid_rep_window = init;
}

-- A wait for the reply until a time: the reply, or that the time is over. A time of which the
-- nanoseconds are not less than a second is an error for pthread_cond_timedwait, which is not
-- ETIMEDOUT: the loop goes round until the reply comes.
pub data Waited : Type 0 where
  replied : ℕ → Waited
  timed_out spins : Waited

abbrev pub waited : Option ℕ → Timespec → Waited
waited (some ret) deadline = replied ret
waited none deadline = if leb second deadline.tv_nsec then spins else timed_out

-- The variables of the loop, and the connections on which the request was sent.
pub record Round : Type 0 where
  pub curr_to : ℕ
  pub finaldeadline : Timespec
  pub transmit : Bool
  pub ch : Option Connection
  pub sent : List Connection

-- `clock` gives what clock_gettime reads, first before the loop and then in each round; `connect`
-- the connection that get_refconn finds in a round; `dead` whether a connection is dead at the end
-- of a round; `reply` the ret of the reply, if it comes in that round before that time.
module _ (clock : ℕ → Timespec) (connect : ℕ → Option Connection) (dead : ℕ → Connection → Bool)
    (reply : ℕ → Timespec → Option ℕ) where
  abbrev found_conn : Option Connection → Option Connection → Option Connection
  found_conn none ch = ch
  found_conn (some c) ch = some c

  abbrev sent_on : Bool → Option Connection → List Connection → List Connection
  sent_on reachable none sent = sent
  sent_on reachable (some c) sent = if reachable then sent ++ c ∷ [] else sent

  -- `if(transmit) { … transmit = false; }`
  unfoldable pub transmitted : Bool → ℕ → Round → Round
  transmitted reachable k r =
      let ch = found_conn (connect k) r.ch in
      if r.transmit
      then record r { transmit = false; ch = ch; sent = sent_on reachable ch r.sent }
      else r

  abbrev no_conn : ℕ → Option Connection → Bool
  no_conn k none = true
  no_conn k (some c) = dead k c

  -- The end of a round without a reply, with the final deadline as it is then.
  unfoldable pub next_round : Bool → ℕ → Round → Timespec → Round
  next_round retrans k r finaldeadline = record r {
    curr_to = u32 (r.curr_to * 2);
    finaldeadline = finaldeadline;
    transmit = if retrans && no_conn k r.ch then true else r.transmit;
  }

  -- `nextdeadline` and `finaldeadline` after they were compared.
  abbrev pub limited : Order → Timespec → Timespec → Timespec × Timespec
  limited greater next final = (final, record final { tv_sec = 0 })
  limited less next final = (next, final)
  limited equal next final = (next, final)

  -- `later` is what the next rounds give.
  abbrev pub after_wait : Waited → Round → Option (Option ℕ × Round) → Option (Option ℕ × Round)
  after_wait (replied ret) r later = some (some ret, r)
  after_wait timed_out r later = later
  after_wait spins r later = none

  -- `none` if the call does not return, or not in the rounds of the fuel.
  unfoldable pub rounds : Bool → Bool → ℕ → ℕ → Round → Option (Option ℕ × Round)
  rounds retrans reachable zero k r = none
  rounds retrans reachable (suc fuel) k r =
      let r1 = transmitted reachable k r in
      let next = add_timespec (clock (suc k)) r.curr_to in
      let (deadline, final) = limited (cmp_timespec next r.finaldeadline) next r.finaldeadline in
      let later = rounds retrans reachable fuel (suc k) (next_round retrans k r1 final) in
      if r.finaldeadline.tv_sec == 0
      then some (none, r1)
      else after_wait (waited (reply k deadline) deadline) r1 later

  -- The first round of a call that waits `to` milliseconds at most.
  abbrev pub first_round : ℕ → Round
  first_round to = record {
    curr_to = to_min;
    finaldeadline = add_timespec (clock 0) to;
    transmit = true;
    ch = none;
    sent = [];
  }

  -- What a call that was made gives: its ret, the client after it, the header of its request, and
  -- the connections on which it was sent.
  abbrev pub Called : Type 0
  Called = ℕ × Rpcc × ReqHeader × List Connection

  abbrev pub ret_of : Option ℕ → ℕ
  ret_of none = timeout_failure
  ret_of (some ret) = ret

  abbrev finished : Rpcc → ReqHeader → Option ℕ → Round → Option (List ℕ) → Option Called
  finished s h o r none = none
  finished s h o r (some window) =
      some (ret_of o, record s { calls = erase h.xid s.calls; xid_rep_window = window }, h, r.sent)

  abbrev returned : Rpcc → ReqHeader → Option (Option ℕ × Round) → Option Called
  returned s h none = none
  returned s h (some (o, r)) = finished s h o r (update_xid_rep s.xid_rep_window h.xid)

  -- The call with its own xid, which is put into calls_ first. The front of an empty window is
  -- undefined.
  unfoldable pub request : ℕ → ℕ → ℕ → Rpcc → List ℕ → Option Called
  request fuel proc to s [] = none
  request fuel proc to s (xid_rep ∷ rest) =
      let h : ReqHeader = record {
        xid = s.xid;
        proc = proc;
        clt_nonce = s.clt_nonce;
        srv_nonce = s.srv_nonce;
        xid_rep = xid_rep;
      } in
      returned (record s { xid = u32 (s.xid + 1); calls = insert s.xid waiting s.calls }) h
        (rounds s.retrans s.reachable fuel 0 (first_round to))

  -- A failure before there is a request.
  unfoldable pub refused : ℕ → Rpcc → Option ℕ
  refused proc s =
      if (not (proc == bind) && not s.bind_done) || (proc == bind && s.bind_done)
      then some bind_failure
      else if s.destroy_wait
      then some cancel_failure
      else none

  abbrev pub unless_refused : Option ℕ → Rpcc → Option Called → Option (ℕ × Rpcc)
  unless_refused (some ret) s o = some (ret, s)
  unless_refused none s none = none
  unless_refused none s (some (ret, s', h, sent)) = some (ret, s')

  -- The whole of call1.
  unfoldable pub call1 : ℕ → ℕ → ℕ → Rpcc → Option (ℕ × Rpcc)
  call1 fuel proc to s = unless_refused (refused proc s) s (request fuel proc to s s.xid_rep_window)

  -- rpcc::bind: the call of procedure 1, whose reply holds the nonce of the server. `r` is what was
  -- unmarshalled from it.
  abbrev bound : ℕ → Option (ℕ × Rpcc) → Option (ℕ × Rpcc)
  bound r none = none
  bound r (some (ret, s)) =
      some (ret, if ret == 0 then record s { bind_done = true; srv_nonce = u32 r } else s)

  unfoldable pub bind_to : ℕ → ℕ → ℕ → Rpcc → Option (ℕ × Rpcc)
  bind_to fuel to r s = bound r (call1 fuel bind to s)
