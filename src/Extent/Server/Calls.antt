-- ===== src/Extent/Server/Calls.antt =====
-- The RPC interface of the extent server: extent_protocol::rpc_numbers, and the handlers that
-- extent_smain.cc registers for them. extent_server takes no mutex: its handlers may run at the same
-- time, on the threads of the RPC server, and then race on its maps.
use cse_yet_another_file_sys.Base.{
  ℕ, Bool, true, false, not, ◌&&◌, Option, none, some, List, [], ◌∷◌, ◌++◌, ◌==◌, if◌then◌else◌,
  Bytes, Map, lookup, insert, erase,
}
use cse_yet_another_file_sys.Rpc.Status.{Result}
use cse_yet_another_file_sys.Extent.Server
use cse_yet_another_file_sys.Extent.Server.{Attr, ExtentServer}

pub data Call : Type 0 where
  get getattr remove : ℕ → Call
  put : ℕ → Bytes → Call

pub data Reply : Type 0 where
  got : Result Bytes → Reply
  got_attr : Result Attr → Reply
  done : Result Unit → Reply

-- A handler that runs with no other beside it.
unfoldable pub serve : ℕ → ExtentServer → Call → Reply × ExtentServer
serve now s (get id) = let (r, s') = Server.get now s id in (got r, s')
serve now s (getattr id) = (got_attr (Server.getattr s id), s)
serve now s (put id buf) = let (r, s') = Server.put now s id buf in (done r, s')
serve now s (remove id) = let (r, s') = Server.remove s id in (done r, s')

-- Handlers that run one after another.
unfoldable pub run : ExtentServer → List (ℕ × Call) → List Reply
run s [] = []
run s ((now, c) ∷ cs) = (serve now s c).0 ∷ run (serve now s c).1 cs

-- A thread of the RPC server starts the handler of a call, at a time, or its handler ends.
pub data Event : Type 0 where
  starts : ℕ → ℕ → Call → Event
  ends : ℕ → Event

-- `inside` has the handlers that run, by thread.
pub record Threads : Type 0 where
  pub server : ExtentServer
  pub inside : Map (ℕ × Call)

-- getattr changes nothing; the others change the maps or an attribute.
abbrev only_reads : Call → Bool
only_reads (get id) = false
only_reads (getattr id) = true
only_reads (put id buf) = false
only_reads (remove id) = false

abbrev pub no_race : ℕ → Call → Map (ℕ × Call) → Bool
no_race t c [] = true
no_race t c ((u, (now, d)) ∷ is) = not (t == u) && only_reads c && only_reads d && no_race t c is

abbrev pub ended : ℕ → Threads → Option (ℕ × Call) → Option (List Reply × Threads)
ended t s none = none
ended t s (some (now, c)) =
    let (r, server) = serve now s.server c in
    some (r ∷ [], record { server = server; inside = erase t s.inside })

-- `none` is a data race, which is undefined, or the end of a handler that does not run. Without a
-- race, what a handler does may be taken to be done at its end.
unfoldable pub happen : Event → Threads → Option (List Reply × Threads)
happen (starts t now c) s =
    if no_race t c s.inside
    then some ([], record s { inside = insert t (now, c) s.inside })
    else none
happen (ends t) s = ended t s (lookup t s.inside)

abbrev pub after : List Reply → Option (List Reply) → Option (List Reply)
after rs none = none
after rs (some qs) = some (rs ++ qs)

-- The replies, in the order in which the handlers end.
unfoldable pub history : List Event → Threads → Option (List Reply)
history [] s = some []
history (e ∷ es) s = elim (happen e s) [ none ↦ none | some (rs, s1) ↦ after rs (history es s1) ]
