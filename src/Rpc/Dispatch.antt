-- ===== src/Rpc/Dispatch.antt =====
-- rpcs::dispatch (rpc/rpc.cc): what the server does with one request, and what it sends back. The
-- registered handlers are called through `fn`, which takes the number that stands for the handler,
-- the arguments left to read and the state of the service behind it.
pub mod Executed
pub mod Duplicate
pub mod OnceOnly
use cse_yet_another_file_sys.Base.{
  ℕ, ◌+◌, ◌-◌, ◌^◌, Bool, true, false, not, ◌&&◌, Option, none, some, List, [], ◌∷◌, ◌++◌, Bytes,
  leb, ◌==◌, if◌then◌else◌, length, Map, lookup, insert, at_or,
}
use cse_yet_another_file_sys.Rpc.Connection.{Connection, compare, Compared, older}
use cse_yet_another_file_sys.Rpc.Marshall.{Unmarshall}
use cse_yet_another_file_sys.Rpc.Marshall.Header.{
  ReqHeader, pack_reply_header, unpack_req_header, message,
}
use cse_yet_another_file_sys.Rpc.ReplyWindow.{
  RpcState, new, inprogress, forgotten, done, Windows, Reply, fill, checkduplicate_and_update,
}

-- Negative constants of rpc_const, as the bits of an int of 32 bits.
abbrev pub unmarshal_args_failure : ℕ
unmarshal_args_failure = 2 ^ 32 - 2

abbrev pub atmostonce_failure : ℕ
atmostonce_failure = 2 ^ 32 - 4

abbrev pub oldsrv_failure : ℕ
oldsrv_failure = 2 ^ 32 - 5

abbrev pub is_negative : ℕ → Bool
is_negative i = leb (2 ^ 31) i

-- The members of rpcs that dispatch uses. `procs` holds the numbers of handlers.
pub record Rpcs : Type 0 where
  pub nonce : ℕ
  pub procs : Map ℕ
  pub windows : Windows
  pub conns : Map Connection
  pub counting : ℕ
  pub curr_counts : ℕ
  pub counts : Map ℕ

-- Before any client is known.
abbrev pub no_windows : Windows
no_windows = record { reply_window = []; window_bound = [] }

-- What a dispatch does to connections, and `ran clt_nonce xid proc` for the call of a handler.
pub data Effect : Type 0 where
  incref decref : Connection → Effect
  send : Connection → Bytes → Effect
  ran : ℕ → ℕ → ℕ → Effect

-- reg1: a procedure that is there already fails a VERIFY.
unfoldable pub reg1 : ℕ → ℕ → Rpcs → Option Rpcs
reg1 proc h s = elim (lookup proc s.procs) [
  | none ↦ some (record s { procs = insert proc h s.procs })
  | some g ↦ none
]

-- The handler of procedure 1: its ret, and the nonce that it replies.
unfoldable pub rpcbind : Rpcs → ℕ × ℕ
rpcbind s = (0, s.nonce)

-- The counters only; what is printed is left out. `curr_counts` is above 0 whenever `counting` is.
unfoldable pub updatestat : ℕ → Rpcs → Rpcs
updatestat proc s = record s {
  counts = insert proc (at_or 0 proc s.counts + 1) s.counts;
  curr_counts = if s.curr_counts - 1 == 0 then s.counting else s.curr_counts - 1;
}

-- A window with no entry of the client gets an empty one.
abbrev with_window : ℕ → Windows → Option (List Reply) → Windows
with_window clt_nonce ws none = record ws { reply_window = insert clt_nonce [] ws.reply_window }
with_window clt_nonce ws (some rs) = ws

abbrev pub know_client : ℕ → Windows → Windows
know_client clt_nonce ws = with_window clt_nonce ws (lookup clt_nonce ws.reply_window)

abbrev pub is_older : Compared → Bool
is_older older = true
is_older _ = false

abbrev pub replaced :
    ℕ → Connection → Map Connection → Option Connection → Map Connection × List Effect
replaced clt_nonce c conns none = (insert clt_nonce c conns, incref c ∷ [])
replaced clt_nonce c conns (some d) =
    if is_older (compare d c)
    then (insert clt_nonce c conns, decref d ∷ incref c ∷ [])
    else (conns, [])

-- "save the latest good connection to the client"
unfoldable pub latest_conn : ℕ → Connection → Map Connection → Map Connection × List Effect
latest_conn clt_nonce c conns = replaced clt_nonce c conns (lookup clt_nonce conns)

-- rpcs::add_reply, on the window of the client.
abbrev pub save_reply : ℕ → ℕ → Bytes → Windows → Windows
save_reply clt_nonce xid b ws = record ws {
  reply_window = insert clt_nonce (fill xid b (at_or [] clt_nonce ws.reply_window)) ws.reply_window;
}

-- The counters before the handler is called, and the reply recorded after it.
abbrev pub executed_state : Rpcs → ℕ → ℕ → ℕ → Bytes → Rpcs
executed_state s clt_nonce proc xid b =
    let s1 = if s.counting == 0 then s else updatestat proc s in
    if clt_nonce == 0 then s1 else record s1 { windows = save_reply clt_nonce xid b s1.windows }

abbrev pub moved : Connection → Option Connection → Option (Connection × List Effect)
moved c none = none
moved c (some d) = some (if d.fd == c.fd then (c, []) else (d, decref c ∷ incref d ∷ []))

-- The connection for the reply, when the handler has returned and `is_dead` says whether `c` is
-- dead: the latest one of the client if `c` is. A client without one has a null pointer for it,
-- which is then used: `none`.
unfoldable pub reply_conn :
    Bool → ℕ → Connection → Map Connection → Option (Connection × List Effect)
reply_conn is_dead clt_nonce c conns =
    if is_dead then moved c (lookup clt_nonce conns) else some (c, [])

-- `front` is the room for the size and the checksum, and `pad` the rest of RPC_HEADER_SZ behind a
-- reply's header, in the buffer that marshall allocates; `dead` says which connections are dead.
-- A dispatch gives what it has done, and the state after it, or `none` if a VERIFY has failed.
module _ {W : Type 0} (fn : ℕ → Unmarshall → W → ℕ × Bytes × W) (front pad : Bytes)
    (dead : Connection → Bool) where
  abbrev pub header : ℕ
  header = length front + 8 + length pad

  abbrev pub request_of : Bytes → ReqHeader × Unmarshall
  request_of buf = unpack_req_header (length front) header buf

  abbrev pub reply_of : ℕ → ℕ → Bytes → Bytes
  reply_of xid ret content =
      message front pad content header (pack_reply_header (record { xid = xid; ret = ret }))

  abbrev pub answered :
      Rpcs
      → W
      → Bytes
      → List Effect
      → Option (Connection × List Effect)
      → List Effect × Option (Rpcs × W)
  answered s w b es none = (es, none)
  answered s w b es (some (c, turns)) = (es ++ (turns ++ send c b ∷ decref c ∷ []), some (s, w))

  -- The case NEW, from updatestat on.
  unfoldable pub execute :
      Rpcs
      → W
      → Connection
      → ReqHeader
      → Unmarshall
      → ℕ
      → List Effect
      → List Effect × Option (Rpcs × W)
  execute s w c h req f es =
      let (ret, content, w') = fn f req w in
      let called = es ++ ran h.clt_nonce h.xid h.proc ∷ [] in
      let b1 = reply_of h.xid ret content in
      let s2 = executed_state s h.clt_nonce h.proc h.xid b1 in
      if ret == unmarshal_args_failure
      then (called, none)
      else if is_negative ret
      then (called, none)
      else answered s2 w' b1 called (reply_conn (dead c) h.clt_nonce c s2.conns)

  abbrev pub switch :
      RpcState
      → Rpcs
      → W
      → Connection
      → ReqHeader
      → Unmarshall
      → ℕ
      → List Effect
      → List Effect × Option (Rpcs × W)
  switch new s w c h req f es = execute s w c h req f es
  switch inprogress s w c h req f es = (es ++ decref c ∷ [], some (s, w))
  switch (done b) s w c h req f es = (es ++ send c b ∷ decref c ∷ [], some (s, w))
  switch forgotten s w c h req f es =
      (es ++ send c (reply_of h.xid atmostonce_failure []) ∷ decref c ∷ [], some (s, w))

  abbrev pub checked :
      Option (RpcState × Windows)
      → Rpcs
      → W
      → Connection
      → ReqHeader
      → Unmarshall
      → ℕ
      → List Effect
      → List Effect × Option (Rpcs × W)
  checked none s w c h req f es = (es, none)
  checked (some (stat, ws)) s w c h req f es =
      switch stat (record s { windows = ws }) w c h req f es

  -- A request to a procedure that is registered. A client with the nonce 0 does not ask for at
  -- most once.
  unfoldable pub handle :
      Rpcs → W → Connection → ReqHeader → Unmarshall → ℕ → List Effect × Option (Rpcs × W)
  handle s w c h req f =
      let ws = know_client h.clt_nonce s.windows in
      let (conns, es) = latest_conn h.clt_nonce c s.conns in
      if h.clt_nonce == 0
      then execute s w c h req f []
      else checked (checkduplicate_and_update ws h.clt_nonce h.xid h.xid_rep)
          (record s { windows = ws; conns = conns }) w c h req f es

  unfoldable pub dispatch : Rpcs → W → Connection → Bytes → List Effect × Option (Rpcs × W)
  dispatch s w c buf =
      let (h, req) = request_of buf in
      if not req.ok
      then (decref c ∷ [], some (s, w))
      else if not (h.srv_nonce == 0) && not (h.srv_nonce == s.nonce)
      then (send c (reply_of h.xid oldsrv_failure []) ∷ [], some (s, w))
      else elim (lookup h.proc s.procs) [
        | none ↦ (decref c ∷ [], none)
        | some f ↦ handle s w c h req f
      ]

  -- Requests one after the other, as long as no VERIFY fails: all that is done.
  unfoldable pub serve : Option (Rpcs × W) → List (Connection × Bytes) → List Effect
  serve none requests = []
  serve (some (s, w)) [] = []
  serve (some (s, w)) ((c, buf) ∷ rest) =
      let (es, after) = dispatch s w c buf in es ++ serve after rest
