-- ===== src/Rpc/Dispatch/Duplicate.antt =====
-- rpcs::dispatch: a request that is sent again after its reply, and the requests that are refused.
use cse_yet_another_file_sys.Base.{
  ℕ, ◌<◌, ◌≡◌, ◌≢◌, refl, ◌∙◌, inl, inr, Bool, true, false, not, ◌&&◌, some, List, [], ◌∷◌, ◌++◌,
  Bytes, ◌==◌, ==_iff, lookup, arith, Bool-cases,
}
use cse_yet_another_file_sys.Rpc.Connection.{Connection}
use cse_yet_another_file_sys.Rpc.Marshall.{Unmarshall}
use cse_yet_another_file_sys.Rpc.Marshall.Header.{ReqHeader}
use cse_yet_another_file_sys.Rpc.ReplyWindow.{
  RpcState, new, done, Window, Windows, window_of, put_back, add_reply, check, classify,
  checkduplicate_and_update,
}
use cse_yet_another_file_sys.Rpc.ReplyWindow.Contents.{Has}
use cse_yet_another_file_sys.Rpc.ReplyWindow.Reordering.{duplicate_lem}
use cse_yet_another_file_sys.Rpc.Dispatch.{
  Rpcs, Effect, decref, send, ran, know_client, latest_conn, reply_conn, updatestat, executed_state,
  reply_of, request_of, execute, switch, handle, dispatch, unmarshal_args_failure, is_negative,
}
use cse_yet_another_file_sys.Rpc.Dispatch.Executed.{
  window_of-know_client, window_of-put_back, window_of-save_reply,
}

-- A request for another instance of the server.
abbrev pub is_stale : Rpcs → ReqHeader → Bool
is_stale s h = not (h.srv_nonce == 0) && not (h.srv_nonce == s.nonce)

module _ {W : Type 0} (fn : ℕ → Unmarshall → W → ℕ × Bytes × W) (front pad : Bytes)
    (dead : Connection → Bool) where
  dispatch-handle :
      (s : Rpcs) (w : W) (c : Connection) (buf : Bytes) (f : ℕ)
      → (request_of fn front pad dead buf).1.ok ≡ true
      → is_stale s (request_of fn front pad dead buf).0 ≡ false
      → lookup (request_of fn front pad dead buf).0.proc s.procs ≡ some f
      → dispatch fn front pad dead s w c buf
        ≡ handle fn front pad dead s w c
            (request_of fn front pad dead buf).0
            (request_of fn front pad dead buf).1
            f
  unfolding dispatch
  dispatch-handle s w c buf f o n r = rw (o, n, r) refl

  -- The handler is called and its reply sent on the same connection.
  execute-sent :
      (s : Rpcs) (w : W) (c : Connection) (h : ReqHeader) (req : Unmarshall) (f : ℕ)
      (es : List Effect)
      → is_negative (fn f req w).0 ≡ false
      → dead c ≡ false
      → execute fn front pad dead s w c h req f es ≡ (
        (es ++ ran h.clt_nonce h.xid h.proc ∷ [])
            ++ send c (reply_of fn front pad dead h.xid (fn f req w).0 (fn f req w).1)
              ∷ decref c
              ∷ [],
        some (
          executed_state s h.clt_nonce h.proc h.xid
              (reply_of fn front pad dead h.xid (fn f req w).0 (fn f req w).1),
          (fn f req w).2,
        ),
      )
  unfolding execute reply_conn
  execute-sent s w c h req f es n a =
      let other : ((fn f req w).0 == unmarshal_args_failure) ≡ false = ground arith in
      rw (other, n, a) refl

  -- The state after the reply was recorded.
  executed-same :
      (s : Rpcs) (k proc x : ℕ) (b : Bytes)
      → k ≢ 0
      → ((executed_state s k proc x b).nonce ≡ s.nonce)
        × ((executed_state s k proc x b).procs ≡ s.procs)
        × (window_of (executed_state s k proc x b).windows k
            ≡ add_reply (window_of s.windows k) x b)
  unfolding updatestat
  executed-same s k proc x b n =
      let positive : (k == 0) ≡ false = ground arith in
      let itself : (k == k) ≡ true = (==_iff k k).1 refl in
      elim (Bool-cases (s.counting == 0)) [
        | inl e ↦
            rw (positive, e) (refl, refl, window_of-save_reply k k x b s.windows ∙ rw itself refl)
        | inr e ↦
            rw (positive, e) (refl, refl, window_of-save_reply k k x b s.windows ∙ rw itself refl)
      ]

  -- A call that the server executes: of a procedure that is registered, by a client that asks for
  -- at most once, for an xid that is new to its window and above its xid_rep, with a handler that
  -- succeeds and a connection that lives until then.
  pub record IsNewCall (s : Rpcs) (w : W) (c : Connection) (buf : Bytes) (f : ℕ) : Type 0 where
    pub header_ok : (request_of fn front pad dead buf).1.ok ≡ true
    pub current : is_stale s (request_of fn front pad dead buf).0 ≡ false
    pub registered : lookup (request_of fn front pad dead buf).0.proc s.procs ≡ some f
    pub counted : (request_of fn front pad dead buf).0.clt_nonce ≢ 0
    pub absent :
        ¬ Has
          (request_of fn front pad dead buf).0.xid
          (window_of s.windows (request_of fn front pad dead buf).0.clt_nonce).replies
    pub fresh :
        classify
          (window_of s.windows (request_of fn front pad dead buf).0.clt_nonce)
          (request_of fn front pad dead buf).0.xid
        ≡ new
    pub above :
        (request_of fn front pad dead buf).0.xid_rep < (request_of fn front pad dead buf).0.xid
    pub succeeds : is_negative (fn f (request_of fn front pad dead buf).1 w).0 ≡ false
    pub alive : dead c ≡ false

  -- The reply of that call.
  abbrev pub reply_to : W → Bytes → ℕ → Bytes
  reply_to w buf f =
      let (h, req) = request_of fn front pad dead buf in
      reply_of fn front pad dead h.xid (fn f req w).0 (fn f req w).1

  checked-new :
      (s : Rpcs) (k x m : ℕ) (w' : Window)
      → check (window_of s.windows k) x m ≡ some (new, w')
      → checkduplicate_and_update (know_client k s.windows) k x m
        ≡ some (new, put_back (know_client k s.windows) k w')
  unfolding checkduplicate_and_update
  checked-new s k x m w' e = rw (window_of-know_client k k s.windows, e) refl

  checked-done :
      (s : Rpcs) (k x m : ℕ) (b : Bytes)
      → classify (window_of s.windows k) x ≡ done b
      → (ws : Windows) × (checkduplicate_and_update (know_client k s.windows) k x m
          ≡ some (done b, ws))
  unfolding checkduplicate_and_update check
  checked-done s k x m b e = (
    put_back (know_client k s.windows) k (window_of s.windows k),
    rw (window_of-know_client k k s.windows, e) refl,
  )

  handle-checked :
      (s : Rpcs) (w : W) (c : Connection) (h : ReqHeader) (req : Unmarshall) (f : ℕ)
      (stat : RpcState) (ws : Windows)
      → h.clt_nonce ≢ 0
      → checkduplicate_and_update (know_client h.clt_nonce s.windows) h.clt_nonce h.xid h.xid_rep
        ≡ some (stat, ws)
      → handle fn front pad dead s w c h req f
        ≡ switch fn front pad dead stat
            (record s { windows = ws; conns = (latest_conn h.clt_nonce c s.conns).0 })
            w
            c
            h
            req
            f
            (latest_conn h.clt_nonce c s.conns).1
  unfolding handle
  handle-checked s w c h req f stat ws n e =
      let positive : (h.clt_nonce == 0) ≡ false = ground arith in rw (positive, e) refl

  -- A request for this instance of the server and for a procedure that is registered, from a client
  -- whose nonce is not 0, on a connection that is alive when the handler is done, with an xid that is
  -- above its xid_rep, that is new to the client's window and whose reply is not in it, and which the
  -- handler answers with a return value that is not negative: the handler is called once, and its
  -- reply is sent on that connection. If the next request is the same one again, on any connection,
  -- the same bytes are sent on that connection, without a call of the handler and without a change of
  -- the service's state.
  pub resend_lem :
      (s : Rpcs) (w : W) (c c2 : Connection) (buf : Bytes) (f : ℕ)
      → IsNewCall s w c buf f
      → (s1 s2 : Rpcs) × (dispatch fn front pad dead s w c buf ≡ (
        ((latest_conn (request_of fn front pad dead buf).0.clt_nonce c s.conns).1
              ++ ran
                  (request_of fn front pad dead buf).0.clt_nonce
                  (request_of fn front pad dead buf).0.xid
                  (request_of fn front pad dead buf).0.proc
                ∷ [])
            ++ send c (reply_to w buf f) ∷ decref c ∷ [],
        some (s1, (fn f (request_of fn front pad dead buf).1 w).2),
      ))
        × (dispatch fn front pad dead s1 (fn f (request_of fn front pad dead buf).1 w).2 c2 buf ≡ (
          (latest_conn (request_of fn front pad dead buf).0.clt_nonce c2 s1.conns).1
              ++ send c2 (reply_to w buf f) ∷ decref c2 ∷ [],
          some (s2, (fn f (request_of fn front pad dead buf).1 w).2),
        ))
  resend_lem s w c c2 buf f i =
      let (h, req) = request_of fn front pad dead buf in
      let k = h.clt_nonce in
      let b = reply_to w buf f in
      let (w1, found, _, is_done) =
        duplicate_lem (window_of s.windows k) h.xid h.xid_rep i.absent i.fresh i.above b in
      let s0 = record s {
        windows = put_back (know_client k s.windows) k w1;
        conns = (latest_conn k c s.conns).0;
      } in
      let s1 = executed_state s0 k h.proc h.xid b in
      let (same_nonce, same_procs, filled) = executed-same s0 k h.proc h.xid b i.counted in
      let itself : (k == k) ≡ true = (==_iff k k).1 refl in
      let window1 : window_of s1.windows k ≡ add_reply w1 h.xid b =
        filled ∙ rw (window_of-put_back k k w1 (know_client k s.windows), itself) refl in
      let saved : classify (window_of s1.windows k) h.xid ≡ done b = rw window1 is_done in
      let (ws2, checked2) = checked-done s1 k h.xid h.xid_rep b saved in
      (
        s1,
        record s1 { windows = ws2; conns = (latest_conn k c2 s1.conns).0 },
        dispatch-handle s w c buf f i.header_ok i.current i.registered
            ∙ handle-checked s w c h req f new (put_back (know_client k s.windows) k w1) i.counted
                (checked-new s k h.xid h.xid_rep w1 found)
            ∙ execute-sent s0 w c h req f (latest_conn k c s.conns).1 i.succeeds i.alive,
        dispatch-handle s1 _ c2 buf f i.header_ok (rw same_nonce i.current)
              (rw same_procs i.registered)
            ∙ handle-checked s1 _ c2 h req f (done b) ws2 i.counted checked2,
      )
