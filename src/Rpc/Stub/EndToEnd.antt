-- ===== src/Rpc/Stub/EndToEnd.antt =====
-- An RPC from the arguments of its call to the method of the server and back to the caller.
use mathlib.Core.List.{append-nil}
use cse_yet_another_file_sys.Base.{
  ℕ, ◌+◌, ◌^◌, ◌<◌, ◌≤◌, ◌≡◌, ◌≢◌, refl, sym, ◌∙◌, Bool, true, false, some, List, [], ◌∷◌, ◌++◌,
  Bytes, ◌==◌, ==_iff, length, All, Map, lookup, arith,
}
use cse_yet_another_file_sys.Rpc.Connection.{Connection}
use cse_yet_another_file_sys.Rpc.Marshall.{Unmarshall, start, okdone}
use cse_yet_another_file_sys.Rpc.Marshall.Wire.{
  Value, Fits, kind_of, put, put-HasFree, at, bytes_of, content-put, get-bytes_of,
}
use cse_yet_another_file_sys.Rpc.Marshall.RoundTrip.{
  put_all, kinds, all_bytes, put_all-safe, start-HasFree, content-put_all, get_all-bytes,
}
use cse_yet_another_file_sys.Rpc.Marshall.Header.{ReqHeader, ReplyHeader, FitsReq, unpack-pack}
use cse_yet_another_file_sys.Rpc.ReplyWindow.{new, window_of, classify}
use cse_yet_another_file_sys.Rpc.ReplyWindow.Contents.{Has}
use cse_yet_another_file_sys.Rpc.Dispatch.{
  Rpcs, send, decref, ran, dispatch, request_of, reply_of, is_negative, latest_conn,
}
use cse_yet_another_file_sys.Rpc.Dispatch.Duplicate.{is_stale, IsNewCall, resend_lem}
use cse_yet_another_file_sys.Rpc.Caller.{Rpcc, Pending, waiting}
use cse_yet_another_file_sys.Rpc.Caller.Upcall.{got_pdu, got_pdu_lem, answered}
use cse_yet_another_file_sys.Rpc.Stub.{Service, replied, fn, fn_of, call_request, call_m}

-- The method is called with the arguments that were passed.
fn_of-call :
    {W : Type 0} (header h0 : ℕ) (overrun : Unmarshall → W → ℕ × Bytes × W)
    (services : Map (Service W)) (f : ℕ) (sv : Service W) (args : List Value) (w : W)
    → lookup f services ≡ some sv
    → sv.kinds ≡ kinds args
    → All Fits args
    → fn_of header overrun services f (at header (put_all h0 start args).content) w
      ≡ replied header overrun (sv.meth args w)
unfolding fn_of fn okdone
fn_of-call header h0 overrun services f sv args w e k fits =
    let (j, read) = get_all-bytes header args fits in
    rw (e, k, content-put_all h0 start args, read) refl

-- The caller reads the result that the method gave.
call_m-reply :
    (header ret : ℕ) (r : Value)
    → is_negative ret ≡ false
    → Fits r
    → call_m header (kind_of r) ret (put header start r).content ≡ some (ret, some r)
unfolding call_m okdone
call_m-reply header ret r n fits =
    let bytes : (put header start r).content ≡ bytes_of r ++ [] =
      content-put header start r ∙ sym (append-nil (bytes_of r)) in
    rw (n, bytes, get-bytes_of header r [] fits) refl

-- A request that the server takes: for this instance of it, of a client that asks for at most once,
-- with an xid that is new to its window and above its xid_rep, on a connection that stays alive.
pub record IsNewRequest (dead : Connection → Bool) (s : Rpcs) (c : Connection) (h : ReqHeader)
    : Type 0 where
  pub fits : FitsReq h
  pub current : is_stale s h ≡ false
  pub counted : h.clt_nonce ≢ 0
  pub absent : ¬ Has h.xid (window_of s.windows h.clt_nonce).replies
  pub fresh : classify (window_of s.windows h.clt_nonce) h.xid ≡ new
  pub above : h.xid_rep < h.xid
  pub alive : dead c ≡ false

module _ {W : Type 0} (overrun : Unmarshall → W → ℕ × Bytes × W) (services : Map (Service W))
    (front pad_req pad : Bytes)
    (sizes : length front + 20 + length pad_req ≡ length front + 8 + length pad)
    (dead : Connection → Bool) where
  -- RPC_HEADER_SZ
  abbrev pub header : ℕ
  header = length front + 8 + length pad

  abbrev pub handlers : ℕ → Unmarshall → W → ℕ × Bytes × W
  handlers = fn_of header overrun services

  module _ (s : Rpcs) (w : W) (c : Connection) (h : ReqHeader) (f : ℕ) (sv : Service W)
      (args : List Value) (i : IsNewRequest dead s c h)
      (registered : lookup h.proc s.procs ≡ some f) (served : lookup f services ≡ some sv)
      (typed : sv.kinds ≡ kinds args) (fits : All Fits args)
      (small : (sv.meth args w).0 < 2 ^ 31) where
    abbrev content : Bytes
    content = (put_all (length front + 20 + length pad_req) start args).content

    positive : is_negative (sv.meth args w).0 ≡ false
    positive = ground arith

    abbrev buf : Bytes
    buf = call_request front pad_req h args

    received : request_of handlers front pad dead buf ≡ (h, at header content)
    unfolding call_request
    received = unpack-pack front pad_req content header h i.fits sizes

    called : handlers f (at header content) w ≡ replied header overrun (sv.meth args w)
    called =
        fn_of-call header (length front + 20 + length pad_req) overrun services f sv args w served
          typed fits

    buf-IsNewCall : IsNewCall handlers front pad dead s w c buf f
    buf-IsNewCall = record {
      header_ok = rw received refl;
      current = rw received i.current;
      registered = rw received registered;
      counted = rw received i.counted;
      absent = rw received i.absent;
      fresh = rw received i.fresh;
      above = rw received i.above;
      succeeds = rw (received, called) positive;
      alive = i.alive;
    }

    abbrev reply : Bytes
    reply =
        reply_of handlers front pad dead h.xid (sv.meth args w).0
          (put header start (sv.meth args w).1).content

    dispatched :
        (s1 : Rpcs) × (dispatch handlers front pad dead s w c buf ≡ (
          ((latest_conn h.clt_nonce c s.conns).1 ++ ran h.clt_nonce h.xid h.proc ∷ [])
              ++ send c reply ∷ decref c ∷ [],
          some (s1, (sv.meth args w).2),
        ))
    dispatched =
        let (s1, s2, ran_once, again) =
          resend_lem handlers front pad dead s w c c buf f buf-IsNewCall in
        (s1, rw (received, called) at ran_once)

    -- A call of a method that is registered, with arguments of the method's kinds, in a request whose
    -- header has fields of 32 bits, that is for this instance of the server, from a client whose nonce
    -- is not 0, with an xid above its xid_rep that is new to the client's window and whose reply is not
    -- in it, on a connection that is alive when the method is done: the server calls the method once,
    -- with these arguments, and its state is then the one that the method leaves. It sends one message
    -- on the connection of the request. The client of this xid, if it waits with a window that is not
    -- empty and gets that message, has the method's return value, and the method's result is what it
    -- reads. The return value is not negative, arguments and result fit into their types, and the
    -- request and the reply are half a gigabyte at most, so that no int of their buffers overflows.
    pub rpc_lem :
        (cl : Rpcc) (front_xid : ℕ) (rest : List ℕ)
        → Fits (sv.meth args w).1
        → cl.xid_rep_window ≡ front_xid ∷ rest
        → lookup h.xid cl.calls ≡ some waiting
        → length front + 20 + length pad_req + length (all_bytes args) ≤ 2 ^ 29
        → header + length (bytes_of (sv.meth args w).1) ≤ 2 ^ 29
        → ((put_all (length front + 20 + length pad_req) start args).overflowed ≡ false)
          × ((put header start (sv.meth args w).1).overflowed ≡ false)
          × (s1 : Rpcs) × (b : Bytes) × (dispatch handlers front pad dead s w c buf ≡ (
            ((latest_conn h.clt_nonce c s.conns).1 ++ ran h.clt_nonce h.xid h.proc ∷ [])
                ++ send c b ∷ decref c ∷ [],
            some (s1, (sv.meth args w).2),
          ))
          × (cl1 : Rpcc) × (got_pdu (length front) header b cl ≡ some cl1)
          × (ca : Pending) × (lookup h.xid cl1.calls ≡ some ca)
          × (ca.done ≡ true)
          × (call_m header (kind_of (sv.meth args w).1) ca.intret ca.un
              ≡ some ((sv.meth args w).0, some (sv.meth args w).1))
    rpc_lem cl front_xid rest fits_r window pending small_req small_rep =
        let ret = (sv.meth args w).0 in
        let r = (sv.meth args w).1 in
        let (s1, done_at_server) = dispatched in
        let h2 : ReplyHeader = record { xid = h.xid; ret = ret } in
        let bytes = (put header start r).content in
        let (cl1, got, found) =
          got_pdu_lem front pad bytes header front_xid h.xid rest h2 cl i.fits.xid (omega arith)
            refl window in
        let itself : (h.xid == h.xid) ≡ true = (==_iff h.xid h.xid).1 refl in
        let room = start-HasFree header (length (bytes_of r) + 0) (omega arith) in
        (
          put_all-safe (length front + 20 + length pad_req) args small_req,
          (put-HasFree header start r 0 room).safe,
          s1,
          reply,
          done_at_server,
          cl1,
          got,
          answered h2 bytes waiting,
          rw (itself, pending) at found,
          refl,
          call_m-reply header ret r positive fits_r,
        )
