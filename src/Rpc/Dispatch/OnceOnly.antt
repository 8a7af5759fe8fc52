-- ===== src/Rpc/Dispatch/OnceOnly.antt =====
-- rpcs::dispatch on the requests of many clients: no request is executed twice.
use cse_yet_another_file_sys.Base.{
  ℕ, ◌≤◌, ◌<◌, ◌≡◌, ◌≢◌, refl, ◌⊎◌, inl, inr, Bool, true, false, not, ◌&&◌, Option, none, some,
  List, [], ◌∷◌, ◌++◌, Bytes, ◌==◌, ==_iff, if◌then◌else◌, All, lookup, at_or, arith, Bool-cases,
  ◌∙◌, Option-cases, All-append,
}
use cse_yet_another_file_sys.Rpc.Connection.{Connection}
use cse_yet_another_file_sys.Rpc.Marshall.{Unmarshall}
use cse_yet_another_file_sys.Rpc.Marshall.Header.{ReqHeader}
use cse_yet_another_file_sys.Rpc.ReplyWindow.{
  RpcState, new, inprogress, forgotten, done, Window, window_of, put_back, check,
  checkduplicate_and_update,
}
use cse_yet_another_file_sys.Rpc.ReplyWindow.Duplicates.{AllDistinct, noting, check-IsRemembered}
use cse_yet_another_file_sys.Rpc.Dispatch.{
  Rpcs, no_windows, Effect, decref, send, ran, know_client, latest_conn, reply_conn, executed_state,
  reply_of, request_of, answered, execute, switch, checked, handle, dispatch, serve,
  unmarshal_args_failure, is_negative,
}
use cse_yet_another_file_sys.Rpc.Dispatch.Executed.{
  noted, executed_by, executed_by-append, IsQuiet, executed_by-IsQuiet, replaced-IsQuiet,
  reply_conn-IsQuiet, window_of-know_client, window_of-put_back, IsOnce, executed-IsOnce,
}

module _ {W : Type 0} (fn : ℕ → Unmarshall → W → ℕ × Bytes × W) (front pad : Bytes)
    (dead : Connection → Bool) (j : ℕ) where
  IsOnceIn : ℕ → Option (Rpcs × W) → List ℕ → Type 0
  IsOnceIn m none executed = Unit
  IsOnceIn m (some (s, w)) executed = IsOnce m (window_of s.windows j) executed

  -- What a dispatch leaves behind, when `executed` was executed before it.
  record IsOnceAfter (m : ℕ) (executed : List ℕ) (out : List Effect × Option (Rpcs × W))
      : Type 0 where
    no_more : AllDistinct (executed_by j executed out.0)
    still : IsOnceIn m out.1 (executed_by j executed out.0)

  -- Nothing was called, and the window is as before.
  quiet-IsOnceAfter :
      (m : ℕ) (executed : List ℕ) (s : Rpcs) (w : W) (es : List Effect)
      → All IsQuiet es
      → IsOnce m (window_of s.windows j) executed
      → IsOnceAfter m executed (es, some (s, w))
  unfolding IsOnceIn
  quiet-IsOnceAfter m executed s w es q h =
      let same = executed_by-IsQuiet j executed es q in
      record { no_more = rw same h.distinct; still = rw same h }

  answered-IsOnceAfter :
      (m : ℕ) (before executed : List ℕ) (s : Rpcs) (w : W) (b : Bytes) (called : List Effect)
      (o : Option (Connection × List Effect))
      → executed_by j before called ≡ executed
      → IsOnce m (window_of s.windows j) executed
      → ((d : Connection) (es : List Effect) → o ≡ some (d, es) → All IsQuiet es)
      → IsOnceAfter m before (answered fn front pad dead s w b called o)
  unfolding IsOnceIn
  answered-IsOnceAfter m before executed s w b called none e h q = record {
    no_more = rw e h.distinct;
    still = tt;
  }
  answered-IsOnceAfter m before executed s w b called (some (d, es)) e h q =
      let more = es ++ send d b ∷ decref d ∷ [] in
      let quiet : All IsQuiet more =
        All-append IsQuiet es (send d b ∷ decref d ∷ []) (q d es refl) (tt, (tt, tt)) in
      let same : executed_by j before (called ++ more) ≡ executed =
        executed_by-append j before called more
        ∙ rw e (executed_by-IsQuiet j executed more quiet) in
      record { no_more = rw same h.distinct; still = rw same h }

  -- The handler is called for a request that is new, or not of this client.
  execute-IsOnceAfter :
      (m : ℕ) (before : List ℕ) (s : Rpcs) (w : W) (c : Connection) (h : ReqHeader)
      (req : Unmarshall) (f : ℕ) (es : List Effect)
      → All IsQuiet es
      → IsOnce m (window_of s.windows j) (noted j before (ran h.clt_nonce h.xid h.proc))
      → IsOnceAfter m before (execute fn front pad dead s w c h req f es)
  unfolding execute IsOnceIn executed_by
  execute-IsOnceAfter m before s w c h req f es q k =
      let (ret, content, w') = fn f req w in
      let called = es ++ ran h.clt_nonce h.xid h.proc ∷ [] in
      let b = reply_of fn front pad dead h.xid ret content in
      let s2 = executed_state s h.clt_nonce h.proc h.xid b in
      let one : executed_by j before called ≡ noted j before (ran h.clt_nonce h.xid h.proc) =
        executed_by-append j before es (ran h.clt_nonce h.xid h.proc ∷ [])
        ∙ rw (executed_by-IsQuiet j before es q, executed_by) refl in
      elim (Bool-cases (ret == unmarshal_args_failure)) [
        | inl e ↦ rw e (record { no_more = rw one k.distinct; still = tt })
        | inr e ↦ elim (Bool-cases (is_negative ret)) [
          | inl l ↦ rw (e, l) (record { no_more = rw one k.distinct; still = tt })
          | inr l ↦
              rw (e, l)
                (answered-IsOnceAfter m before _ s2 w' b called
                  (reply_conn (dead c) h.clt_nonce c s2.conns) one
                  (executed-IsOnce m j s h.clt_nonce h.proc h.xid b _ k)
                  (λ d es' t. reply_conn-IsQuiet (dead c) h.clt_nonce c d s2.conns es' t))
        ]
      ]

  -- What the state says of the client after the check of a request of client `k`.
  noted_as : ℕ → ℕ → RpcState → List ℕ → List ℕ
  noted_as k x stat executed = if k == j then noting x stat executed else executed

  switch-IsOnceAfter :
      (m : ℕ) (before : List ℕ) (stat : RpcState) (s : Rpcs) (w : W) (c : Connection)
      (h : ReqHeader) (req : Unmarshall) (f : ℕ) (es : List Effect)
      → All IsQuiet es
      → IsOnce m (window_of s.windows j) (noted_as h.clt_nonce h.xid stat before)
      → IsOnceAfter m before (switch fn front pad dead stat s w c h req f es)
  unfolding noted_as
  switch-IsOnceAfter m before new s w c h req f es q k =
      execute-IsOnceAfter m before s w c h req f es q k
  switch-IsOnceAfter m before inprogress s w c h req f es q k =
      quiet-IsOnceAfter m before s w (es ++ decref c ∷ []) (All-append IsQuiet es _ q (tt, tt))
        (grind (arith, k))
  switch-IsOnceAfter m before (done b) s w c h req f es q k =
      quiet-IsOnceAfter m before s w _ (All-append IsQuiet es _ q (tt, (tt, tt))) (grind (arith, k))
  switch-IsOnceAfter m before forgotten s w c h req f es q k =
      quiet-IsOnceAfter m before s w _ (All-append IsQuiet es _ q (tt, (tt, tt))) (grind (arith, k))

  -- A request of the client asks for an xid above its xid_rep, which does not fall.
  abbrev pub IsInTurn : ℕ → ReqHeader → Type 0
  IsInTurn m h = (h.clt_nonce ≢ j) ⊎ ((m ≤ h.xid_rep) × (h.xid_rep < h.xid))

  abbrev pub next_rep : ℕ → ReqHeader → ℕ
  next_rep m h = if h.clt_nonce == j then h.xid_rep else m

  later-IsOnce :
      (m : ℕ) (h : ReqHeader) (w : Window) (executed : List ℕ)
      → IsInTurn m h
      → IsOnce m w executed
      → IsOnce (next_rep m h) w executed
  later-IsOnce m h w executed t k = record {
    bound = grind (arith, k.bound);
    remembered = k.remembered;
    distinct = k.distinct;
  }

  -- The check of a request of this client.
  same_client :
      (m : ℕ) (before : List ℕ) (s : Rpcs) (w : W) (c : Connection) (h : ReqHeader)
      (req : Unmarshall) (f : ℕ) (es : List Effect)
      → h.clt_nonce ≡ j
      → m ≤ h.xid_rep
      → h.xid_rep < h.xid
      → All IsQuiet es
      → IsOnce m (window_of s.windows j) before
      → IsOnceAfter h.xid_rep before (
          checked fn front pad dead
            (checkduplicate_and_update s.windows h.clt_nonce h.xid h.xid_rep)
            s
            w
            c
            h
            req
            f
            es)
  unfolding checkduplicate_and_update noted_as
  same_client m before s w c h req f es e le l q k =
      let k' : IsOnce m (window_of s.windows h.clt_nonce) before = rw e k in
      let (st, w', found, low, known, once) =
        check-IsRemembered (window_of s.windows h.clt_nonce) before h.xid h.xid_rep
          (omega (arith, k'.bound)) l k'.remembered k'.distinct in
      let itself : (h.clt_nonce == j) ≡ true = (==_iff h.clt_nonce j).1 e in
      rw found (
        switch-IsOnceAfter h.xid_rep before st
          (record s { windows = put_back s.windows h.clt_nonce w' }) w c h req f es q
          (rw (window_of-put_back h.clt_nonce j w' s.windows, noted_as, itself)
            (record { bound = low; remembered = known; distinct = once })))

  -- The check of a request of another client.
  other_client :
      (m : ℕ) (before : List ℕ) (s : Rpcs) (w : W) (c : Connection) (h : ReqHeader)
      (req : Unmarshall) (f : ℕ) (es : List Effect)
      → h.clt_nonce ≢ j
      → All IsQuiet es
      → IsOnce m (window_of s.windows j) before
      → IsOnceAfter m before (
          checked fn front pad dead
            (checkduplicate_and_update s.windows h.clt_nonce h.xid h.xid_rep)
            s
            w
            c
            h
            req
            f
            es)
  unfolding checkduplicate_and_update noted_as IsOnceIn
  other_client m before s w c h req f es n q k =
      let other : (h.clt_nonce == j) ≡ false = ground arith in
      elim (Option-cases (check (window_of s.windows h.clt_nonce) h.xid h.xid_rep)) [
        | inl e ↦
            rw e
              (record { no_more = rw (executed_by-IsQuiet j before es q) k.distinct; still = tt })
        | inr ((st, w'), e) ↦ rw e (
            switch-IsOnceAfter m before st
              (record s { windows = put_back s.windows h.clt_nonce w' }) w c h req f es q
              (rw (window_of-put_back h.clt_nonce j w' s.windows, noted_as, other) k))
      ]

  handle-IsOnceAfter :
      (m : ℕ) (before : List ℕ) (s : Rpcs) (w : W) (c : Connection) (h : ReqHeader)
      (req : Unmarshall) (f : ℕ)
      → j ≢ 0
      → IsInTurn m h
      → IsOnce m (window_of s.windows j) before
      → IsOnceAfter (next_rep m h) before (handle fn front pad dead s w c h req f)
  unfolding handle latest_conn
  handle-IsOnceAfter m before s w c h req f n t k =
      let ws = know_client h.clt_nonce s.windows in
      let (conns, es) = latest_conn h.clt_nonce c s.conns in
      let q = replaced-IsQuiet h.clt_nonce c s.conns (lookup h.clt_nonce s.conns) in
      let known : IsOnce m (window_of ws j) before =
        rw (window_of-know_client h.clt_nonce j s.windows) k in
      elim (Bool-cases (h.clt_nonce == 0)) [
        | inl z ↦
            let other : (h.clt_nonce == j) ≡ false = ground arith in
            rw (z, other) (execute-IsOnceAfter m before s w c h req f [] tt (rw other k))
        | inr z ↦ elim (Bool-cases (h.clt_nonce == j)) [
          | inl mine ↦
              let (le, l) = in_turn mine t in
              rw (z, mine)
                (same_client m before (record s { windows = ws; conns = conns }) w c h req f es
                  (ground arith) le l q known)
          | inr other ↦
              rw (z, other)
                (other_client m before (record s { windows = ws; conns = conns }) w c h req f es
                  (ground arith) q known)
        ]
      ]
    where
      in_turn : (h.clt_nonce == j) ≡ true → IsInTurn m h → (m ≤ h.xid_rep) × (h.xid_rep < h.xid)
      in_turn e (inl a) = absurd (a (ground arith))
      in_turn e (inr b) = b

  dispatch-IsOnceAfter :
      (m : ℕ) (before : List ℕ) (s : Rpcs) (w : W) (c : Connection) (buf : Bytes)
      → j ≢ 0
      → IsInTurn m (request_of fn front pad dead buf).0
      → IsOnce m (window_of s.windows j) before
      → IsOnceAfter
          (next_rep m (request_of fn front pad dead buf).0)
          before
          (dispatch fn front pad dead s w c buf)
  unfolding dispatch IsOnceIn executed_by
  dispatch-IsOnceAfter m before s w c buf n t k =
      let (h, req) = request_of fn front pad dead buf in
      let later = later-IsOnce m h (window_of s.windows j) before t k in
      elim (Bool-cases (not req.ok)) [
        | inl e ↦ rw e (quiet-IsOnceAfter (next_rep m h) before s w (decref c ∷ []) (tt, tt) later)
        | inr e ↦ elim (Bool-cases (not (h.srv_nonce == 0) && not (h.srv_nonce == s.nonce))) [
          | inl o ↦ rw (e, o) (quiet-IsOnceAfter (next_rep m h) before s w _ (tt, tt) later)
          | inr o ↦ elim (Option-cases (lookup h.proc s.procs)) [
            | inl u ↦ rw (e, o, u) (record { no_more = later.distinct; still = tt })
            | inr (f, r) ↦ rw (e, o, r) (handle-IsOnceAfter m before s w c h req f n t k)
          ]
        ]
      ]

  -- Each request of the client in the list is in turn.
  abbrev pub AllInTurn : ℕ → List (Connection × Bytes) → Type 0
  AllInTurn m [] = Unit
  AllInTurn m ((c, buf) ∷ rest) =
      let h = (request_of fn front pad dead buf).0 in IsInTurn m h × AllInTurn (next_rep m h) rest

  serve-AllDistinct :
      (m : ℕ) (before : List ℕ) (at : Option (Rpcs × W)) (requests : List (Connection × Bytes))
      → j ≢ 0
      → AllInTurn m requests
      → AllDistinct before
      → IsOnceIn m at before
      → AllDistinct (executed_by j before (serve fn front pad dead at requests))
  unfolding serve IsOnceIn executed_by
  serve-AllDistinct m before none requests n t d k = d
  serve-AllDistinct m before (some (s, w)) [] n t d k = d
  serve-AllDistinct m before (some (s, w)) ((c, buf) ∷ rest) n t d k =
      let (es, after) = dispatch fn front pad dead s w c buf in
      let a = dispatch-IsOnceAfter m before s w c buf n t.0 k in
      rw (executed_by-append j before es (serve fn front pad dead after rest)) (
        serve-AllDistinct (next_rep m (request_of fn front pad dead buf).0)
          (executed_by j before es) after rest n t.1 a.no_more a.still)

  -- At-most-once execution by the server: it starts with no window of any client and dispatches any
  -- requests, of any clients and with any duplicates, from any connections. If those of the client
  -- with the nonce j, which is not 0, arrive in an order in which its xid_rep does not fall, and
  -- each xid is above the xid_rep sent with it, then no handler is called twice for the same xid of
  -- that client, whatever procedures are registered and whatever the handlers return.
  pub at_most_once_served :
      (s : Rpcs) (w : W) (requests : List (Connection × Bytes))
      → j ≢ 0
      → s.windows ≡ no_windows
      → AllInTurn 0 requests
      → AllDistinct (executed_by j [] (serve fn front pad dead (some (s, w)) requests))
  unfolding IsOnceIn at_or lookup
  at_most_once_served s w requests n e t = serve-AllDistinct 0 [] (some (s, w)) requests n t tt (
      rw e (record {
        bound = omega arith;
        remembered = record { covered = tt; started_any = λ z. refl };
        distinct = tt;
      }))
