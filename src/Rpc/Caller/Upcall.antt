-- ===== src/Rpc/Caller/Upcall.antt =====
-- rpcc::got_pdu and rpcc::cancel (rpc/rpc.cc): what ends the wait of a caller.
use cse_yet_another_file_sys.Base.{
  ℕ, ◌+◌, ◌^◌, ◌<◌, ◌≡◌, refl, Bool, true, false, not, Option, none, some, List, [], ◌∷◌, Bytes,
  ◌==◌, arith, ==_iff, if◌then◌else◌, length, Map, lookup, insert, lookup-insert, Bool-cases, inl,
  inr,
}
use cse_yet_another_file_sys.Rpc.Marshall.Header.{
  ReplyHeader, unpack_reply_header, pack_reply_header, message, unpack-pack_reply,
}
use cse_yet_another_file_sys.Rpc.XidWindow.{update_xid_rep}
use cse_yet_another_file_sys.Rpc.XidWindow.Place.{update-some}
use cse_yet_another_file_sys.Rpc.Caller.{Rpcc, Pending, cancel_failure}

-- A reply for the caller; only the first counts.
abbrev pub answered : ReplyHeader → Bytes → Pending → Pending
answered h content ca = if ca.done then ca else record { done = true; intret = h.ret; un = content }

abbrev deliver : ReplyHeader → Bytes → Option Pending → Rpcc → Rpcc
deliver h content none s = s
deliver h content (some ca) s = record s { calls = insert h.xid (answered h content ca) s.calls }

abbrev received : ReplyHeader → Bytes → Rpcc → Option (List ℕ) → Option Rpcc
received h content s none = none
received h content s (some window) =
    some (deliver h content (lookup h.xid s.calls) (record s { xid_rep_window = window }))

-- A message of which the header does not unmarshal is dropped. `room` and `header` are where the
-- header begins and where the content does.
unfoldable pub got_pdu : ℕ → ℕ → Bytes → Rpcc → Option Rpcc
got_pdu room header b s =
    let (h, rep) = unpack_reply_header room header b in
    if not rep.ok then some s else received h rep.rest s (update_xid_rep s.xid_rep_window h.xid)

abbrev pub cancelled : Pending → Pending
cancelled ca = record ca { done = true; intret = cancel_failure }

abbrev cancel_each : Map Pending → Map Pending
cancel_each [] = []
cancel_each ((x, ca) ∷ calls) = (x, cancelled ca) ∷ cancel_each calls

abbrev is_empty : Map Pending → Bool
is_empty [] = true
is_empty (c ∷ calls) = false

-- What cancel does before it waits for the calls to end.
unfoldable pub cancel : Rpcc → Rpcc
cancel s = record s {
  calls = cancel_each s.calls;
  destroy_wait = if is_empty s.calls then s.destroy_wait else true;
}

abbrev pub once : Bool → Pending → Pending → Pending
once true old reply = old
once false old reply = reply

-- What becomes of the caller of a reply, if there is one: it takes the reply, unless it is done.
abbrev pub to_caller : ReplyHeader → Bytes → Option Pending → Option Pending
to_caller h content none = none
to_caller h content (some ca) =
    some (once ca.done ca (record { done = true; intret = h.ret; un = content }))

answered-to_caller :
    (h : ReplyHeader) (content : Bytes) (ca : Pending)
    → some (answered h content ca) ≡ to_caller h content (some ca)
answered-to_caller h content ca = ground arith

deliver-lookup :
    (h : ReplyHeader) (content : Bytes) (s : Rpcc) (j : ℕ) (o : Option Pending)
    → lookup h.xid s.calls ≡ o
    → lookup j (deliver h content o s).calls
      ≡ (if h.xid == j then to_caller h content (lookup j s.calls) else lookup j s.calls)
deliver-lookup h content s j none e = elim (Bool-cases (h.xid == j)) [
  | inl same ↦
      let here : lookup j s.calls ≡ none = rw ((==_iff h.xid j).0 same) at e in rw (same, here) refl
  | inr other ↦ rw other refl
]
deliver-lookup h content s j (some ca) e = elim (Bool-cases (h.xid == j)) [
  | inl same ↦
      let here : lookup j s.calls ≡ some ca = rw ((==_iff h.xid j).0 same) at e in
      rw (lookup-insert h.xid j (answered h content ca) s.calls, same, here)
        (answered-to_caller h content ca)
  | inr other ↦ rw (lookup-insert h.xid j (answered h content ca) s.calls, other) refl
]

-- A reply that the server has packed, of 32-bit fields, is taken by the caller of its xid, if there
-- is one and it has no reply yet: it gets the reply's ret and content. A caller that has a reply
-- or was cancelled, and those of other xids, are left as they are.
pub got_pdu_lem :
    (front pad content : Bytes) (header f j : ℕ) (rest : List ℕ) (h : ReplyHeader) (s : Rpcc)
    → h.xid < 2 ^ 32
    → h.ret < 2 ^ 32
    → length front + 8 + length pad ≡ header
    → s.xid_rep_window ≡ f ∷ rest
    → (s' : Rpcc) × (got_pdu
          (length front)
          header
          (message front pad content header (pack_reply_header h))
          s
        ≡ some s')
      × (lookup j s'.calls
          ≡ (if h.xid == j then to_caller h content (lookup j s.calls) else lookup j s.calls))
unfolding got_pdu
got_pdu_lem front pad content header f j rest h s fits_xid fits_ret e w =
    let (window, updated) = update-some f h.xid rest in
    let s1 = record s { xid_rep_window = window } in
    (
      deliver h content (lookup h.xid s.calls) s1,
      rw (unpack-pack_reply front pad content header h fits_xid fits_ret e, w, updated) refl,
      deliver-lookup h content s1 j (lookup h.xid s.calls) refl,
    )
