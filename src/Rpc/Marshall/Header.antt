-- ===== src/Rpc/Marshall/Header.antt =====
-- The headers of requests and replies in rpc/marshall.h. A header lies in front of the content, in
-- room that the buffer keeps for it behind the size and the checksum.
use mathlib.Core.List.{append_assoc}
use cse_yet_another_file_sys.Base.{
  ℕ, ◌+◌, ◌^◌, ◌<◌, ◌≡◌, refl, ap, ◌++◌, Bytes, length, length-append, drop, drop-append, true,
  arith,
}
use cse_yet_another_file_sys.Rpc.Marshall.{Unmarshall, get_u32}
use cse_yet_another_file_sys.Rpc.Marshall.Wire.{four, at, get_u32-four}

pub record ReqHeader : Type 0 where
  pub xid : ℕ
  pub proc : ℕ
  pub clt_nonce : ℕ
  pub srv_nonce : ℕ
  pub xid_rep : ℕ

pub record ReplyHeader : Type 0 where
  pub xid : ℕ
  pub ret : ℕ

-- The bytes of marshall::pack, most significant first.
abbrev pub pack : ℕ → Bytes
pack x = four x

abbrev pub pack_req_header : ReqHeader → Bytes
pack_req_header h =
    pack h.xid ++ pack h.proc ++ pack h.clt_nonce ++ pack h.srv_nonce ++ pack h.xid_rep

abbrev pub pack_reply_header : ReplyHeader → Bytes
pack_reply_header h = pack h.xid ++ pack h.ret

-- unmarshall::unpack reads as the operator for int does.
unfoldable pub unpack : Unmarshall → ℕ × Unmarshall
unpack u = get_u32 u

-- The message from byte `i` on.
abbrev pub from : ℕ → Bytes → Unmarshall
from i buf = record { ind = i; rest = drop i buf; ok = true }

-- The header is read from `room` on, behind the size and the checksum; the content begins at
-- `header`, RPC_HEADER_SZ. `buf` is the whole message, of which nothing was read before.
unfoldable pub unpack_req_header : ℕ → ℕ → Bytes → ReqHeader × Unmarshall
unpack_req_header room header buf =
    let (x, u1) = unpack (from room buf) in
    let (p, u2) = unpack u1 in
    let (c, u3) = unpack u2 in
    let (s, u4) = unpack u3 in
    let (r, u5) = unpack u4 in
    (
      record { xid = x; proc = p; clt_nonce = c; srv_nonce = s; xid_rep = r },
      record u5 { ind = header; rest = drop header buf },
    )

unfoldable pub unpack_reply_header : ℕ → ℕ → Bytes → ReplyHeader × Unmarshall
unpack_reply_header room header buf =
    let (x, u1) = unpack (from room buf) in
    let (r, u2) = unpack u1 in
    (record { xid = x; ret = r }, record u2 { ind = header; rest = drop header buf })

-- Each field is an integer of 32 bits.
pub record FitsReq (h : ReqHeader) : Type 0 where
  pub xid : h.xid < 2 ^ 32
  pub proc : h.proc < 2 ^ 32
  pub clt_nonce : h.clt_nonce < 2 ^ 32
  pub srv_nonce : h.srv_nonce < 2 ^ 32
  pub xid_rep : h.xid_rep < 2 ^ 32

unpack-four :
    (i x : ℕ) (rest : Bytes) → x < 2 ^ 32 → unpack (at i (four x ++ rest)) ≡ (x, at (i + 4) rest)
unfolding unpack
unpack-four i x rest h = get_u32-four i x rest h

module _ (front pad content : Bytes) (header : ℕ) where
  -- A message with a header between `front` and `pad`.
  abbrev pub message : Bytes → Bytes
  message fields = front ++ (fields ++ (pad ++ content))

  at-front :
      (fields : Bytes)
      → from (length front) (message fields) ≡ at (length front) (fields ++ (pad ++ content))
  at-front fields =
      ap (λ t. at (length front) t)
        (drop-append (length front) front (fields ++ (pad ++ content)) refl)

  at-content :
      (fields : Bytes)
      → length front + length fields + length pad ≡ header
      → drop header (message fields) ≡ content
  at-content fields e =
      let whole : message fields ≡ ((front ++ fields) ++ pad) ++ content = simp append_assoc in
      let size : length ((front ++ fields) ++ pad) ≡ header =
        omega (arith, length-append (front ++ fields) pad, length-append front fields) in
      rw whole (drop-append header ((front ++ fields) ++ pad) content size)

  -- Unpacking a request header of 32-bit fields, which lies behind the bytes `front` and is padded
  -- to `header` bytes, gives the fields that were packed and stands at the content behind it.
  pub unpack-pack :
      (h : ReqHeader)
      → FitsReq h
      → length front + 20 + length pad ≡ header
      → unpack_req_header (length front) header (message (pack_req_header h))
        ≡ (h, at header content)
  unfolding unpack_req_header
  unpack-pack h f e =
      let i = length front in
      let more = pad ++ content in
      rw
        (
          at-front (pack_req_header h),
          unpack-four i h.xid
              (pack h.proc ++ pack h.clt_nonce ++ pack h.srv_nonce ++ pack h.xid_rep ++ more) f.xid,
          unpack-four (i + 4) h.proc
              (pack h.clt_nonce ++ pack h.srv_nonce ++ pack h.xid_rep ++ more) f.proc,
          unpack-four (i + 4 + 4) h.clt_nonce (pack h.srv_nonce ++ pack h.xid_rep ++ more)
              f.clt_nonce,
          unpack-four (i + 4 + 4 + 4) h.srv_nonce (pack h.xid_rep ++ more) f.srv_nonce,
          unpack-four (i + 4 + 4 + 4 + 4) h.xid_rep more f.xid_rep,
          at-content (pack_req_header h) e,
        )
        refl

  -- Unpacking a reply header of 32-bit fields, which lies behind the bytes `front` and is padded to
  -- `header` bytes, gives the fields that were packed and stands at the content behind it.
  pub unpack-pack_reply :
      (h : ReplyHeader)
      → h.xid < 2 ^ 32
      → h.ret < 2 ^ 32
      → length front + 8 + length pad ≡ header
      → unpack_reply_header (length front) header (message (pack_reply_header h))
        ≡ (h, at header content)
  unfolding unpack_reply_header
  unpack-pack_reply h x r e =
      rw
        (
          at-front (pack_reply_header h),
          unpack-four (length front) h.xid (pack h.ret ++ pad ++ content) x,
          unpack-four (length front + 4) h.ret (pad ++ content) r,
          at-content (pack_reply_header h) e,
        )
        refl
