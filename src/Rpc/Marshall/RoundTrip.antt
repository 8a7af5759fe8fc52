-- ===== src/Rpc/Marshall/RoundTrip.antt =====
-- What is marshalled is what is unmarshalled, and the buffer is never too small.
use mathlib.Core.List.{append_assoc, append-nil}
use cse_yet_another_file_sys.Base.{
  ℕ, ◌+◌, ◌≤◌, ◌≡◌, refl, true, false, ◌^◌, length-append, Option, none, some, List, [], ◌∷◌, ◌++◌,
  Bytes, length, All, arith,
}
use cse_yet_another_file_sys.Rpc.Marshall.{
  Marshall, start, put_u16, put_u32, put_u64, put_string, Unmarshall, okdone,
}
use cse_yet_another_file_sys.Rpc.Marshall.Wire.{
  Value, u8, u16, u32, u64, text, Kind, kind_of, Fits, put, get, at, bytes_of, content-put, HasRoom,
  byte-HasRoom, bytes-HasRoom, get-bytes_of, HasFree, HasFree-same, put-HasFree,
}

unfoldable pub put_all : ℕ → Marshall → List Value → Marshall
put_all header m [] = m
put_all header m (v ∷ vs) = put_all header (put header m v) vs

unfoldable pub get_all : List Kind → Unmarshall → Option (List Value × Unmarshall)
get_all [] u = some ([], u)
get_all (k ∷ ks) u = elim (get k u) [
  | none ↦ none
  | some (v, u') ↦ elim (get_all ks u') [ none ↦ none | some (vs, u'') ↦ some (v ∷ vs, u'') ]
]

abbrev pub all_bytes : List Value → Bytes
all_bytes [] = []
all_bytes (v ∷ vs) = bytes_of v ++ all_bytes vs

pub content-put_all :
    (header : ℕ) (m : Marshall) (vs : List Value)
    → (put_all header m vs).content ≡ m.content ++ all_bytes vs
unfolding put_all
content-put_all header m [] = rw (append-nil m.content) refl
content-put_all header m (v ∷ vs) =
    rw (content-put_all header (put header m v) vs, content-put header m v, append_assoc) refl

put-HasRoom :
    (header : ℕ) (m : Marshall) (v : Value) → HasRoom header m → HasRoom header (put header m v)
unfolding put put_u16 put_u32 put_u64 put_string
put-HasRoom header m (u8 x) h = search byte-HasRoom depth 12
put-HasRoom header m (u16 x) h = search byte-HasRoom depth 12
put-HasRoom header m (u32 x) h = search byte-HasRoom depth 12
put-HasRoom header m (u64 x) h = search byte-HasRoom depth 12
put-HasRoom header m (text s) h = search (byte-HasRoom, bytes-HasRoom) depth 12

abbrev pub kinds : List Value → List Kind
kinds [] = []
kinds (v ∷ vs) = kind_of v ∷ kinds vs

pub get_all-bytes :
    (i : ℕ) (vs : List Value)
    → All Fits vs
    → (j : ℕ) × (get_all (kinds vs) (at i (all_bytes vs)) ≡ some (vs, at j []))
unfolding get_all
get_all-bytes i [] h = (i, refl)
get_all-bytes i (v ∷ vs) h =
    let (j, e) = get_all-bytes (i + length (bytes_of v)) vs h.1 in
    (j, rw (get_all, get-bytes_of i v (all_bytes vs) h.0, e) refl)

put_all-HasRoom :
    (header : ℕ) (m : Marshall) (vs : List Value)
    → HasRoom header m
    → HasRoom header (put_all header m vs)
unfolding put_all
put_all-HasRoom header m [] h = h
put_all-HasRoom header m (v ∷ vs) h =
    put_all-HasRoom header (put header m v) vs (put-HasRoom header m v h)

put_all-HasFree :
    (header : ℕ) (m : Marshall) (vs : List Value) (n : ℕ)
    → HasFree header m (length (all_bytes vs) + n)
    → HasFree header (put_all header m vs) n
unfolding put_all
put_all-HasFree header m [] n h = HasFree-same header m _ n (omega arith) h
put_all-HasFree header m (v ∷ vs) n h =
    let e : length (all_bytes (v ∷ vs)) + n ≡ length (bytes_of v) + (length (all_bytes vs) + n) =
      omega (arith, length-append (bytes_of v) (all_bytes vs)) in
    put_all-HasFree header (put header m v) vs n
      (put-HasFree header m v _ (HasFree-same header m _ _ e h))

pub start-HasFree : (header n : ℕ) → header + n ≤ 2 ^ 29 → HasFree header start n
start-HasFree header n h = record { safe = refl; capacity = omega arith; below = omega arith }

-- No int overflows where all is at most half a gigabyte.
pub put_all-safe :
    (header : ℕ) (vs : List Value)
    → header + length (all_bytes vs) ≤ 2 ^ 29
    → (put_all header start vs).overflowed ≡ false
put_all-safe header vs h =
    let room = start-HasFree header (length (all_bytes vs) + 0) (omega arith) in
    (put_all-HasFree header start vs 0 room).safe

-- Values that are marshalled behind a header of at most 1024 bytes fit into the buffer, however
-- often it has to grow, and unmarshalling their kinds in the same order gives the same values, with
-- all bytes read. Integers have their 8, 16, 32 or 64 bits, and the header and the bytes of all values
-- are half a gigabyte at most, so that no int of the buffer overflows.
pub get_all-put_all :
    (header : ℕ) (vs : List Value)
    → header ≤ 1024
    → All Fits vs
    → header + length (all_bytes vs) ≤ 2 ^ 29
    → HasRoom header (put_all header start vs)
      × ((put_all header start vs).overflowed ≡ false)
      × (u : Unmarshall) × (get_all (kinds vs) (at header (put_all header start vs).content)
          ≡ some (vs, u))
      × (okdone u ≡ true)
get_all-put_all header vs small h little =
    let (j, e) = get_all-bytes header vs h in
    (
      put_all-HasRoom header start vs (ground arith),
      put_all-safe header vs little,
      at j [],
      rw (content-put_all header start vs) e,
      unfold okdone in refl,
    )
