-- ===== src/Rpc/Marshall.antt =====
-- marshall and unmarshall of rpc/marshall.h and rpc/rpc.cc, without the header of the buffer. A
-- signed number goes as the bits of the unsigned one.
pub mod Wire
pub mod RoundTrip
pub mod Header
pub mod Containers
use cse_yet_another_file_sys.Base.{
  ℕ, ◌+◌, ◌*◌, ◌/◌, ◌%◌, ◌-◌, ◌^◌, Bool, true, false, not, ◌||◌, Option, none, some, List, [], ◌∷◌,
  ◌++◌, Bytes, ltb, leb, ◌==◌, if◌then◌else◌, length, take, drop,
}

-- The bytes behind the header, and the room in the buffer; `header` is RPC_HEADER_SZ. `_ind`, `_capa`
-- and the length of a piece are of type int: `overflowed` says that one of them would have been 2 ^ 31
-- or more, after which the code's behaviour is undefined and the other fields mean nothing.
pub record Marshall : Type 0 where
  pub content : Bytes
  pub capa : ℕ
  pub overflowed : Bool

abbrev pub start : Marshall
start = record { content = []; capa = 1024; overflowed = false }

abbrev pub is_over : ℕ → Bool
is_over n = leb (2 ^ 31) n

module _ (header : ℕ) where
  -- `_ind`
  abbrev pub ind : Marshall → ℕ
  ind m = header + length m.content

  abbrev pub grown_byte : Marshall → ℕ
  grown_byte m = if leb m.capa (ind m) then m.capa * 2 else m.capa

  unfoldable pub put_byte : Marshall → ℕ → Marshall
  put_byte m x = record {
    content = m.content ++ x % 256 ∷ [];
    capa = grown_byte m;
    overflowed = m.overflowed || is_over (grown_byte m) || is_over (ind m + 1);
  }

  abbrev pub grown_bytes : Marshall → ℕ → ℕ
  grown_bytes m n =
      if ltb m.capa (ind m + n) then (if ltb n m.capa then 2 * m.capa else m.capa + n) else m.capa

  unfoldable pub put_bytes : Marshall → Bytes → Marshall
  put_bytes m p = record {
    content = m.content ++ p;
    capa = grown_bytes m (length p);
    overflowed = m.overflowed || is_over (grown_bytes m (length p)) || is_over (ind m + length p);
  }

  unfoldable pub put_u16 : Marshall → ℕ → Marshall
  unfolding put_byte
  put_u16 m x = put_byte (put_byte m (x / 2 ^ 8)) x

  unfoldable pub put_u32 : Marshall → ℕ → Marshall
  unfolding put_byte
  put_u32 m x = put_byte (put_byte (put_byte (put_byte m (x / 2 ^ 24)) (x / 2 ^ 16)) (x / 2 ^ 8)) x

  unfoldable pub put_u64 : Marshall → ℕ → Marshall
  unfolding put_u32
  put_u64 m x = put_u32 (put_u32 m (x / 2 ^ 32)) (x % 2 ^ 32)

  unfoldable pub put_string : Marshall → Bytes → Marshall
  unfolding put_u32 put_bytes
  put_string m s = put_bytes (put_u32 m (length s % 2 ^ 32)) s

-- What is left to read, behind the first `ind` bytes of the buffer.
pub record Unmarshall : Type 0 where
  pub ind : ℕ
  pub rest : Bytes
  pub ok : Bool

-- A byte read as `char`, which is signed, and returned as unsigned int.
abbrev pub extend : ℕ → ℕ
extend c = if ltb c 128 then c else c + 2 ^ 32 - 256

abbrev read_byte : Unmarshall → Bytes → ℕ × Unmarshall
read_byte u [] = (0, record u { ok = false })
read_byte u (c ∷ rest) = (extend c, record u { ind = u.ind + 1; rest = rest })

unfoldable pub get_byte : Unmarshall → ℕ × Unmarshall
get_byte u = read_byte u u.rest

unfoldable pub get_u8 : Unmarshall → ℕ × Unmarshall
unfolding get_byte
get_u8 u = let (a, u1) = get_byte u in (a % 256, u1)

-- The pieces that the code puts together with | have no bit in common, so | is a sum.
unfoldable pub get_u16 : Unmarshall → ℕ × Unmarshall
unfolding get_byte
get_u16 u = let (a, u1) = get_byte u in let (b, u2) = get_byte u1 in (a % 256 * 2 ^ 8 + b % 256, u2)

unfoldable pub get_u32 : Unmarshall → ℕ × Unmarshall
unfolding get_byte
get_u32 u =
    let (a, u1) = get_byte u in
    let (b, u2) = get_byte u1 in
    let (c, u3) = get_byte u2 in
    let (e, u4) = get_byte u3 in
    (a % 256 * 2 ^ 24 + b % 256 * 2 ^ 16 + c % 256 * 2 ^ 8 + e % 256, u4)

unfoldable pub get_u64 : Unmarshall → ℕ × Unmarshall
get_u64 u = let (h, u1) = get_u32 u in let (l, u2) = get_u32 u1 in (l + h * 2 ^ 32, u2)

-- `_ind + n` is an unsigned int, so the test can pass where the buffer is too short; what is read
-- then is undefined: `none`.
unfoldable pub get_bytes : Unmarshall → ℕ → Option (Option Bytes × Unmarshall)
get_bytes u n =
    if ltb (u.ind + length u.rest) ((u.ind + n) % 2 ^ 32)
    then some (none, record u { ok = false })
    else if ltb (length u.rest) n
    then none
    else some (some (take n u.rest), record u { ind = u.ind + n; rest = drop n u.rest })

-- `none` inside: the string that was passed in stays as it was.
unfoldable pub get_string : Unmarshall → Option (Option Bytes × Unmarshall)
get_string u = let (n, u1) = get_u32 u in if u1.ok then get_bytes u1 n else some (none, u1)

-- unmarshall::okdone
unfoldable pub okdone : Unmarshall → Bool
okdone u = if u.ok then length u.rest == 0 else false
