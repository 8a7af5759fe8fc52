-- ===== src/Rpc/Marshall/Wire.antt =====
-- One value: its bytes, what reading them gives, and the room for them.
use mathlib.Core.Path.{subst}
use mathlib.Core.List.{append_assoc}
use cse_yet_another_file_sys.Base.{
  ℕ, suc, ◌+◌, ◌*◌, ◌/◌, ◌%◌, ◌^◌, ◌≤◌, ◌<◌, ◌≡◌, refl, ap, true, false, Option, none, some, [],
  ◌∷◌, ◌++◌, Bytes, ltb, length, length-append, take-append, drop-append, arith,
}
use cse_yet_another_file_sys.Rpc.Marshall.{
  Marshall, extend, ind, put_byte, put_bytes, put_u16, put_u32, put_u64, put_string, Unmarshall,
  get_byte, get_u8, get_u16, get_u32, get_u64, get_bytes, get_string,
}

-- A value that an RPC passes: a byte, an integer of 16, 32 or 64 bits, or a string.
pub data Value : Type 0 where
  u8 u16 u32 u64 : ℕ → Value
  text : Bytes → Value

abbrev pub Fits : Value → Type 0
Fits (u8 x) = x < 2 ^ 8
Fits (u16 x) = x < 2 ^ 16
Fits (u32 x) = x < 2 ^ 32
Fits (u64 x) = x < 2 ^ 64
Fits (text s) = length s < 2 ^ 32

abbrev pub four : ℕ → Bytes
four x = x / 2 ^ 24 % 256 ∷ x / 2 ^ 16 % 256 ∷ x / 2 ^ 8 % 256 ∷ x % 256 ∷ []

pub data Kind : Type 0 where
  byte short int long_long string : Kind

abbrev pub kind_of : Value → Kind
kind_of (u8 x) = byte
kind_of (u16 x) = short
kind_of (u32 x) = int
kind_of (u64 x) = long_long
kind_of (text s) = string

-- `m << v`
unfoldable pub put : ℕ → Marshall → Value → Marshall
unfolding put_byte put_u16 put_u32 put_u64 put_string
put header m (u8 x) = put_byte header m x
put header m (u16 x) = put_u16 header m x
put header m (u32 x) = put_u32 header m x
put header m (u64 x) = put_u64 header m x
put header m (text s) = put_string header m s

abbrev pub bytes_of : Value → Bytes
bytes_of (u8 x) = x % 256 ∷ []
bytes_of (u16 x) = x / 2 ^ 8 % 256 ∷ x % 256 ∷ []
bytes_of (u32 x) = four x
bytes_of (u64 x) = four (x / 2 ^ 32) ++ four (x % 2 ^ 32)
bytes_of (text s) = four (length s % 2 ^ 32) ++ s

pub content-put :
    (header : ℕ) (m : Marshall) (v : Value) → (put header m v).content ≡ m.content ++ bytes_of v
unfolding put put_bytes
content-put header m (u8 x) = refl
content-put header m (u16 x) = simp append_assoc
content-put header m (u32 x) = simp append_assoc
content-put header m (u64 x) = simp append_assoc
content-put header m (text s) = simp append_assoc

-- The room in the buffer holds what was written.
abbrev pub HasRoom : ℕ → Marshall → Type 0
HasRoom header m = (ind header m ≤ m.capa) × (0 < m.capa)

pub byte-HasRoom :
    (header : ℕ) (m : Marshall) (x : ℕ) → HasRoom header m → HasRoom header (put_byte header m x)
unfolding put_byte
byte-HasRoom header m x h = ground (arith, length-append m.content (x % 256 ∷ []))

pub bytes-HasRoom :
    (header : ℕ) (m : Marshall) (p : Bytes)
    → HasRoom header m
    → HasRoom header (put_bytes header m p)
unfolding put_bytes
bytes-HasRoom header m p h = ground (arith, length-append m.content p)

-- Nothing has overflowed, and `n` more bytes do not make it overflow: the buffer is then at most half
-- a gigabyte.
pub record HasFree (header : ℕ) (m : Marshall) (n : ℕ) : Type 0 where
  pub safe : m.overflowed ≡ false
  pub capacity : m.capa ≤ 1024 + 2 * ind header m
  pub below : ind header m + n ≤ 2 ^ 29

pub HasFree-same :
    (header : ℕ) (m : Marshall) (n n' : ℕ) → n ≡ n' → HasFree header m n → HasFree header m n'
HasFree-same header m n n' e h = subst (HasFree header m) e h

pub byte-HasFree :
    (header : ℕ) (m : Marshall) (x n : ℕ)
    → HasFree header m (suc n)
    → HasFree header (put_byte header m x) n
unfolding put_byte
byte-HasFree header m x n h =
    let longer = length-append m.content (x % 256 ∷ []) in
    record {
      safe = ground (arith, h.safe, h.capacity, h.below);
      capacity = ground (arith, h.capacity, longer);
      below = omega (arith, h.below, longer);
    }

pub bytes-HasFree :
    (header : ℕ) (m : Marshall) (p : Bytes) (n : ℕ)
    → HasFree header m (length p + n)
    → HasFree header (put_bytes header m p) n
unfolding put_bytes
bytes-HasFree header m p n h =
    let longer = length-append m.content p in
    record {
      safe = ground (arith, h.safe, h.capacity, h.below);
      capacity = ground (arith, h.capacity, longer);
      below = omega (arith, h.below, longer);
    }

pub u32-HasFree :
    (header : ℕ) (m : Marshall) (x n : ℕ)
    → HasFree header m (4 + n)
    → HasFree header (put_u32 header m x) n
unfolding put_u32
u32-HasFree header m x n h =
    let e : 4 + n ≡ suc (suc (suc (suc n))) = omega arith in
    let start = HasFree-same header m _ _ e h in
    byte-HasFree header _ x n (
      byte-HasFree header _ (x / 2 ^ 8) _
        (byte-HasFree header _ (x / 2 ^ 16) _ (byte-HasFree header m (x / 2 ^ 24) _ start)))

pub put-HasFree :
    (header : ℕ) (m : Marshall) (v : Value) (n : ℕ)
    → HasFree header m (length (bytes_of v) + n)
    → HasFree header (put header m v) n
unfolding put put_u16 put_u64 put_string
put-HasFree header m (u8 x) n h =
    let e : length (bytes_of (u8 x)) + n ≡ suc n = omega arith in
    byte-HasFree header m x n (HasFree-same header m _ _ e h)
put-HasFree header m (u16 x) n h =
    let e : length (bytes_of (u16 x)) + n ≡ suc (suc n) = omega arith in
    byte-HasFree header _ x n (byte-HasFree header m (x / 2 ^ 8) _ (HasFree-same header m _ _ e h))
put-HasFree header m (u32 x) n h = u32-HasFree header m x n h
put-HasFree header m (u64 x) n h =
    let e : length (bytes_of (u64 x)) + n ≡ 4 + (4 + n) = omega arith in
    u32-HasFree header _ (x % 2 ^ 32) n
      (u32-HasFree header m (x / 2 ^ 32) _ (HasFree-same header m _ _ e h))
put-HasFree header m (text s) n h =
    let e : length (bytes_of (text s)) + n ≡ 4 + (length s + n) = omega arith in
    bytes-HasFree header _ s n
      (u32-HasFree header m (length s % 2 ^ 32) _ (HasFree-same header m _ _ e h))

low : (c : ℕ) → extend (c % 256) % 256 ≡ c % 256
low c = ground arith

four-joined :
    (x : ℕ)
    → x < 2 ^ 32
    → x / 2 ^ 24 % 256 * 2 ^ 24 + x / 2 ^ 16 % 256 * 2 ^ 16 + x / 2 ^ 8 % 256 * 2 ^ 8 + x % 256 ≡ x
four-joined x h = omega arith

abbrev pub at : ℕ → Bytes → Unmarshall
at i rest = record { ind = i; rest = rest; ok = true }

pub get_u32-four :
    (i x : ℕ) (rest : Bytes) → x < 2 ^ 32 → get_u32 (at i (four x ++ rest)) ≡ (x, at (i + 4) rest)
unfolding get_u32
get_u32-four i x rest h =
    let there : i + 1 + 1 + 1 + 1 ≡ i + 4 = omega arith in
    rw (low (x / 2 ^ 24), low (x / 2 ^ 16), low (x / 2 ^ 8), low x, four-joined x h, there) refl

abbrev number : (ℕ → Value) → ℕ × Unmarshall → Option (Value × Unmarshall)
number f (x, u) = some (f x, u)

-- A string that cannot be read stays as it was made: empty.
abbrev string_value : Option (Option Bytes × Unmarshall) → Option (Value × Unmarshall)
string_value none = none
string_value (some (none, u)) = some (text [], u)
string_value (some (some s, u)) = some (text s, u)

-- `u >> v`, for a `v` of that kind.
unfoldable pub get : Kind → Unmarshall → Option (Value × Unmarshall)
unfolding get_byte get_u8 get_u16 get_u32 get_u64 get_string
get byte u = number u8 (get_u8 u)
get short u = number u16 (get_u16 u)
get int u = number u32 (get_u32 u)
get long_long u = number u64 (get_u64 u)
get string u = string_value (get_string u)

string-found :
    (i : ℕ) (s rest : Bytes)
    → get_bytes (at i (s ++ rest)) (length s) ≡ some (some s, at (i + length s) rest)
unfolding get_bytes
string-found i s rest =
    let room : ltb (i + length (s ++ rest)) ((i + length s) % 2 ^ 32) ≡ false =
      ground (arith, length-append s rest) in
    let all : ltb (length (s ++ rest)) (length s) ≡ false = ground (arith, length-append s rest) in
    rw (room, all, take-append (length s) s rest refl, drop-append (length s) s rest refl) refl

pub text-read :
    (i : ℕ) (s rest : Bytes)
    → length s < 2 ^ 32
    → get_string (at i (bytes_of (text s) ++ rest))
      ≡ some (some s, at (i + length (bytes_of (text s))) rest)
unfolding get_string
text-read i s rest h =
    let small : length s % 2 ^ 32 ≡ length s = omega arith in
    let place : i + 4 + length s ≡ i + length (bytes_of (text s)) = omega arith in
    rw (small, get_u32-four i (length s) (s ++ rest) h, string-found (i + 4) s rest, place) refl

pub long-read :
    (i x : ℕ) (rest : Bytes)
    → x < 2 ^ 64
    → get_u64 (at i (bytes_of (u64 x) ++ rest)) ≡ (x, at (i + 8) rest)
unfolding get_u64
long-read i x rest h =
    let whole : x % 2 ^ 32 + x / 2 ^ 32 * 2 ^ 32 ≡ x = omega arith in
    let place : i + 4 + 4 ≡ i + 8 = omega arith in
    rw
      (
        get_u32-four i (x / 2 ^ 32) (four (x % 2 ^ 32) ++ rest) (omega arith),
        get_u32-four (i + 4) (x % 2 ^ 32) rest (omega arith),
        whole,
        place,
      )
      refl

short-read :
    (i x : ℕ) (rest : Bytes)
    → x < 2 ^ 16
    → get_u16 (at i (bytes_of (u16 x) ++ rest)) ≡ (x, at (i + 2) rest)
unfolding get_u16
short-read i x rest h =
    let whole : x / 2 ^ 8 % 256 * 2 ^ 8 + x % 256 ≡ x = omega arith in
    let place : i + 1 + 1 ≡ i + 2 = omega arith in rw (low (x / 2 ^ 8), low x, whole, place) refl

byte-read :
    (i x : ℕ) (rest : Bytes) → x < 2 ^ 8 → get_u8 (at i (x % 256 ∷ rest)) ≡ (x, at (i + 1) rest)
unfolding get_u8
byte-read i x rest h = let same : x % 256 ≡ x = omega arith in rw (low x, same) refl

pub get-bytes_of :
    (i : ℕ) (v : Value) (rest : Bytes)
    → Fits v
    → get (kind_of v) (at i (bytes_of v ++ rest)) ≡ some (v, at (i + length (bytes_of v)) rest)
unfolding get
get-bytes_of i (u8 x) rest h = ap (number u8) (byte-read i x rest h)
get-bytes_of i (u16 x) rest h = ap (number u16) (short-read i x rest h)
get-bytes_of i (u32 x) rest h = ap (number u32) (get_u32-four i x rest h)
get-bytes_of i (u64 x) rest h = ap (number u64) (long-read i x rest h)
get-bytes_of i (text s) rest h = ap string_value (text-read i s rest h)
