-- ===== src/Yfs/Numbers.antt =====
-- yfs_client::filename and yfs_client::n2i, by which directories name i-numbers, and isfile, isdir.
use native.Mathlib.Nat.{pow-suc}
use mathlib.Core.List.{append_assoc, append-nil}
use cse_yet_another_file_sys.Base.{
  ℕ, zero, suc, ◌+◌, ◌-◌, ◌*◌, ◌/◌, ◌%◌, ◌^◌, ◌≤◌, ◌<◌, ◌≡◌, refl, Bool, not, ◌&&◌, [], ◌∷◌, ◌++◌,
  Bytes, ltb, leb, ◌==◌, if◌then◌else◌, Bool-cases, inl, inr, ◌∙◌, ◌≢◌, All, All-append,
  snoc-ne-nil, arith,
}

abbrev pub u64_max : ℕ
u64_max = 2 ^ 64 - 1

-- The decimal digits of `n` in ASCII; `f` digits are enough for `n < 10 ^ f`.
decimal : ℕ → ℕ → Bytes
decimal zero n = []
decimal (suc f) n =
    let front = decimal f (n / 10) in
    if ltb n 10 then (48 + n) ∷ [] else front ++ (48 + n % 10) ∷ []

-- `ost << inum`: an unsigned long long has at most twenty digits.
pub filename : ℕ → Bytes
filename inum = decimal 20 inum

-- `ist >> finum` on digits: they are read up to the first other byte.
read_digits : ℕ → Bytes → ℕ
read_digits acc [] = acc
read_digits acc (c ∷ cs) =
    let more = read_digits (acc * 10 + (c - 48)) cs in if leb 48 c && leb c 57 then more else acc

-- A number that does not fit reads as the largest one.
abbrev clip : ℕ → ℕ
clip n = if ltb u64_max n then u64_max else n

pub n2i : Bytes → ℕ
n2i s = clip (read_digits 0 s)

-- inum & 0x80000000
unfoldable pub isfile : ℕ → Bool
isfile inum = (inum / 2 ^ 31) % 2 == 1

unfoldable pub isdir : ℕ → Bool
unfolding isfile
isdir inum = not (isfile inum)

-- What the digits of `n` do to the number read so far.
shifted : ℕ → ℕ → ℕ → ℕ
shifted zero acc n = acc
shifted (suc f) acc n =
    let front = shifted f acc (n / 10) in if ltb n 10 then acc * 10 + n else front * 10 + n % 10

read_digits-digit :
    (acc d : ℕ) (rest : Bytes)
    → d < 10
    → read_digits acc ((48 + d) ∷ rest) ≡ read_digits (acc * 10 + d) rest
unfolding read_digits
read_digits-digit acc d rest h =
    let e : acc * 10 + (48 + d - 48) ≡ acc * 10 + d = omega arith in ground (arith, e)

read_digits-decimal :
    (f acc n : ℕ) (rest : Bytes)
    → n < 10 ^ f
    → read_digits acc (decimal f n ++ rest) ≡ read_digits (shifted f acc n) rest
unfolding decimal shifted
read_digits-decimal zero acc n rest h = refl
read_digits-decimal (suc f) acc n rest h = elim (Bool-cases (ltb n 10)) [
  | inl small ↦ rw small (read_digits-digit acc n rest (ground arith))
  | inr big ↦
      rw (big, append_assoc)
        (read_digits-decimal f acc (n / 10) ((48 + n % 10) ∷ rest) (omega (arith, pow-suc 10 f))
          ∙ read_digits-digit (shifted f acc (n / 10)) (n % 10) rest (omega arith))
]

shifted-zero : (f n : ℕ) → n < 10 ^ f → shifted f 0 n ≡ n
unfolding shifted
shifted-zero zero n h = omega arith
shifted-zero (suc f) n h = ground (arith, shifted-zero f (n / 10) (omega (arith, pow-suc 10 f)))

n2i-decimal : (f inum : ℕ) → inum < 10 ^ f → inum ≤ u64_max → n2i (decimal f inum) ≡ inum
unfolding n2i read_digits
n2i-decimal f inum h m =
    rw (← append-nil (decimal f inum))
      (rw (read_digits-decimal f 0 inum [] h, shifted-zero f inum h) (ground arith))

-- n2i reads back the number that filename wrote, for every 64-bit i-number.
pub n2i-filename : (inum : ℕ) → inum < 2 ^ 64 → n2i (filename inum) ≡ inum
unfolding filename
n2i-filename inum h = n2i-decimal 20 inum (omega arith) (omega arith)

-- An ASCII digit.
abbrev pub IsDigit : ℕ → Type 0
IsDigit c = (48 ≤ c) × (c ≤ 57)

All-decimal : (f n : ℕ) → All IsDigit (decimal f n)
unfolding decimal
All-decimal zero n = tt
All-decimal (suc f) n = elim (Bool-cases (ltb n 10)) [
  | inl small ↦ rw small ((omega arith, ground arith), tt)
  | inr big ↦ rw big (
      All-append IsDigit (decimal f (n / 10)) ((48 + n % 10) ∷ []) (All-decimal f (n / 10))
        ((omega arith, omega arith), tt))
]

pub All-filename : (inum : ℕ) → All IsDigit (filename inum)
unfolding filename
All-filename inum = All-decimal 20 inum

decimal-ne-nil : (f n : ℕ) → 0 < f → decimal f n ≢ []
unfolding decimal
decimal-ne-nil zero n h = elim h [ ]
decimal-ne-nil (suc f) n h = elim (Bool-cases (ltb n 10)) [
  | inl small ↦ rw small (λ e. cc)
  | inr big ↦ rw big (snoc-ne-nil (decimal f (n / 10)) (48 + n % 10))
]

pub filename-ne-nil : (inum : ℕ) → filename inum ≢ []
unfolding filename
filename-ne-nil inum = decimal-ne-nil 20 inum (omega arith)
