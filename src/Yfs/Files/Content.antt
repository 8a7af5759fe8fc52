-- ===== src/Yfs/Files/Content.antt =====
-- The byte strings that read, write and updatesize compute, against plain descriptions of them.
use mathlib.Core.List.{append_assoc, append-nil}
use cse_yet_another_file_sys.Base.{
  ℕ, zero, suc, ◌+◌, ◌-◌, ◌≤◌, ◌<◌, ◌^◌, ◌≡◌, ◌≢◌, refl, [], ◌∷◌, ◌++◌, Bytes, true, false, ◌%◌,
  sym, ltb, leb, ◌==◌, if◌then◌else◌, Bool-cases, ◌⊎◌, inl, inr, All, length, take, drop, replicate,
  length-append, length-take, length-replicate, take-all, drop-all, take-append, drop-append, arith,
}
use cse_yet_another_file_sys.Yfs.Files.{c_string, fit, overwrite, resized, portion}

-- A file with `piece` written at `off`: zeros fill a gap, and the bytes behind stay.
abbrev pub splice : ℕ → Bytes → Bytes → Bytes
splice off piece content =
    take off (content ++ replicate (off - length content) 0)
    ++ piece
    ++ drop (off + length piece) content

-- A text filled up with zeros to a length of at least `n`.
abbrev padded : ℕ → Bytes → Bytes
padded n s = s ++ replicate (n - length s) 0

padded-long : (n : ℕ) (s : Bytes) → n ≤ length s → padded n s ≡ s
padded-long n s h = let z : n - length s ≡ 0 = omega arith in rw z (append-nil s)

length-padded : (n : ℕ) (s : Bytes) → length (padded n s) ≡ length s + (n - length s)
length-padded n s = omega (
  arith,
  length-append s (replicate (n - length s) 0),
  length-replicate {0} {A = ℕ} (n - length s) 0,
)

length-take-padded : (n : ℕ) (s : Bytes) → length (take n (padded n s)) ≡ n
length-take-padded n s = omega (arith, length-take n (padded n s), length-padded n s)

pub fit-eq-take : (size : ℕ) (s : Bytes) → fit size s ≡ take size (padded size s)
unfolding fit
fit-eq-take size s = elim (Bool-cases (ltb (length s) size)) [
  | inl short ↦ rw short refl
  | inr enough ↦ rw (enough, padded-long size s (ground arith)) refl
]

pub length-fit : (size : ℕ) (s : Bytes) → length (fit size s) ≡ size
length-fit size s = rw (fit-eq-take size s) (length-take-padded size s)

-- The code tells offset 0 apart, to no effect.
at_start :
    (off : ℕ) (content piece tail : Bytes)
    → (if off == 0 then piece ++ tail else take off content ++ piece ++ tail)
      ≡ take off content ++ piece ++ tail
at_start zero content piece tail = refl
at_start (suc off) content piece tail = ground arith

at_start_only :
    (off : ℕ) (content piece : Bytes)
    → (if off == 0 then piece else take off content ++ piece) ≡ take off content ++ piece
at_start_only zero content piece = refl
at_start_only (suc off) content piece = ground arith

pub overwrite-splice :
    (content piece : Bytes) (size off : ℕ)
    → length piece ≡ size
    → off + size < 2 ^ 64
    → overwrite content piece size off ≡ splice off piece content
unfolding overwrite
overwrite-splice content piece size off e fits =
    let end : (off + size) % 2 ^ 64 ≡ off + length piece = omega arith in
    rw end (elim (Bool-cases (ltb (length content) off)) [
      | inl gap ↦
          rw
            (
              gap,
              take-all off (padded off content)
                  (omega (arith, length-padded off content, below gap)),
              drop-all (off + length piece) content (omega (arith, below gap)),
              append-nil (padded off content ++ piece),
            )
            refl
      | inr inside ↦
          rw (inside, padded-long off content (ground arith))
            (elim (Bool-cases (leb (length content) (off + length piece))) [
              | inl over ↦
                  rw
                    (
                      over,
                      drop-all (off + length piece) content (ground arith),
                      append-nil (take off content ++ piece),
                    )
                    (at_start_only off content piece)
              | inr within ↦ rw within (at_start off content piece _)
            ])
    ])
  where
    below : ltb (length content) off ≡ true → length content ≤ off
    below h = ground arith

-- `updatesize` to `new_size`: bytes behind the new end are dropped, and new bytes are zero.
pub resized_lem :
    (new_size : ℕ) (content : Bytes)
    → resized new_size (length content) content
      ≡ take new_size (content ++ replicate (new_size - length content) 0)
unfolding resized
resized_lem new_size content = elim (Bool-cases (ltb (length content) new_size)) [
  | inl grow ↦ rw grow (
      sym (
        take-all new_size (padded new_size content)
          (omega (arith, length-padded new_size content, below grow))))
  | inr shrink ↦ rw (shrink, padded-long new_size content (ground arith)) refl
]
  where
    below : ltb (length content) new_size ≡ true → length content ≤ new_size
    below h = ground arith

-- What was written is what is read back.
pub portion-splice :
    (off : ℕ) (piece content : Bytes)
    → portion (length piece) off (splice off piece content) ≡ piece
unfolding portion
portion-splice off [] content = ground arith
portion-splice off (c ∷ piece) content =
    let front = take off (padded off content) in
    let tail = drop (off + length (c ∷ piece)) content in
    rw
      (
        append_assoc front (c ∷ piece) tail,
        drop-append off front ((c ∷ piece) ++ tail) (length-take-padded off content),
        take-append (length (c ∷ piece)) (c ∷ piece) tail refl,
      )
      (ground (arith, length-append front ((c ∷ piece) ++ tail), length-take-padded off content))

-- Bytes without a NUL among the first `size` reach the file as they are.
take-c_string :
    (size : ℕ) (buf : Bytes)
    → size ≤ length buf
    → All (λ c. c ≢ 0) (take size buf)
    → (size ≤ length (c_string buf)) × (take size (c_string buf) ≡ take size buf)
unfolding c_string
take-c_string zero buf h nz = (omega arith, refl)
take-c_string (suc size) [] h nz = absurd (omega arith)
take-c_string (suc size) (c ∷ buf) h nz =
    ground (arith, take-c_string size buf (omega arith) nz.1, nz.0)

pub fit-c_string :
    (size : ℕ) (buf : Bytes)
    → size ≤ length buf
    → All (λ c. c ≢ 0) (take size buf)
    → fit size (c_string buf) ≡ take size buf
unfolding fit
fit-c_string size buf h nz =
    let kept = take-c_string size buf h nz in
    rw (fit-eq-take size (c_string buf), padded-long size (c_string buf) kept.0) kept.1

-- A C string: its bytes are not NUL, and it ends with the buffer or at a NUL.
abbrev pub EndsAtNul : Bytes → Type 0
EndsAtNul [] = Unit
EndsAtNul (c ∷ rest) = c ≡ 0

c_string-prefix :
    (text rest : Bytes) → All (λ c. c ≢ 0) text → EndsAtNul rest → c_string (text ++ rest) ≡ text
unfolding c_string
c_string-prefix [] [] h e = refl
c_string-prefix [] (c ∷ rest) h e = ground (arith, e)
c_string-prefix (c ∷ text) rest h e =
    let other : (c == 0) ≡ false = ground (arith, h.0) in
    rw (other, c_string-prefix text rest h.1 e) refl

-- Of a C string of the buffer, `size` bytes, with zeros behind it.
pub fit-prefix :
    (size : ℕ) (text rest : Bytes)
    → All (λ c. c ≢ 0) text
    → EndsAtNul rest
    → fit size (c_string (text ++ rest)) ≡ take size (text ++ replicate (size - length text) 0)
fit-prefix size text rest h e = rw (c_string-prefix text rest h e) (fit-eq-take size text)

-- In an empty file the piece is all there is, if it is written at the start.
pub splice_empty :
    (off : ℕ) (piece content : Bytes)
    → length content ≡ 0
    → (content ≢ []) ⊎ (off ≡ 0)
    → splice off piece content ≡ piece
splice_empty off piece [] e (inl h) = absurd (h refl)
splice_empty off piece [] e (inr z) =
    rw (z, drop-all {A = ℕ} (0 + length piece) [] (omega arith), append-nil piece) refl
splice_empty off piece (c ∷ content) e h = absurd (omega arith)
