-- ===== src/Rpc/Link/Frames.antt =====
-- What went out of a message, and what a write adds to it.
use mathlib.Core.List.{append_assoc, append-nil}
use cse_yet_another_file_sys.Base.{
  ℕ, ◌+◌, ◌-◌, ◌≤◌, ◌≡◌, refl, sym, ◌∙◌, inl, inr, true, false, Bool, Option, none, some, List, [],
  ◌∷◌, ◌++◌, Bytes, ◌==◌, length, take, drop, arith, Bool-cases, drop-all,
}
use cse_yet_another_file_sys.Rpc.Pdu.{
  Wpdu, Write, wrote, not_written, framed, sized_buf, writepdu, is_complete,
}
use cse_yet_another_file_sys.Rpc.Pdu.Sending.{
  at_byte, sized_buf-again, length-sized_buf, take-drop-drop,
}

-- write(2) takes at most what it is given.
abbrev pub AtMost : ℕ → Write → Type 0
AtMost n (wrote m) = m ≤ n
AtMost n (not_written again) = Unit

abbrev pub IsPrefix : Bytes → Bytes → Type 0
IsPrefix part whole = (rest : Bytes) × (part ++ rest ≡ whole)

-- Of the message `b`, with its size in front, `part` went out.
abbrev pub SentPart : Bytes → Bytes → Bytes → Option ℕ → Type 0
SentPart part b buf none = IsPrefix part (framed b)
SentPart part b buf (some n) =
    (part ++ drop n (sized_buf buf n) ≡ framed b) × (n ≤ length buf) × (4 ≤ length buf)

pub SentPart-IsPrefix :
    (part b buf : Bytes) (o : Option ℕ) → SentPart part b buf o → IsPrefix part (framed b)
SentPart-IsPrefix part b buf none h = h
SentPart-IsPrefix part b buf (some n) h = (drop n (sized_buf buf n), h.0)

-- A write that fails leaves nothing to be written.
abbrev pub Stops : Bool → Option ℕ → Type 0
Stops true none = ⊥
Stops true (some n) = Unit
Stops false none = Unit
Stops false (some n) = ⊥

pub writepdu-SentPart :
    (part b buf : Bytes) (n : ℕ) (w : Write)
    → SentPart part b buf (some n)
    → AtMost (length buf - n) w
    → (succ : Bool) × (u : Wpdu) × (out : Bytes) × (writepdu (at_byte buf n) w
        ≡ some (succ, u, out))
      × SentPart (part ++ out) b u.buf u.solong
      × Stops succ u.solong
unfolding writepdu
writepdu-SentPart part b buf n (wrote m) (e, l, four) a = elim (Bool-cases (n == length buf)) [
  | inl all ↦ (true, at_byte buf n, [], rw all refl, rw (append-nil part) (e, l, four), tt)
  | inr some_left ↦
      let size = length-sized_buf buf n four in
      let whole : part
            ++ (take m (drop n (sized_buf buf n))
                ++ drop (n + m) (sized_buf (sized_buf buf n) (n + m)))
          ≡ framed b =
        rw (sized_buf-again buf n m four, take-drop-drop m n (sized_buf buf n)) e in
      (
        true,
        at_byte (sized_buf buf n) (n + m),
        take m (drop n (sized_buf buf n)),
        rw some_left refl,
        (
          append_assoc part (take m (drop n (sized_buf buf n))) _ ∙ whole,
          omega (arith, size),
          omega (arith, size),
        ),
        tt,
      )
]
writepdu-SentPart part b buf n (not_written true) (e, l, four) a =
    elim (Bool-cases (n == length buf)) [
      | inl all ↦ (true, at_byte buf n, [], rw all refl, rw (append-nil part) (e, l, four), tt)
      | inr some_left ↦
          let size = length-sized_buf buf n four in
          let none_more : n + 0 ≡ n = omega arith in
          let again : sized_buf (sized_buf buf n) n ≡ sized_buf buf n =
            rw none_more at (sized_buf-again buf n 0 four) in
          (
            true,
            at_byte (sized_buf buf n) n,
            [],
            rw some_left refl,
            (rw (append-nil part, again) e, omega (arith, size), omega (arith, size)),
            tt,
          )
    ]
writepdu-SentPart part b buf n (not_written false) (e, l, four) a =
    elim (Bool-cases (n == length buf)) [
      | inl all ↦ (true, at_byte buf n, [], rw all refl, rw (append-nil part) (e, l, four), tt)
      | inr some_left ↦ (
        false,
        record { buf = sized_buf buf n; solong = none },
        [],
        rw some_left refl,
        rw (append-nil part) (drop n (sized_buf buf n), e),
        tt,
      )
    ]

-- A message of which all went out.
pub complete-framed :
    (part b buf : Bytes) (o : Option ℕ)
    → SentPart part b buf o
    → is_complete (record { buf = buf; solong = o }) o ≡ true
    → part ≡ framed b
complete-framed part b buf none h e = cc
complete-framed part b buf (some n) (e, l, four) all =
    let size = length-sized_buf buf n four in
    let nothing : drop n (sized_buf buf n) ≡ [] =
      drop-all n (sized_buf buf n) (ground (arith, size, all)) in
    sym (append-nil part) ∙ rw nothing at e

-- The messages of a list one after the other, each behind its size.
abbrev pub frames : List Bytes → Bytes
frames [] = []
frames (b ∷ bs) = framed b ++ frames bs

pub frames-snoc : (bs : List Bytes) (b : Bytes) → frames (bs ++ b ∷ []) ≡ frames bs ++ framed b
frames-snoc [] b = append-nil (framed b)
frames-snoc (c ∷ bs) b =
    rw (frames-snoc bs b) (sym (append_assoc (framed c) (frames bs) (framed b)))
