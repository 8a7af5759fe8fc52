-- ===== src/Rpc/Pdu/Sending.antt =====
-- connection::send and write_cb: what goes out of a message that was written to its end.
use cse_yet_another_file_sys.Base.{
  ℕ, zero, suc, ◌+◌, ◌≤◌, ◌≡◌, refl, sym, true, false, some, List, [], ◌∷◌, ◌++◌, Bytes, ◌==◌,
  length, take, drop, arith, Bool-cases, inl, inr, length-drop, drop-all, take-drop,
}
use cse_yet_another_file_sys.Rpc.Pdu.{
  Wpdu, Write, wrote, not_written, framed, sized_buf, send_all, to_send,
}

abbrev pub at_byte : Bytes → ℕ → Wpdu
at_byte buf n = record { buf = buf; solong = some n }

pub length-framed : (buf : Bytes) → 4 ≤ length buf → length (framed buf) ≡ length buf
length-framed buf h = omega (arith, length-drop 4 buf)

framed-framed : (buf : Bytes) → 4 ≤ length buf → framed (framed buf) ≡ framed buf
framed-framed buf h = rw (length-framed buf h) refl

pub take-drop-drop : (m n : ℕ) (buf : Bytes) → take m (drop n buf) ++ drop (n + m) buf ≡ drop n buf
take-drop-drop m zero buf = let e : 0 + m ≡ m = omega arith in rw e (take-drop m buf)
take-drop-drop zero (suc n) [] = let e : suc n + 0 ≡ suc n = omega arith in rw e refl
take-drop-drop (suc m) (suc n) [] =
    let e : suc n + suc m ≡ suc (n + suc m) = omega arith in rw e refl
take-drop-drop m (suc n) (x ∷ buf) =
    let e : suc n + m ≡ suc (n + m) = omega arith in rw e (take-drop-drop m n buf)

pub sized_buf-again :
    (buf : Bytes) (n m : ℕ) → 4 ≤ length buf → sized_buf (sized_buf buf n) (n + m) ≡ sized_buf buf n
sized_buf-again buf zero zero h = framed-framed buf h
sized_buf-again buf zero (suc m) h = let e : 0 + suc m ≡ suc m = omega arith in rw e refl
sized_buf-again buf (suc n) m h = let e : suc n + m ≡ suc (n + m) = omega arith in rw e refl

pub length-sized_buf :
    (buf : Bytes) (n : ℕ) → 4 ≤ length buf → length (sized_buf buf n) ≡ length buf
length-sized_buf buf zero h = length-framed buf h
length-sized_buf buf (suc n) h = refl

send-rest :
    (ws : List Write) (buf : Bytes) (n : ℕ)
    → 4 ≤ length buf
    → (send_all (at_byte buf n) ws).1 ≡ true
    → (send_all (at_byte buf n) ws).0 ≡ drop n (sized_buf buf n)
unfolding send_all
send-rest [] buf n h e =
    let size = length-sized_buf buf n h in
    sym (drop-all n (sized_buf buf n) (ground (arith, size, e)))
send-rest (wrote m ∷ ws) buf n h e = elim (Bool-cases (n == length buf)) [
  | inl all ↦ rw all (send-rest ws buf n h (rw all at e))
  | inr some_left ↦
      let b = sized_buf buf n in
      let same : 4 ≤ length b = omega (arith, length-sized_buf buf n h) in
      let later = send-rest ws b (n + m) same (rw some_left at e) in
      rw (some_left, later, sized_buf-again buf n m h) (take-drop-drop m n b)
]
send-rest (not_written true ∷ ws) buf n h e = elim (Bool-cases (n == length buf)) [
  | inl all ↦ rw all (send-rest ws buf n h (rw all at e))
  | inr some_left ↦
      let b = sized_buf buf n in
      let same : 4 ≤ length b = omega (arith, length-sized_buf buf n h) in
      let none_more : n + 0 ≡ n = omega arith in
      let again : sized_buf b n ≡ b = rw none_more at (sized_buf-again buf n 0 h) in
      rw (some_left, send-rest ws b n same (rw some_left at e), again) refl
]
send-rest (not_written false ∷ ws) buf n h e = elim (Bool-cases (n == length buf)) [
  | inl all ↦ rw all (send-rest ws buf n h (rw all at e))
  | inr some_left ↦ let never : false ≡ true = rw some_left at e in cc
]

-- Whatever numbers of bytes the kernel takes at a time, and however often it takes none, a message
-- of at least four bytes that counts as sent went out whole and in order, with its size, in network
-- order, as its first four bytes.
pub send_all_lem :
    (ws : List Write) (buf : Bytes)
    → 4 ≤ length buf
    → (send_all (to_send buf) ws).1 ≡ true
    → (send_all (to_send buf) ws).0 ≡ framed buf
send_all_lem ws buf h e = send-rest ws buf 0 h e
