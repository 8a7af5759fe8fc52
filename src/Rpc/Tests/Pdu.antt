-- ===== src/Rpc/Tests/Pdu.antt =====
-- A run of a connection: a message goes out in three writes and comes in by six bytes at a time.
use cse_yet_another_file_sys.Base.{
  ℕ, zero, suc, ◌≤◌, ◌<◌, ◌≡◌, refl, sym, ◌⊎◌, inl, inr, true, some, List, [], ◌∷◌, ◌++◌, Bytes,
  leb, if◌then◌else◌, length, take, drop, take-drop, length-take, arith,
}
use cse_yet_another_file_sys.Rpc.Pdu.{
  Read, got, failed, Write, wrote, not_written, framed, send_all,
}
use cse_yet_another_file_sys.Rpc.Pdu.Delivery.{ReadLaws, callbacks, fresh, read-send}

abbrev piece : ℕ → ℕ
piece n = if leb n 6 then n else 6

abbrev read_six : ℕ → Bytes → Read × Bytes
read_six n [] = (failed true, [])
read_six n (x ∷ s) = (got (take (piece n) (x ∷ s)), drop (piece n) (x ∷ s))

abbrev same : Bytes → Bytes
same s = s

abbrev Piece : ℕ → Bytes → Type 0
Piece n k =
    (n ≡ 0)
    ⊎ (k ≡ [])
    ⊎ ((b : Bytes) × (k' : Bytes) × (read_six n k ≡ (got b, k'))
        × (0 < length b)
        × (length b ≤ n)
        × (k ≡ b ++ k'))

pieces : (n : ℕ) (k : Bytes) → Piece n k
pieces zero k = inl refl
pieces (suc n) [] = inr (inl refl)
pieces (suc n) (x ∷ s) =
    let p = piece (suc n) in
    let size = length-take p (x ∷ s) in
    inr (
      inr (
        take p (x ∷ s),
        drop p (x ∷ s),
        refl,
        ground (arith, size),
        ground (arith, size),
        sym (take-drop p (x ∷ s)),
      ))

read_six-laws : ReadLaws read_six same
read_six-laws = record {
  some_bytes = pieces;
  size_at_once = λ k a b c d rest e. (rest, rw e refl, refl);
}

abbrev letter : Bytes
letter = 0 ∷ 0 ∷ 0 ∷ 0 ∷ 10 ∷ 11 ∷ 12 ∷ 13 ∷ 14 ∷ 15 ∷ 16 ∷ 17 ∷ []

abbrev writes : List Write
writes = wrote 3 ∷ not_written true ∷ wrote 8 ∷ wrote 1 ∷ []

read-send_example :
    (n : ℕ) × (k' : Bytes) × (n ≤ 12)
    × (callbacks read_six n (some (fresh, []), framed letter ++ 1 ∷ 2 ∷ [])
        ≡ (some (fresh, framed letter ∷ []), k'))
    × (k' ≡ 1 ∷ 2 ∷ [])
unfolding send_all
read-send_example =
    read-send read_six same read_six-laws writes letter (1 ∷ 2 ∷ []) (framed letter ++ 1 ∷ 2 ∷ [])
      (omega arith) (omega arith) refl refl
