-- ===== src/Rpc/Pdu/Delivery.antt =====
-- connection::read_cb: a message that comes in pieces is handed over whole.
use mathlib.Core.List.{append_assoc, append-nil}
use cse_yet_another_file_sys.Base.{
  ℕ, zero, suc, ◌+◌, ◌-◌, ◌^◌, ◌≤◌, ◌<◌, ◌≡◌, refl, sym, ap, ◌∙◌, true, false, ◌||◌, Option, none,
  some, List, [], ◌∷◌, ◌++◌, Bytes, leb, ltb, ◌==◌, length, drop, arith, Bool-cases, inl, inr, ◌⊎◌,
  length-append, length-drop, drop-all,
}
use cse_yet_another_file_sys.Rpc.Marshall.{Unmarshall}
use cse_yet_another_file_sys.Rpc.Marshall.Wire.{four, get_u32-four}
use cse_yet_another_file_sys.Rpc.Pdu.{
  max_pdu, Read, got, idle, ntohl, taken, sized, filled, Reader, fill, readpdu, after_read, read_cb,
  framed, Write, send_all, to_send,
}
use cse_yet_another_file_sys.Rpc.Pdu.Sending.{send_all_lem}

module _ {K : Type 0} (read : ℕ → K → Read × K) (stream : K → Bytes) where
  -- read(2) on a connection, of which `stream` is what will still arrive: it waits for nothing and
  -- returns at least one of the bytes if there are any, and at most those asked for; the four bytes
  -- of a size arrive together.
  pub record ReadLaws : Type 0 where
    pub some_bytes :
        (n : ℕ) (k : K)
        → (n ≡ 0)
          ⊎ (stream k ≡ [])
          ⊎ ((b : Bytes) × (k' : K) × (read n k ≡ (got b, k'))
              × (0 < length b)
              × (length b ≤ n)
              × (stream k ≡ b ++ stream k'))
    pub size_at_once :
        (k : K) (a b c d : ℕ) (rest : Bytes)
        → stream k ≡ a ∷ b ∷ c ∷ d ∷ rest
        → (k' : K) × (read 4 k ≡ (got (a ∷ b ∷ c ∷ d ∷ []), k')) × (stream k' ≡ rest)

-- Messages that were handed over before.
abbrev joined :
    {K : Type 0} → List Bytes → Option (Reader × List Bytes) × K → Option (Reader × List Bytes) × K
joined msgs (none, k) = (none, k)
joined msgs (some (c, new), k) = (some (c, msgs ++ new), k)

joined-nil : {K : Type 0} (out : Option (Reader × List Bytes) × K) → joined [] out ≡ out
joined-nil (none, k) = refl
joined-nil (some (c, new), k) = refl

-- Calls of read_cb one after the other, with a channel manager that takes each message.
unfoldable pub callbacks :
    {K : Type 0}
    → (ℕ → K → Read × K)
    → ℕ
    → Option (Reader × List Bytes) × K
    → Option (Reader × List Bytes) × K
callbacks read zero out = out
callbacks read (suc n) (none, k) = (none, k)
callbacks read (suc n) (some (c, msgs), k) = callbacks read n (joined msgs (read_cb read true c k))

abbrev pub reading : ℕ → Bytes → Reader
reading size there = record { rpdu = record { sz = size; buf = some there }; dead = false }

abbrev pub fresh : Reader
fresh = record { rpdu = idle; dead = false }

-- What was read is the front of what is to come.
split_front :
    (b s todo rest : Bytes)
    → b ++ s ≡ todo ++ rest
    → length b ≤ length todo
    → (todo ≡ b ++ drop (length b) todo) × (s ≡ drop (length b) todo ++ rest)
split_front [] s todo rest e l = (refl, e)
split_front (x ∷ b) s [] rest e l = absurd (omega arith)
split_front (x ∷ b) s (y ∷ todo) rest e l =
    let tails : b ++ s ≡ todo ++ rest = cc in
    let heads : y ≡ x = cc in
    let (front, later) = split_front b s todo rest tails (omega arith) in
    (rw heads (ap (◌∷◌ x) front), later)

module _ {K : Type 0} (read : ℕ → K → Read × K) (stream : K → Bytes)
    (laws : ReadLaws read stream) where
  reading-step :
      (size : ℕ) (there : Bytes) (k : K)
      → 0 < size
      → length there < size
      → read_cb read true (reading size there) k
        ≡ after_read read true (fill read (record { sz = size; buf = some there }) k)
  unfolding read_cb
  reading-step size there k p l =
      let open_yet : leb size (length there) ≡ false = ground arith in
      let begun_yet : (size == 0) ≡ false = ground arith in rw (open_yet, begun_yet) refl

  -- What is left to show of a message, of which the bytes `there` have come.
  abbrev RestRead : ℕ → Bytes → Bytes → Bytes → K → Type 0
  RestRead size there todo rest k =
      (n : ℕ) × (k' : K) × (suc n ≤ length todo)
      × (callbacks read n
            (after_read read true (fill read (record { sz = size; buf = some there }) k))
          ≡ (some (fresh, (there ++ todo) ∷ []), k'))
      × (stream k' ≡ rest)

  -- A piece that is the last one, and one that is not.
  last_piece :
      (size : ℕ) (there b rest : Bytes) (k k1 : K)
      → read (size - length there) k ≡ (got b, k1)
      → 0 < length b
      → length there + length b ≡ size
      → stream k1 ≡ rest
      → RestRead size there b rest k
  unfolding callbacks filled
  last_piece size there b rest k k1 ran p e s =
      let whole : (size == length (there ++ b)) ≡ true = ground (arith, length-append there b, e) in
      (0, k1, p, rw (ran, whole) refl, s)

  one_piece :
      (size : ℕ) (there b todo rest : Bytes) (k k1 : K)
      → read (size - length there) k ≡ (got b, k1)
      → 0 < length b
      → 0 < length todo
      → length there + (length b + length todo) ≡ size
      → RestRead size (there ++ b) todo rest k1
      → RestRead size there (b ++ todo) rest k
  unfolding callbacks filled
  one_piece size there b todo rest k k1 ran p q e (n, k', l, run, left) =
      let sum = length-append there b in
      let part : (size == length (there ++ b)) ≡ false = ground (arith, sum, e) in
      let step = reading-step size (there ++ b) k1 (omega arith) (omega (arith, sum)) in
      (
        suc n,
        k',
        omega (arith, length-append b todo),
        rw (ran, part, step, joined-nil, ← append_assoc there b todo) run,
        left,
      )

  rest-read :
      (fuel size : ℕ) (there todo rest : Bytes) (k : K)
      → length todo ≤ fuel
      → 0 < length todo
      → length there + length todo ≡ size
      → stream k ≡ todo ++ rest
      → RestRead size there todo rest k
  rest-read zero size there todo rest k f p e s = absurd (omega arith)
  rest-read (suc fuel) size there todo rest k f p e s =
      elim (laws.some_bytes (size - length there) k) [
        | inl none_asked ↦ absurd (omega (arith, none_asked))
        | inr (inl none_left) ↦
            let empty = ap length (sym none_left ∙ s) in
            absurd (omega (arith, empty, length-append todo rest))
        | inr (inr (b, k1, ran, come, asked, left)) ↦
            let (front, later) = split_front b (stream k1) todo rest (sym left ∙ s) (omega arith) in
            let todo' = drop (length b) todo in
            let size' = length-drop (length b) todo in
            elim (Bool-cases (leb (length todo) (length b))) [
              | inl all ↦
                  let same : todo ≡ b =
                    front ∙ rw (drop-all (length b) todo (ground arith)) (append-nil b) in
                  let last : stream k1 ≡ rest =
                    later ∙ rw (drop-all (length b) todo (ground arith)) refl in
                  rw same (
                    last_piece size there b rest k k1 ran come (omega (arith, ap length same)) last)
              | inr part ↦
                  let some_left : length b < length todo = ground arith in
                  rw front (
                    one_piece size there b todo' rest k k1 ran come (omega (arith, size'))
                      (omega (arith, size'))
                      (rest-read fuel size (there ++ b) todo' rest k1 (omega (arith, size'))
                        (omega (arith, size')) (omega (arith, size', length-append there b)) later))
            ]
      ]

  sized-four :
      (size : ℕ)
      → 4 < size
      → size ≤ max_pdu
      → sized (got (four size)) ≡ taken (record { sz = size; buf = some (four size) })
  unfolding sized ntohl
  sized-four size low high =
      let number = ap (λ (r : ℕ × Unmarshall). r.0) (get_u32-four 0 size [] (omega arith)) in
      let defined : (leb (2 ^ 31) size || ltb size 4) ≡ false = ground arith in
      let not_big : ltb max_pdu size ≡ false = ground arith in rw (number, defined, not_big) refl

  first-step :
      (size : ℕ) (k k1 : K)
      → 4 < size
      → size ≤ max_pdu
      → read 4 k ≡ (got (four size), k1)
      → read_cb read true fresh k
        ≡ after_read read true (fill read (record { sz = size; buf = some (four size) }) k1)
  unfolding read_cb readpdu
  first-step size k k1 low high ran = rw (ran, sized-four size low high) refl

  -- A message of more than four bytes and at most 10 MB, which was sent to its end in whatever
  -- pieces and is now on its way, is handed over whole, with its size as its first four bytes, by
  -- at most as many calls of read_cb as it has bytes, in whatever pieces they read it; what comes
  -- behind it is left, and the connection is ready for it. The size arrives in one piece.
  pub read-send :
      (ws : List Write) (buf rest : Bytes) (k : K)
      → 4 < length buf
      → length buf ≤ max_pdu
      → (send_all (to_send buf) ws).1 ≡ true
      → stream k ≡ (send_all (to_send buf) ws).0 ++ rest
      → (n : ℕ) × (k' : K) × (n ≤ length buf)
        × (callbacks read n (some (fresh, []), k) ≡ (some (fresh, framed buf ∷ []), k'))
        × (stream k' ≡ rest)
  unfolding callbacks
  read-send ws buf rest k low high sent s =
      let size = length buf in
      let arriving : stream k ≡ framed buf ++ rest =
        s ∙ ap (λ t. t ++ rest) (send_all_lem ws buf (omega arith) sent) in
      let (k1, ran, left) = laws.size_at_once k _ _ _ _ (drop 4 buf ++ rest) arriving in
      let body = length-drop 4 buf in
      let (n, k', few, run, done) =
        rest-read size size (four size) (drop 4 buf) rest k1 (omega (arith, body))
          (omega (arith, body)) (omega (arith, body)) left in
      (
        suc n,
        k',
        omega (arith, body),
        ap (callbacks read n)
              (joined-nil (read_cb read true fresh k) ∙ first-step size k k1 low high ran)
            ∙ run,
        done,
      )
