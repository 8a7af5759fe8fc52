-- ===== src/Rpc/XidWindow/Received.antt =====
-- The front of the window against the set of the replies that came.
use cse_yet_another_file_sys.Base.{
  ℕ, zero, suc, ◌≤◌, ◌<◌, ◌≡◌, refl, ◌⊎◌, inl, inr, Option, none, some, List, [], ◌∷◌, leb, All,
  arith, Bool-cases,
}
use cse_yet_another_file_sys.Rpc.XidWindow.{init, place, compress, update_xid_rep}
use cse_yet_another_file_sys.Rpc.XidWindow.Order.{Among, Covers, IsSorted, HasNoNext}
use cse_yet_another_file_sys.Rpc.XidWindow.Compress.{
  IsXid, compress-Same, compress-HasNoNext, All-compress,
}
use cse_yet_another_file_sys.Rpc.XidWindow.Place.{
  All-place, Among-place, place-Among, place-IsSorted,
}

-- The window after replies to these requests came, in this order.
unfoldable pub receive : List ℕ → List ℕ → Option (List ℕ)
receive window [] = some window
receive window (xid ∷ xids) = elim (update_xid_rep window xid) [
  | none ↦ none
  | some window' ↦ receive window' xids
]

-- A window of the xids of `received`, of which 0 is one.
record IsWindow (received window : List ℕ) : Type 0 where
  received-Covers : (z : ℕ) → (z ≡ 0) ⊎ Among z received → Covers window z
  covers-Among : (z : ℕ) → Covers window z → (z ≡ 0) ⊎ Among z received
  sorted : IsSorted window
  no_next : HasNoNext window
  members : All IsXid window

placed :
    (received : List ℕ) (f : ℕ) (rest : List ℕ) (xid : ℕ)
    → IsXid xid
    → f < xid
    → IsWindow received (f ∷ rest)
    → IsWindow (xid ∷ received) (compress (f ∷ []) (place xid rest))
placed received f rest xid i l w =
    let members = All-place IsXid xid rest i w.members.1 in
    let sorted : IsSorted (f ∷ place xid rest) =
      (All-place _ xid rest (omega arith) w.sorted.0, place-IsSorted xid rest w.sorted.1) in
    let same = compress-Same (f ∷ []) (place xid rest) members sorted in
    record {
      received-Covers = λ z h. same.forth z (into z h (w.received-Covers z));
      covers-Among = λ z h. out z (same.back z h) (w.covers-Among z);
      sorted = same.sorted;
      no_next = compress-HasNoNext (f ∷ []) (place xid rest) members sorted (λ k. k);
      members = All-compress IsXid (f ∷ []) (place xid rest) (w.members.0, tt) members;
    }
  where
    wider : (z : ℕ) → (z ≡ 0) ⊎ Among z received → (z ≡ 0) ⊎ Among z (xid ∷ received)
    wider z (inl e) = inl e
    wider z (inr h) = inr (inr h)

    into :
        (z : ℕ)
        → (z ≡ 0) ⊎ Among z (xid ∷ received)
        → ((z ≡ 0) ⊎ Among z received → Covers (f ∷ rest) z)
        → Covers (f ∷ place xid rest) z
    into z (inl e) k = inl (omega arith)
    into z (inr (inl e)) k = inr (place-Among z xid rest (inl e))
    into z (inr (inr h)) k = elim (k (inr h)) [
      | inl le ↦ inl le
      | inr old ↦ inr (place-Among z xid rest (inr old))
    ]

    out :
        (z : ℕ)
        → Covers (f ∷ place xid rest) z
        → (Covers (f ∷ rest) z → (z ≡ 0) ⊎ Among z received)
        → (z ≡ 0) ⊎ Among z (xid ∷ received)
    out z (inl le) k = wider z (k (inl le))
    out z (inr h) k = elim (Among-place z xid rest h) [
      | inl e ↦ inr (inl e)
      | inr old ↦ wider z (k (inr old))
    ]

-- A reply that the window says was received changes nothing.
seen_before :
    (received : List ℕ) (f : ℕ) (rest : List ℕ) (xid : ℕ)
    → xid ≤ f
    → IsWindow received (f ∷ rest)
    → IsWindow (xid ∷ received) (f ∷ rest)
seen_before received f rest xid l w = record {
  received-Covers = into;
  covers-Among = λ z h. elim (w.covers-Among z h) [ inl e ↦ inl e | inr k ↦ inr (inr k) ];
  sorted = w.sorted;
  no_next = w.no_next;
  members = w.members;
}
  where
    into : (z : ℕ) → (z ≡ 0) ⊎ Among z (xid ∷ received) → Covers (f ∷ rest) z
    into z (inl e) = w.received-Covers z (inl e)
    into z (inr (inl e)) = inl (omega arith)
    into z (inr (inr h)) = w.received-Covers z (inr h)

update-IsWindow :
    (received window : List ℕ) (xid : ℕ)
    → IsXid xid
    → IsWindow received window
    → (window' : List ℕ) × (update_xid_rep window xid ≡ some window')
      × IsWindow (xid ∷ received) window'
unfolding update_xid_rep place
update-IsWindow received [] xid i w = absurd w.no_next
update-IsWindow received (f ∷ rest) xid i w = elim (Bool-cases (leb xid f)) [
  | inl e ↦ (f ∷ rest, rw e refl, seen_before received f rest xid (ground arith) w)
  | inr e ↦ (
    compress (f ∷ []) (place xid rest),
    ground arith,
    placed received f rest xid i (ground arith) w,
  )
]

abbrev earlier : List ℕ → List ℕ → List ℕ
earlier received [] = received
earlier received (x ∷ xs) = earlier (x ∷ received) xs

receive-IsWindow :
    (received window xids : List ℕ)
    → All IsXid xids
    → IsWindow received window
    → (window' : List ℕ) × (receive window xids ≡ some window')
      × IsWindow (earlier received xids) window'
unfolding receive
receive-IsWindow received window [] i w = (window, refl, w)
receive-IsWindow received window (x ∷ xs) i w =
    let (window1, e, w1) = update-IsWindow received window x i.0 w in
    let (window2, e2, w2) = receive-IsWindow (x ∷ received) window1 xs i.1 w1 in
    (window2, rw (e, receive) e2, w2)

Among-earlier :
    (z : ℕ) (received xs : List ℕ) → Among z (earlier received xs) → Among z received ⊎ Among z xs
Among-earlier z received [] h = inl h
Among-earlier z received (x ∷ xs) h = elim (Among-earlier z (x ∷ received) xs h) [
  | inl (inl e) ↦ inr (inl e)
  | inl (inr k) ↦ inl k
  | inr k ↦ inr (inr k)
]

earlier-Among :
    (z : ℕ) (received xs : List ℕ) → Among z received ⊎ Among z xs → Among z (earlier received xs)
earlier-Among z received [] (inl h) = h
earlier-Among z received [] (inr h) = absurd h
earlier-Among z received (x ∷ xs) (inl h) = earlier-Among z (x ∷ received) xs (inl (inr h))
earlier-Among z received (x ∷ xs) (inr (inl e)) = earlier-Among z (x ∷ received) xs (inl (inl e))
earlier-Among z received (x ∷ xs) (inr (inr h)) = earlier-Among z (x ∷ received) xs (inr h)

init-IsWindow : IsWindow [] init
init-IsWindow = record {
  received-Covers = λ z h. elim h [ inl e ↦ inl (omega arith) | inr k ↦ absurd k ];
  covers-Among = λ z h. elim h [ inl e ↦ inl (omega arith) | inr k ↦ absurd k ];
  sorted = (tt, tt);
  no_next = λ k. k;
  members = (omega arith, tt);
}

-- The xids from 1 to `n`, the last one first.
abbrev pub up_to : ℕ → List ℕ
up_to zero = []
up_to (suc n) = suc n ∷ up_to n

module _ (xids : List ℕ) (f : ℕ) (rest : List ℕ) (w : IsWindow (earlier [] xids) (f ∷ rest)) where
  came : (z : ℕ) → 0 < z → z ≤ f → Among z xids
  came z p l = elim (w.covers-Among z (inl l)) [
    | inl e ↦ absurd (omega arith)
    | inr h ↦ elim (Among-earlier z [] xids h) [ inl k ↦ absurd k | inr k ↦ k ]
  ]

  range_came : (n : ℕ) → n ≤ f → All (λ z. Among z xids) (up_to n)
  range_came zero l = tt
  range_came (suc n) l = (came (suc n) (omega arith) l, range_came n (omega arith))

  next_missing : ¬ Among (suc f) xids
  next_missing h = elim (w.received-Covers (suc f) (inr (earlier-Among (suc f) [] xids (inr h)))) [
    | inl l ↦ absurd (omega arith)
    | inr k ↦ w.no_next k
  ]

-- In whatever order, and however often, the replies to requests with 32-bit xids arrive, the front
-- of the window is the greatest xid up to which every reply came: the window is never empty, each
-- xid from 1 to its front was received, and the one after the front was not.
pub front_lem :
    (xids : List ℕ)
    → All IsXid xids
    → (f : ℕ) × (rest : List ℕ) × (receive init xids ≡ some (f ∷ rest))
      × All (λ z. Among z xids) (up_to f)
      × ¬ Among (suc f) xids
front_lem xids i =
    let (window, e, w) = receive-IsWindow [] init xids i init-IsWindow in ends window e w
  where
    ends :
        (window : List ℕ)
        → receive init xids ≡ some window
        → IsWindow (earlier [] xids) window
        → (f : ℕ) × (rest : List ℕ) × (receive init xids ≡ some (f ∷ rest))
          × All (λ z. Among z xids) (up_to f)
          × ¬ Among (suc f) xids
    ends [] e w = absurd w.no_next
    ends (f ∷ rest) e w =
        (f, rest, e, range_came xids f rest w f (omega arith), next_missing xids f rest w)
