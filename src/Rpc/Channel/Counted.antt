-- ===== src/Rpc/Channel/Counted.antt =====
-- The connections of a client are counted by those who refer to them.
use mathlib.Core.Path.{subst}
use cse_yet_another_file_sys.Base.{
  ℕ, zero, suc, ◌+◌, ◌<◌, ◌≡◌, refl, sym, ap, inl, inr, Bool, true, false, Option, none, some, List,
  [], ◌∷◌, ◌==◌, ==_iff, arith, Bool-cases,
}
use cse_yet_another_file_sys.Rpc.Channel.{
  Conn, Heap, decref, decref_if, Channel, unconnected, connect, refresh, exchange, get_refconn,
  pick, Act, first, again, ends, dies, killed, ended, act, act_all,
}
use cse_yet_another_file_sys.Rpc.Channel.Objects.{
  dead_if, occurs, points, IsCountedBy, IsSound, Becomes, write-IsSound, here_counted, chan-Becomes,
  call-Becomes, incref-Becomes,
}

-- A connection that is made.
connect-IsSound :
    (connected : Bool) (s : Channel) (n : ℕ → ℕ)
    → s.chan ≡ none
    → IsSound s.heap s.chan s.next n
    → let s' = connect connected s in IsSound s'.heap s'.chan s'.next n
connect-IsSound false s n e i = subst (λ o. IsSound s.heap o s.next n) e i
connect-IsSound true s n e i = record {
  counted = λ j. elim (Bool-cases (s.next == j)) [
    | inl same ↦
        let q = here_counted s.heap s.chan s.next n s.next none (i.unused s.next (omega arith)) i in
        let at_next = (==_iff s.next j).0 same in
        let none_there : n j ≡ 0 = subst (λ z. n z ≡ 0) at_next (omega arith) in
        rw (same, none_there) (omega arith, omega arith, tt)
    | inr other ↦ rw other (subst (λ o. IsCountedBy (points j o) (n j) (s.heap j)) e (i.counted j))
  ];
  unused = λ j le.
      let other : (s.next == j) ≡ false = ground arith in rw other (i.unused j (omega arith));
}

-- What there is behind an operation of a channel that succeeds, with the references of the calls.
Goes : (List ℕ) → (ℕ → ℕ) → Option Channel → Type 0
Goes refs n o =
    (s' : Channel) × (o ≡ some s') × (s'.refs ≡ refs) × IsSound s'.heap s'.chan s'.next n

refresh-Goes :
    (connected : Bool) (s : Channel) (n : ℕ → ℕ)
    → IsSound s.heap s.chan s.next n
    → Goes s.refs n (refresh connected s s.chan)
unfolding refresh Goes
refresh-Goes connected s n i = by_chan s.chan refl
  where
    refs_same : (b : Bool) (t : Channel) → (connect b t).refs ≡ t.refs
    refs_same false t = refl
    refs_same true t = refl

    unset : (b : Bool) (t : Channel) → connect b t ≡ connect b (record t { chan = none })
    unset false t = refl
    unset true t = refl

    replaced :
        (c : ℕ) (k : Conn)
        → s.heap c ≡ some k
        → k.dead ≡ true
        → Becomes none s.next n (decref c s.heap)
        → Goes s.refs n (refresh connected s (some c))
    replaced c k f dead (h', g, j) =
        let t = record s { heap = h'; chan = none } in
        (
          connect connected t,
          rw (f, dead, g) (ap some (unset connected (record s { heap = h' }))),
          refs_same connected t,
          connect-IsSound connected t n refl j,
        )

    by_object :
        (c : ℕ) (o : Option Conn)
        → s.chan ≡ some c
        → s.heap c ≡ o
        → Goes s.refs n (refresh connected s (some c))
    by_object c none e f =
        let q = rw e at (here_counted s.heap s.chan s.next n c none f i) in
        let me : (c == c) ≡ true = (==_iff c c).1 refl in
        let q' = rw me at q in absurd (omega arith)
    by_object c (some k) e f = elim (Bool-cases k.dead) [
      | inl dead ↦
          replaced c k f dead
            (chan-Becomes s.heap s.next n c k f dead (subst (λ o. IsSound s.heap o s.next n) e i))
      | inr alive ↦ (s, rw (f, alive) refl, refl, i)
    ]

    by_chan : (o : Option ℕ) → s.chan ≡ o → Goes s.refs n (refresh connected s o)
    by_chan none e =
        (connect connected s, refl, refs_same connected s, connect-IsSound connected s n e i)
    by_chan (some c) e = by_object c (s.heap c) e refl

IsSound-same :
    (h : Heap) (chan : Option ℕ) (next : ℕ) (n n' : ℕ → ℕ)
    → ((j : ℕ) → n' j ≡ n j)
    → IsSound h chan next n
    → IsSound h chan next n'
IsSound-same h chan next n n' e i = record {
  counted = λ j. rw (e j) (i.counted j);
  unused = i.unused;
}

-- The references of the calls.
abbrev pub by_calls : List ℕ → ℕ → ℕ
by_calls refs j = occurs j refs

-- Every reference is counted.
abbrev pub IsCounted : Channel → Type 0
IsCounted s = IsSound s.heap s.chan s.next (by_calls s.refs)

Stays : Option Channel → Type 0
Stays o = (s' : Channel) × (o ≡ some s') × IsCounted s'

increfed-Stays :
    (s : Channel) (c : ℕ) (h : Heap)
    → s.chan ≡ some c
    → IsSound h s.chan s.next (by_calls s.refs)
    → Stays (exchange none (record s { heap = h }) (some c))
unfolding exchange Stays
increfed-Stays s c h e i =
    let me : (c == c) ≡ true = (==_iff c c).1 refl in
    let p : 0 < points c s.chan = rw (e, me) (omega arith) in
    let (h', g, j) = incref-Becomes h s.chan s.next (by_calls s.refs) c p i in
    (record s { heap = h'; refs = c ∷ s.refs }, rw g refl, j)

-- The calls' references, and that of a call which is not among them.
abbrev with_old : Option ℕ → Channel → ℕ → ℕ
with_old old s j = points j old + occurs j s.refs

exchange-Stays :
    (old : Option ℕ) (s : Channel)
    → IsSound s.heap s.chan s.next (with_old old s)
    → Stays (exchange old s s.chan)
unfolding exchange Stays
exchange-Stays old s i = by_chan old s.chan refl i
  where
    after_decref :
        (c o : ℕ)
        → s.chan ≡ some c
        → Becomes s.chan s.next (by_calls s.refs) (decref o s.heap)
        → Stays (exchange (some o) s (some c))
    after_decref c o e (h, g, j) = rw (exchange, g) (unfold exchange in increfed-Stays s c h e j)

    by_chan :
        (old o : Option ℕ)
        → s.chan ≡ o
        → IsSound s.heap s.chan s.next (with_old old s)
        → Stays (exchange old s o)
    by_chan none none e i = (
      s,
      refl,
      IsSound-same s.heap s.chan s.next (with_old none s) (by_calls s.refs) (λ j. omega arith) i,
    )
    by_chan (some o) none e i = (record s { refs = o ∷ s.refs }, refl, i)
    by_chan none (some c) e i =
        increfed-Stays s c s.heap e (
          IsSound-same s.heap s.chan s.next (with_old none s) (by_calls s.refs) (λ j. omega arith)
            i)
    by_chan (some o) (some c) e i =
        after_decref c o e (call-Becomes s.heap s.chan s.next (by_calls s.refs) o i)

get_refconn-Stays :
    (connected : Bool) (old : Option ℕ) (s : Channel)
    → IsSound s.heap s.chan s.next (with_old old s)
    → Stays (get_refconn connected old s)
unfolding get_refconn Goes
get_refconn-Stays connected old s i = then_exchange (refresh-Goes connected s (with_old old s) i)
  where
    then_exchange :
        Goes s.refs (with_old old s) (refresh connected s s.chan)
        → Stays (get_refconn connected old s)
    then_exchange (t, e, same, j) = rw e (
        exchange-Stays old t (
          subst (λ refs. IsSound t.heap t.chan t.next (λ m. points m old + occurs m refs))
            (sym same) j))

pick-occurs :
    (k : ℕ) (refs : List ℕ) (j : ℕ)
    → points j (pick k refs).0 + occurs j (pick k refs).1 ≡ occurs j refs
unfolding pick
pick-occurs k [] j = omega arith
pick-occurs zero (x ∷ xs) j = refl
pick-occurs (suc k) (x ∷ xs) j = let rest = pick-occurs k xs j in omega arith

ended-Stays :
    (s : Channel) (rest : List ℕ) (o : Option ℕ)
    → IsSound s.heap s.chan s.next (λ j. points j o + occurs j rest)
    → Stays (ended s rest (decref_if o s.heap))
unfolding Stays
ended-Stays s rest none i = (
  record s { refs = rest },
  refl,
  IsSound-same s.heap s.chan s.next _ (by_calls rest) (λ j. omega arith) i,
)
ended-Stays s rest (some o) i =
    let (h, g, j) = call-Becomes s.heap s.chan s.next (by_calls rest) o i in
    (record s { heap = h; refs = rest }, rw g refl, j)

killed-IsCounted : (s : Channel) (c : ℕ) → IsCounted s → IsCounted (killed s c (s.heap c))
killed-IsCounted s c i = by_object (s.heap c) refl
  where
    by_object : (o : Option Conn) → s.heap c ≡ o → IsCounted (killed s c o)
    by_object none e = i
    by_object (some k) e =
        let q = here_counted s.heap s.chan s.next (by_calls s.refs) c (some k) e i in
        write-IsSound s.heap s.chan s.chan s.next (by_calls s.refs) (by_calls s.refs) c k
          (some (record k { dead = true })) e (λ j other. (refl, refl))
          (q.0, q.1, dead_if (points c s.chan) (λ own. refl)) i

act-Stays : (a : Act) (s : Channel) → IsCounted s → Stays (act a s)
unfolding act Stays
act-Stays (first connected) s i =
    get_refconn-Stays connected none s
      (IsSound-same s.heap s.chan s.next (by_calls s.refs) (with_old none s) (λ j. omega arith) i)
act-Stays (again connected k) s i =
    let (o, rest) = pick k s.refs in
    get_refconn-Stays connected o (record s { refs = rest })
      (IsSound-same s.heap s.chan s.next (by_calls s.refs) (λ j. points j o + occurs j rest)
        (pick-occurs k s.refs) i)
act-Stays (ends k) s i =
    let (o, rest) = pick k s.refs in
    ended-Stays s rest o (
      IsSound-same s.heap s.chan s.next (by_calls s.refs) (λ j. points j o + occurs j rest)
        (pick-occurs k s.refs) i)
act-Stays (dies c) s i = (killed s c (s.heap c), refl, killed-IsCounted s c i)

acts-Stays : (acts : List Act) (s : Channel) → IsCounted s → Stays (act_all acts (some s))
unfolding act_all Stays
acts-Stays [] s i = (s, refl, i)
acts-Stays (a ∷ acts) s i = go_on (act-Stays a s i) λ t j. acts-Stays acts t j
  where
    go_on :
        Stays (act a s)
        → ((t : Channel) → IsCounted t → Stays (act_all acts (some t)))
        → Stays (act_all acts (act a s))
    go_on (t, e, j) later = rw e (later t j)

unconnected-IsCounted : IsCounted unconnected
unconnected-IsCounted = record { counted = λ c. refl; unused = λ c le. refl }

-- Whatever the calls of an RPC client do with its connection, in any order, with connections that die
-- and others that cannot be made: no VERIFY of decref fails, no connection is used after it was
-- deleted, and at the end a connection is in memory if and only if the client or a call refers to it,
-- with as many references as it counts; one to which only calls refer is dead.
pub act_all_counts :
    (acts : List Act) → (s : Channel) × (act_all acts (some unconnected) ≡ some s) × IsCounted s
unfolding Stays
act_all_counts acts = acts-Stays acts unconnected unconnected-IsCounted
