-- ===== src/Rpc/Channel/Objects.antt =====
-- The objects of an RPC client's connections, and what incref and decref keep of their counts.
use mathlib.Core.Path.{subst}
use mathlib.Core.Option.{some-ne-none, some-injective}
use cse_yet_another_file_sys.Base.{
  ℕ, zero, suc, Bool, ◌+◌, ◌-◌, ◌≤◌, ◌<◌, ◌≡◌, refl, sym, ap, ◌∙◌, inl, inr, true, false, Option,
  none, some, List, [], ◌∷◌, ◌==◌, ==_iff, if◌then◌else◌, arith, Bool-cases,
}
use cse_yet_another_file_sys.Rpc.Channel.{Conn, Heap, write, incref, decref}

-- How often a connection stands in a list, and in a pointer.
abbrev pub occurs : ℕ → List ℕ → ℕ
occurs c [] = 0
occurs c (x ∷ xs) = (if x == c then 1 else 0) + occurs c xs

abbrev pub points : ℕ → Option ℕ → ℕ
points c none = 0
points c (some x) = if x == c then 1 else 0

abbrev pub DeadIf : ℕ → Bool → Type 0
DeadIf zero dead = dead ≡ true
DeadIf (suc n) dead = Unit

pub dead_if : {dead : Bool} (own : ℕ) → (own ≡ 0 → dead ≡ true) → DeadIf own dead
dead_if zero h = h refl
dead_if (suc n) h = tt

if_own : {dead : Bool} (own : ℕ) → DeadIf own dead → own ≡ 0 → dead ≡ true
if_own zero h e = h
if_own (suc n) h e = absurd (omega arith)

-- An object is there if and only if something refers to it, and is dead if only calls do.
abbrev pub IsCountedBy : ℕ → ℕ → Option Conn → Type 0
IsCountedBy own others none = own + others ≡ 0
IsCountedBy own others (some k) = (k.refno ≡ own + others) × (0 < own + others) × DeadIf own k.dead

-- `chan` refers to its connection, and `others` says how often the calls refer to each.
pub record IsSound (h : Heap) (chan : Option ℕ) (next : ℕ) (others : ℕ → ℕ) : Type 0 where
  pub counted : (c : ℕ) → IsCountedBy (points c chan) (others c) (h c)
  pub unused : (c : ℕ) → next ≤ c → h c ≡ none

-- One more reference.
abbrev pub plus : ℕ → (ℕ → ℕ) → ℕ → ℕ
plus c n j = (if c == j then 1 else 0) + n j

-- What there is behind an operation that succeeds.
abbrev pub Becomes : Option ℕ → ℕ → (ℕ → ℕ) → Option Heap → Type 0
Becomes chan next others o = (h' : Heap) × (o ≡ some h') × IsSound h' chan next others

-- The same references, but for those to `c`.
abbrev pub Elsewhere : ℕ → Option ℕ → Option ℕ → (ℕ → ℕ) → (ℕ → ℕ) → Type 0
Elsewhere c chan chan' n n' =
    (j : ℕ) → (c == j) ≡ false → (points j chan' ≡ points j chan) × (n' j ≡ n j)

-- One object changes, with the references to it.
pub write-IsSound :
    (h : Heap) (chan chan' : Option ℕ) (next : ℕ) (n n' : ℕ → ℕ) (c : ℕ) (k : Conn)
    (o : Option Conn)
    → h c ≡ some k
    → Elsewhere c chan chan' n n'
    → IsCountedBy (points c chan') (n' c) o
    → IsSound h chan next n
    → IsSound (write h c o) chan' next n'
write-IsSound h chan chan' next n n' c k o e others here i = record {
  counted = λ j. elim (Bool-cases (c == j)) [
    | inl same ↦
        rw same (subst (λ z. IsCountedBy (points z chan') (n' z) o) ((==_iff c j).0 same) here)
    | inr other ↦ rw (other, (others j other).0, (others j other).1) (i.counted j)
  ];
  unused = λ j le. elim (Bool-cases (c == j)) [
    | inl same ↦
        let gone = i.unused c (subst (λ z. next ≤ z) (sym ((==_iff c j).0 same)) le) in
        absurd (some-ne-none k (sym e ∙ gone))
    | inr other ↦ rw other (i.unused j le)
  ];
}

pub here_counted :
    (h : Heap) (chan : Option ℕ) (next : ℕ) (n : ℕ → ℕ) (c : ℕ) (o : Option Conn)
    → h c ≡ o
    → IsSound h chan next n
    → IsCountedBy (points c chan) (n c) o
here_counted h chan next n c o e i =
    subst (λ z. IsCountedBy (points c chan) (n c) z) e (i.counted c)

-- A reference ends. Where it was chan_'s, the connection is dead.
decref-Becomes :
    (h : Heap) (chan chan' : Option ℕ) (next : ℕ) (n n' : ℕ → ℕ) (c : ℕ)
    → points c chan + n c ≡ suc (points c chan' + n' c)
    → Elsewhere c chan chan' n n'
    → ((k : Conn) → h c ≡ some k → points c chan' ≡ 0 → k.dead ≡ true)
    → IsSound h chan next n
    → Becomes chan' next n' (decref c h)
unfolding decref
decref-Becomes h chan chan' next n n' c total others if_dead i = by_object (h c) refl
  where
    by_object : (o : Option Conn) → h c ≡ o → Becomes chan' next n' (decref c h)
    by_object none e = let q = here_counted h chan next n c none e i in absurd (omega arith)
    by_object (some k) e =
        let q = here_counted h chan next n c (some k) e i in
        let positive : (k.refno == 0) ≡ false = ground arith in
        elim (Bool-cases (k.refno == 1)) [
          | inl one ↦
              let own : points c chan' ≡ 0 = ground arith in
              let left : points c chan' + n' c ≡ 0 = ground arith in
              (
                write h c none,
                rw (e, positive, one, if_dead k e own) refl,
                write-IsSound h chan chan' next n n' c k none e others left i,
              )
          | inr more ↦
              let k' = record k { refno = k.refno - 1 } in
              (
                write h c (some k'),
                rw (e, positive, more) refl,
                write-IsSound h chan chan' next n n' c k (some k') e others
                    (ground arith, ground arith, dead_if (points c chan') (if_dead k e)) i,
              )
        ]

-- A call's reference ends.
pub call-Becomes :
    (h : Heap) (chan : Option ℕ) (next : ℕ) (n : ℕ → ℕ) (c : ℕ)
    → IsSound h chan next (plus c n)
    → Becomes chan next n (decref c h)
call-Becomes h chan next n c i =
    let me : (c == c) ≡ true = (==_iff c c).1 refl in
    decref-Becomes h chan chan next (plus c n) n c (rw me (omega arith))
      (λ j other. (refl, ground arith))
      (λ k e. if_own (points c chan) (here_counted h chan next (plus c n) c (some k) e i).2) i

-- chan_ refers to its connection no more, which is dead.
pub chan-Becomes :
    (h : Heap) (next : ℕ) (n : ℕ → ℕ) (c : ℕ) (k : Conn)
    → h c ≡ some k
    → k.dead ≡ true
    → IsSound h (some c) next n
    → Becomes none next n (decref c h)
chan-Becomes h next n c k e dead i =
    let me : (c == c) ≡ true = (==_iff c c).1 refl in
    decref-Becomes h (some c) none next n n c (rw me (omega arith))
      (λ j other. (rw other refl, refl))
      (λ k' e' own. ap (λ (z : Conn). z.dead) (some-injective k' k (sym e' ∙ e)) ∙ dead) i

-- One more reference of a call.
pub incref-Becomes :
    (h : Heap) (chan : Option ℕ) (next : ℕ) (n : ℕ → ℕ) (c : ℕ)
    → 0 < points c chan
    → IsSound h chan next n
    → Becomes chan next (plus c n) (incref c h)
unfolding incref
incref-Becomes h chan next n c p i = by_object (h c) refl
  where
    by_object : (o : Option Conn) → h c ≡ o → Becomes chan next (plus c n) (incref c h)
    by_object none e = let q = here_counted h chan next n c none e i in absurd (omega arith)
    by_object (some k) e =
        let q = here_counted h chan next n c (some k) e i in
        let me : (c == c) ≡ true = (==_iff c c).1 refl in
        let k' = record k { refno = k.refno + 1 } in
        (
          write h c (some k'),
          rw e refl,
          write-IsSound h chan chan next n (plus c n) c k (some k') e
              (λ j other. (refl, ground arith)) (rw me (omega arith, omega arith, q.2)) i,
        )
