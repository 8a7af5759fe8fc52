-- ===== src/Rpc/Link/Owner.antt =====
-- Whose message is in wpdu_, and what went out before it.
use mathlib.Core.Path.{subst}
use cse_yet_another_file_sys.Base.{
  ℕ, ◌≤◌, ◌≡◌, ◌≢◌, refl, sym, ◌∙◌, ◌⊎◌, inl, inr, true, false, Bool, Option, none, some, [], ◌++◌,
  Bytes, ◌==◌, ==_iff, length, Map, lookup, insert, lookup-insert, arith, Bool-cases,
}
use cse_yet_another_file_sys.Rpc.Pdu.{Wpdu, framed, is_complete}
use cse_yet_another_file_sys.Rpc.Link.{
  Phase, queued, writing, failing, returned, Link, is_under_way,
}
use cse_yet_another_file_sys.Rpc.Link.Frames.{IsPrefix, SentPart, frames}

-- A thread that does not own the message that is sent. A message that waits has room for its size.
abbrev pub IsQuiet : Option Phase → Type 0
IsQuiet (some (queued b)) = 4 ≤ length b
IsQuiet (some (writing b)) = ⊥
IsQuiet (some (failing b)) = ⊥
IsQuiet _ = Unit

abbrev pub Owns : Bool → Bytes → Option Phase → Type 0
Owns dead b (some (writing c)) = c ≡ b
Owns dead b (some (failing c)) = (c ≡ b) × (dead ≡ true)
Owns dead b _ = ⊥

-- Nothing is sent: every message went out whole, or the connection is dead.
pub record IsFree (s : Link) (part : Bytes) : Type 0 where
  pub quiet : (t : ℕ) → IsQuiet (lookup t s.threads)
  pub whole : (s.dead ≡ true) ⊎ (part ≡ [])
  pub begun : (b : Bytes) × IsPrefix part (framed b)

-- One thread has its message in wpdu_, and `part` of it went out.
pub record IsBusy (s : Link) (part : Bytes) (u : Wpdu) (t : ℕ) (b : Bytes) : Type 0 where
  pub owner : Owns s.dead b (lookup t s.threads)
  pub quiet : (j : ℕ) → t ≢ j → IsQuiet (lookup j s.threads)
  pub sent : SentPart part b u.buf u.solong
  pub stopped : u.solong ≡ none → s.dead ≡ true

unfoldable pub Turns : Link → Bytes → Option Wpdu → Type 0
Turns s part none = IsFree s part
Turns s part (some u) = (t : ℕ) × (b : Bytes) × IsBusy s part u t b

abbrev pub IsOrdered : Link → Type 0
IsOrdered s = (part : Bytes) × (s.wire ≡ frames s.oks ++ part) × Turns s part s.wpdu

abbrev pub Keeps : Option Link → Type 0
Keeps none = Unit
Keeps (some s) = IsOrdered s

pub IsQuiet-insert :
    (t : ℕ) (p : Phase) (threads : Map Phase)
    → IsQuiet (some p)
    → ((j : ℕ) → t ≢ j → IsQuiet (lookup j threads))
    → (j : ℕ) → IsQuiet (lookup j (insert t p threads))
IsQuiet-insert t p threads here others j = elim (Bool-cases (t == j)) [
  | inl e ↦ rw (lookup-insert t j p threads, e) here
  | inr e ↦ rw (lookup-insert t j p threads, e) (others j (ground arith))
]

pub others-insert :
    (t i : ℕ) (p : Phase) (threads : Map Phase)
    → IsQuiet (some p)
    → ((j : ℕ) → i ≢ j → IsQuiet (lookup j threads))
    → (j : ℕ) → i ≢ j
    → IsQuiet (lookup j (insert t p threads))
others-insert t i p threads here others j n = elim (Bool-cases (t == j)) [
  | inl e ↦ rw (lookup-insert t j p threads, e) here
  | inr e ↦ rw (lookup-insert t j p threads, e) (others j n)
]

pub IsQuiet-owner :
    (t : ℕ) (p : Phase) (threads : Map Phase)
    → ((j : ℕ) → t ≢ j → IsQuiet (lookup j threads))
    → (j : ℕ) → t ≢ j
    → IsQuiet (lookup j (insert t p threads))
IsQuiet-owner t p threads others j n =
    let e : (t == j) ≡ false = ground arith in rw (lookup-insert t j p threads, e) (others j n)

pub at_itself : (t : ℕ) (p : Phase) (threads : Map Phase) → lookup t (insert t p threads) ≡ some p
at_itself t p threads =
    let e : (t == t) ≡ true = (==_iff t t).1 refl in rw (lookup-insert t t p threads, e) refl

pub not_both : (dead : Bool) (b : Bytes) (o : Option Phase) → Owns dead b o → IsQuiet o → ⊥
not_both dead b none x q = x
not_both dead b (some (queued c)) x q = x
not_both dead b (some (writing c)) x q = q
not_both dead b (some (failing c)) x q = q
not_both dead b (some (returned r)) x q = x

pub one_message :
    (dead : Bool) (b c : Bytes) (o : Option Phase) → Owns dead b o → Owns dead c o → b ≡ c
one_message dead b c none x y = absurd x
one_message dead b c (some (queued d)) x y = absurd x
one_message dead b c (some (writing d)) x y = sym x ∙ y
one_message dead b c (some (failing d)) x y = sym x.0 ∙ y.0
one_message dead b c (some (returned r)) x y = absurd x

-- A thread that is not the owner goes to another wait, or returns.
pub aside :
    (t : ℕ) (p : Phase) (s : Link) (n : ℕ)
    → IsQuiet (some p)
    → IsQuiet (lookup t s.threads)
    → IsOrdered s
    → IsOrdered (record s { threads = insert t p s.threads; waiters = n })
unfolding Turns
aside t p s n here before (part, w, h) = (part, w, by_owner s.wpdu h)
  where
    by_owner :
        (o : Option Wpdu)
        → Turns s part o
        → Turns (record s { threads = insert t p s.threads; waiters = n }) part o
    by_owner none f = record {
      quiet = IsQuiet-insert t p s.threads here (λ j m. f.quiet j);
      whole = f.whole;
      begun = f.begun;
    }
    by_owner (some u) (i, b, y) = (
      i,
      b,
      record {
        owner = elim (Bool-cases (t == i)) [
          | inl e ↦ absurd (
              not_both s.dead b (lookup i s.threads) y.owner
                (subst (λ k. IsQuiet (lookup k s.threads)) ((==_iff t i).0 e) before))
          | inr e ↦ rw (lookup-insert t i p s.threads, e) y.owner
        ];
        quiet = others-insert t i p s.threads here y.quiet;
        sent = y.sent;
        stopped = y.stopped;
      },
    )

pub free : {s : Link} (part : Bytes) → Turns s part none → IsFree s part
unfolding Turns
free part f = f

pub recount : (s : Link) (n : ℕ) → IsOrdered s → IsOrdered (record s { waiters = n })
unfolding Turns
recount s n (part, w, h) = (part, w, by_owner s.wpdu h)
  where
    by_owner : (o : Option Wpdu) → Turns s part o → Turns (record s { waiters = n }) part o
    by_owner none f = record { quiet = f.quiet; whole = f.whole; begun = f.begun }
    by_owner (some u) (i, b, y) =
        (i, b, record { owner = y.owner; quiet = y.quiet; sent = y.sent; stopped = y.stopped })

-- A thread whose message waits.
pub waits-IsQuiet :
    (t : ℕ) (b : Bytes) (s : Link)
    → lookup t s.threads ≡ some (queued b)
    → IsOrdered s
    → IsQuiet (lookup t s.threads)
unfolding Turns
waits-IsQuiet t b s e (part, w, h) = by_owner s.wpdu h
  where
    by_owner : (o : Option Wpdu) → Turns s part o → IsQuiet (lookup t s.threads)
    by_owner none f = f.quiet t
    by_owner (some u) (i, c, y) = elim (Bool-cases (i == t)) [
      | inl same ↦
          let mine : Owns s.dead c (some (queued b)) =
            subst (Owns s.dead c) e
              (subst (λ j. Owns s.dead c (lookup j s.threads)) ((==_iff i t).0 same) y.owner) in
          absurd mine
      | inr other ↦ y.quiet t (ground arith)
    ]

-- A thread whose write failed.
pub failing-dead :
    (t : ℕ) (b : Bytes) (s : Link)
    → lookup t s.threads ≡ some (failing b)
    → IsOrdered s
    → s.dead ≡ true
unfolding Turns
failing-dead t b s e (part, w, h) = by_owner s.wpdu h
  where
    by_owner : (o : Option Wpdu) → Turns s part o → s.dead ≡ true
    by_owner none f = absurd (subst IsQuiet e (f.quiet t))
    by_owner (some u) (i, c, y) = elim (Bool-cases (i == t)) [
      | inl same ↦
          let mine : Owns s.dead c (some (failing b)) =
            subst (Owns s.dead c) e
              (subst (λ j. Owns s.dead c (lookup j s.threads)) ((==_iff i t).0 same) y.owner) in
          mine.1
      | inr other ↦ absurd (subst IsQuiet e (y.quiet t (ground arith)))
    ]

-- A message that is not under way any more was written to its end, or a write failed.
pub at_end :
    (dead : Bool) (part c buf : Bytes) (o : Option ℕ)
    → SentPart part c buf o
    → (o ≡ none → dead ≡ true)
    → is_under_way o (length buf) ≡ false
    → (dead ≡ true) ⊎ (is_complete (record { buf = buf; solong = o }) o ≡ true)
at_end dead part c buf none sent stopped g = inl (stopped refl)
at_end dead part c buf (some n) (e, l, four) stopped g = inr (ground arith)
