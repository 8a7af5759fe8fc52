-- ===== src/Rpc/Link/Order.antt =====
-- What went out on a connection, whatever threads and callbacks do.
use mathlib.Core.Path.{subst}
use mathlib.Core.List.{append_assoc}
use cse_yet_another_file_sys.Base.{
  ℕ, ◌-◌, ◌≤◌, ◌≡◌, refl, ap, ◌∙◌, ◌⊎◌, inl, inr, true, false, Bool, not, Option, none, some, List,
  [], ◌∷◌, ◌++◌, Bytes, if◌then◌else◌, length, All, lookup,
}
use cse_yet_another_file_sys.Rpc.Pdu.{Wpdu, framed, writepdu}
use cse_yet_another_file_sys.Rpc.Link.{
  Phase, queued, writing, failing, returned, Link, fresh, Kernel, called_back, write_more, write_at,
  write_cb, closeconn, Event, sends, wakes, writable, closes, step, run,
}
use cse_yet_another_file_sys.Rpc.Link.Frames.{
  AtMost, IsPrefix, SentPart, SentPart-IsPrefix, Stops, writepdu-SentPart, frames,
}
use cse_yet_another_file_sys.Rpc.Link.Owner.{Owns, IsBusy, Turns, IsOrdered, Keeps}
use cse_yet_another_file_sys.Rpc.Link.Turns.{send-Keeps, turn-Keeps}

owner_alive : (d : Bool) (b : Bytes) (o : Option Phase) → Owns false b o → Owns d b o
owner_alive d b none x = x
owner_alive d b (some (queued c)) x = x
owner_alive d b (some (writing c)) x = x
owner_alive d b (some (failing c)) x = cc
owner_alive d b (some (returned r)) x = x

Stops-dead : (succ : Bool) (o : Option ℕ) → Stops succ o → o ≡ none → not succ ≡ true
Stops-dead true none x e = absurd x
Stops-dead true (some n) x e = cc
Stops-dead false o x e = refl

-- A write of some more of the message.
called_back-Keeps :
    (k : Kernel) (s : Link) (u : Wpdu) (n t : ℕ) (part b : Bytes)
    → ((n : ℕ) → AtMost n (k n))
    → s.dead ≡ false
    → s.wire ≡ frames s.oks ++ part
    → u.solong ≡ some n
    → IsBusy s part u t b
    → Keeps (called_back s (writepdu u (k (length u.buf - n))))
unfolding Turns
called_back-Keeps k s u n t part b kernel d w e y =
    let (succ, u1, out, wrote, sent, stops) =
      writepdu-SentPart part b u.buf n (k (length u.buf - n))
        (subst (SentPart part b u.buf) e y.sent) (kernel (length u.buf - n)) in
    let same : u ≡ record { buf = u.buf; solong = some n } = ap (λ o. record u { solong = o }) e in
    let written : writepdu u (k (length u.buf - n)) ≡ some (succ, u1, out) =
      ap (λ v. writepdu v (k (length u.buf - n))) same ∙ wrote in
    let line : s.wire ++ out ≡ frames s.oks ++ (part ++ out) =
      ap (λ x. x ++ out) w ∙ append_assoc (frames s.oks) part out in
    let alive : Owns false b (lookup t s.threads) =
      subst (λ x. Owns x b (lookup t s.threads)) d y.owner in
    rw written (
      part ++ out,
      line,
      (
        t,
        b,
        record {
          owner = owner_alive (not succ) b (lookup t s.threads) alive;
          quiet = y.quiet;
          sent = sent;
          stopped = Stops-dead succ u1.solong stops;
        },
      ),
    )

write_cb-Keeps :
    (k : Kernel) (s : Link) → ((n : ℕ) → AtMost n (k n)) → IsOrdered s → Keeps (write_cb k s)
unfolding write_cb Turns
write_cb-Keeps k s kernel h = by_dead s.dead refl
  where
    by_size :
        s.dead ≡ false
        → (u : Wpdu) → s.wpdu ≡ some u
        → (o : Option ℕ) → u.solong ≡ o
        → Keeps (write_more k s u o)
    by_size d u e none z = h
    by_size d u e (some n) z =
        let (part, w, busy) = h in
        let (t, b, y) : Turns s part (some u) = subst (Turns s part) e busy in
        called_back-Keeps k s u n t part b kernel d w z y

    by_turn : s.dead ≡ false → (o : Option Wpdu) → s.wpdu ≡ o → Keeps (write_at k s o)
    by_turn d none e = h
    by_turn d (some u) e = by_size d u e u.solong refl

    by_dead : (d : Bool) → s.dead ≡ d → Keeps (if d then none else write_at k s s.wpdu)
    by_dead true d = tt
    by_dead false d = by_turn d s.wpdu refl

closeconn-IsOrdered : (s : Link) → IsOrdered s → IsOrdered (closeconn s)
unfolding closeconn Turns
closeconn-IsOrdered s (part, w, h) = (part, w, by_owner s.wpdu h)
  where
    dies : (b : Bytes) (o : Option Phase) → Owns s.dead b o → Owns true b o
    dies b none x = x
    dies b (some (queued c)) x = x
    dies b (some (writing c)) x = x
    dies b (some (failing c)) x = (x.0, refl)
    dies b (some (returned r)) x = x

    by_owner : (o : Option Wpdu) → Turns s part o → Turns (record s { dead = true }) part o
    by_owner none f = record { quiet = f.quiet; whole = inl refl; begun = f.begun }
    by_owner (some u) (i, b, y) = (
      i,
      b,
      record {
        owner = dies b (lookup i s.threads) y.owner;
        quiet = y.quiet;
        sent = y.sent;
        stopped = λ e. refl;
      },
    )

-- What the callers and the kernel have to keep to: a message has room for its size, and a write takes
-- at most what it is given.
abbrev pub IsFair : Event → Type 0
IsFair (sends t b k) = (4 ≤ length b) × ((n : ℕ) → AtMost n (k n))
IsFair (wakes t k) = (n : ℕ) → AtMost n (k n)
IsFair (writable k) = (n : ℕ) → AtMost n (k n)
IsFair closes = Unit

step-Keeps : (e : Event) (s : Link) → IsFair e → IsOrdered s → Keeps (step e s)
unfolding step
step-Keeps (sends t b k) s (long, kernel) h = send-Keeps t b k long kernel s h
step-Keeps (wakes t k) s kernel h = turn-Keeps t k s kernel h
step-Keeps (writable k) s kernel h = write_cb-Keeps k s kernel h
step-Keeps closes s f h = closeconn-IsOrdered s h

run-Keeps : (es : List Event) (o : Option Link) → All IsFair es → Keeps o → Keeps (run es o)
unfolding run
run-Keeps [] o f h = h
run-Keeps (e ∷ es) none f h = tt
run-Keeps (e ∷ es) (some s) f h = run-Keeps es (step e s) f.1 (step-Keeps e s f.0 h)

fresh-IsOrdered : IsOrdered fresh
unfolding Turns lookup
fresh-IsOrdered =
    ([], refl, record { quiet = λ t. tt; whole = inr refl; begun = ([], (framed [], refl)) })

-- Nothing has been written of a message that is not finished, if the connection is not dead and no
-- message is in wpdu_.
abbrev pub IsWhole : Bool → Option Wpdu → Bytes → Type 0
IsWhole false none part = part ≡ []
IsWhole _ _ part = Unit

IsOrdered-out :
    (s : Link)
    → IsOrdered s
    → (part b : Bytes) × (s.wire ≡ frames s.oks ++ part)
      × IsPrefix part (framed b)
      × IsWhole s.dead s.wpdu part
unfolding Turns
IsOrdered-out s (part, w, h) = by_owner s.wpdu refl h
  where
    no_rest : (dead : Bool) → (dead ≡ true) ⊎ (part ≡ []) → IsWhole dead none part
    no_rest false (inl e) = cc
    no_rest false (inr e) = e
    no_rest true e = tt

    busy : (dead : Bool) (u : Wpdu) → IsWhole dead (some u) part
    busy false u = tt
    busy true u = tt

    by_owner :
        (o : Option Wpdu)
        → s.wpdu ≡ o
        → Turns s part o
        → (part b : Bytes) × (s.wire ≡ frames s.oks ++ part)
          × IsPrefix part (framed b)
          × IsWhole s.dead o part
    by_owner none e f = (part, f.begun.0, w, f.begun.1, no_rest s.dead f.whole)
    by_owner (some u) e (i, b, y) =
        (part, b, w, SentPart-IsPrefix part b u.buf u.solong y.sent, busy s.dead u)

-- Messages are not mixed: however many threads send on a connection, in whatever order they and the
-- callbacks get its mutex, and wherever it is closed or a write fails, as long as no VERIFY fails, what
-- the kernel took is the messages for which send returned true, each once, whole, behind its size and
-- in the order of the returns, and then at most the beginning of one more message; nothing more, if
-- the connection is not dead and no message is in wpdu_. A message has at least four bytes, and a write
-- takes at most what it is given.
pub run_lem :
    (es : List Event) (s : Link)
    → All IsFair es
    → run es (some fresh) ≡ some s
    → (part b : Bytes) × (s.wire ≡ frames s.oks ++ part)
      × IsPrefix part (framed b)
      × IsWhole s.dead s.wpdu part
run_lem es s f e =
    let kept : Keeps (some s) = subst Keeps e (run-Keeps es (some fresh) f fresh-IsOrdered) in
    IsOrdered-out s kept
