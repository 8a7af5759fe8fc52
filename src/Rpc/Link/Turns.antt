-- ===== src/Rpc/Link/Turns.antt =====
-- Threads take turns on a connection, and no message is mixed with another.
use mathlib.Core.Path.{subst}
use mathlib.Core.List.{append-nil}
use cse_yet_another_file_sys.Base.{
  ℕ, ◌+◌, ◌-◌, ◌≤◌, ◌≡◌, ◌≢◌, refl, sym, ap, ◌∙◌, ◌⊎◌, inl, inr, true, false, Bool, not, ◌&&◌,
  Option, none, some, [], ◌∷◌, ◌++◌, Bytes, ◌==◌, ==_iff, if◌then◌else◌, length, lookup, insert,
  arith, Bool-cases,
}
use cse_yet_another_file_sys.Rpc.Pdu.{Wpdu, framed, writepdu, to_send, is_complete}
use cse_yet_another_file_sys.Rpc.Link.{
  Phase, queued, writing, failing, returned, Link, Kernel, complete, finish, started, first_write,
  try_send, goes_on, go, turn, may_call, send,
}
use cse_yet_another_file_sys.Rpc.Link.Frames.{
  AtMost, SentPart, SentPart-IsPrefix, Stops, writepdu-SentPart, complete-framed, frames,
  frames-snoc,
}
use cse_yet_another_file_sys.Rpc.Link.Owner.{
  IsQuiet, Owns, IsFree, Turns, IsOrdered, Keeps, IsQuiet-insert, IsQuiet-owner, at_itself,
  not_both, one_message, aside, free, recount, waits-IsQuiet, failing-dead, at_end,
}

-- The owner returns.
finish-IsOrdered :
    (t : ℕ) (b part : Bytes) (u : Wpdu) (s : Link)
    → s.wpdu ≡ some u
    → s.wire ≡ frames s.oks ++ part
    → ((j : ℕ) → t ≢ j → IsQuiet (lookup j s.threads))
    → SentPart part b u.buf u.solong
    → (s.dead ≡ true) ⊎ (is_complete u u.solong ≡ true)
    → IsOrdered (finish t b s)
unfolding finish Turns
finish-IsOrdered t b part u s has w others sent end = elim (Bool-cases s.dead) [
  | inl d ↦
      let fails : (not s.dead && complete s.wpdu) ≡ false = rw d refl in
      rw fails (
        part,
        w,
        record {
          quiet = IsQuiet-insert t (returned false) s.threads tt others;
          whole = inl d;
          begun = (b, SentPart-IsPrefix part b u.buf u.solong sent);
        },
      )
  | inr d ↦
      let all : is_complete u u.solong ≡ true = finished end d in
      let succeeds : (not s.dead && complete s.wpdu) ≡ true = rw (d, has) all in
      let out : s.wire ≡ frames (s.oks ++ b ∷ []) ++ [] =
        w
        ∙ ap (λ x. frames s.oks ++ x) (complete-framed part b u.buf u.solong sent all)
        ∙ sym (frames-snoc s.oks b)
        ∙ sym (append-nil (frames (s.oks ++ b ∷ []))) in
      rw succeeds (
        [],
        out,
        record {
          quiet = IsQuiet-insert t (returned true) s.threads tt others;
          whole = inr refl;
          begun = (b, (framed b, refl));
        },
      )
]
  where
    finished :
        (s.dead ≡ true) ⊎ (is_complete u u.solong ≡ true)
        → s.dead ≡ false
        → is_complete u u.solong ≡ true
    finished (inl e) d = let clash : true ≡ false = sym e ∙ d in cc
    finished (inr e) d = e

module _ (t : ℕ) (b : Bytes) (k : Kernel) (long : 4 ≤ length b)
    (kernel : (n : ℕ) → AtMost n (k n)) where
  -- The first write of a message, on a connection that nobody sends on.
  started-Keeps :
      (s : Link) (part : Bytes) (n : ℕ)
      → s.wpdu ≡ none
      → s.dead ≡ false
      → s.wire ≡ frames s.oks ++ part
      → IsFree s part
      → Keeps (started t b (record s { waiters = n }) (writepdu (to_send b) (k (length b))))
  unfolding Turns
  started-Keeps s part n has d w f =
      let nothing : part ≡ [] = alive f.whole in
      let all_left : length b - 0 ≡ length b = omega arith in
      let (succ, u, out, wrote, sent, stops) =
        writepdu-SentPart [] b b 0 (k (length b)) (whole_frame, omega arith, long)
          (rw all_left (kernel (length b))) in
      let line : s.wire ++ out ≡ frames s.oks ++ out =
        ap (λ x. x ++ out) (w ∙ ap (λ x. frames s.oks ++ x) nothing ∙ append-nil (frames s.oks)) in
      rw wrote (after succ u out sent stops line)
    where
      alive : (s.dead ≡ true) ⊎ (part ≡ []) → part ≡ []
      alive (inl e) = let clash : true ≡ false = sym e ∙ d in cc
      alive (inr e) = e

      whole_frame : [] ++ framed b ≡ framed b
      whole_frame = refl

      after :
          (succ : Bool) (u : Wpdu) (out : Bytes)
          → SentPart out b u.buf u.solong
          → Stops succ u.solong
          → s.wire ++ out ≡ frames s.oks ++ out
          → Keeps (started t b (record s { waiters = n }) (some (succ, u, out)))
      after false u out sent stops line = (
        out,
        line,
        (
          t,
          b,
          record {
            owner = rw (at_itself t (failing b) s.threads) (refl, refl);
            quiet = IsQuiet-owner t (failing b) s.threads (λ j m. f.quiet j);
            sent = sent;
            stopped = λ e. refl;
          },
        ),
      )
      after true u out sent stops line = elim (Bool-cases (is_complete u u.solong)) [
        | inl all ↦ rw all (
            finish-IsOrdered t b out u
              (record s { waiters = n; wpdu = some u; wire = s.wire ++ out }) refl line
              (λ j m. f.quiet j) sent (inr all))
        | inr more ↦ rw more (
          out,
          line,
          (
            t,
            b,
            record {
              owner = rw (at_itself t (writing b) s.threads) refl;
              quiet = IsQuiet-owner t (writing b) s.threads (λ j m. f.quiet j);
              sent = sent;
              stopped = λ e. absurd (rw e at stops);
            },
          ),
        )
      ]

  try_send-Keeps :
      (s : Link) → IsQuiet (lookup t s.threads) → IsOrdered s → Keeps (try_send t b k s)
  unfolding try_send
  try_send-Keeps s q h = by_dead s.dead refl
    where
      by_turn : s.dead ≡ false → (o : Option Wpdu) → s.wpdu ≡ o → Keeps (first_write t b k s o)
      by_turn d none e =
          let (part, w, f) = h in
          started-Keeps s part (s.waiters - 1) e d w (free part (subst (λ o. Turns s part o) e f))
      by_turn d (some u) e = aside t (queued b) s s.waiters long q h

      by_dead :
          (d : Bool)
          → s.dead ≡ d
          → Keeps (
              if d
              then some (record s {
                waiters = s.waiters - 1;
                threads = insert t (returned false) s.threads;
              })
              else first_write t b k s s.wpdu)
      by_dead true d = aside t (returned false) s (s.waiters - 1) tt q h
      by_dead false d = by_turn d s.wpdu refl

  pub send-Keeps : (s : Link) → IsOrdered s → Keeps (send t b k s)
  unfolding send
  send-Keeps s h = elim (Bool-cases (may_call (lookup t s.threads))) [
    | inl e ↦ rw e (
        try_send-Keeps (record s { waiters = s.waiters + 1 }) (caller (lookup t s.threads) e)
          (recount s (s.waiters + 1) h))
    | inr e ↦ rw e h
  ]
    where
      caller : (o : Option Phase) → may_call o ≡ true → IsQuiet o
      caller none e = tt
      caller (some (returned r)) e = tt
      caller (some (queued c)) e = cc
      caller (some (writing c)) e = cc
      caller (some (failing c)) e = cc

-- The thread that owns the message has the mutex.
owner-Keeps :
    (t : ℕ) (c : Bytes) (s : Link)
    → Owns s.dead c (lookup t s.threads)
    → IsOrdered s
    → (s.dead ≡ true) ⊎ (goes_on s.wpdu ≡ false)
    → IsOrdered (finish t c s)
unfolding Turns
owner-Keeps t c s own (part, w, h) over = by_owner s.wpdu refl h
  where
    ended :
        (u : Wpdu)
        → s.wpdu ≡ some u
        → SentPart part c u.buf u.solong
        → (u.solong ≡ none → s.dead ≡ true)
        → (s.dead ≡ true) ⊎ (is_complete u u.solong ≡ true)
    ended u e sent stopped = by_over over
      where
        by_over :
            (s.dead ≡ true) ⊎ (goes_on s.wpdu ≡ false)
            → (s.dead ≡ true) ⊎ (is_complete u u.solong ≡ true)
        by_over (inl d) = inl d
        by_over (inr g) = at_end s.dead part c u.buf u.solong sent stopped (rw e at g)

    by_owner : (o : Option Wpdu) → s.wpdu ≡ o → Turns s part o → IsOrdered (finish t c s)
    by_owner none e f = absurd (not_both s.dead c (lookup t s.threads) own (f.quiet t))
    by_owner (some u) e (i, b, y) = elim (Bool-cases (i == t)) [
      | inl same ↦
          let mine : Owns s.dead b (lookup t s.threads) =
            subst (λ j. Owns s.dead b (lookup j s.threads)) ((==_iff i t).0 same) y.owner in
          let message : b ≡ c = one_message s.dead b c (lookup t s.threads) mine own in
          finish-IsOrdered t c part u s e w
            (λ j n. y.quiet j (subst (λ m. m ≢ j) (sym ((==_iff i t).0 same)) n))
            (subst (λ m. SentPart part m u.buf u.solong) message y.sent)
            (ended u e (subst (λ m. SentPart part m u.buf u.solong) message y.sent) y.stopped)
      | inr other ↦ absurd (not_both s.dead c (lookup t s.threads) own (y.quiet t (ground arith)))
    ]

-- A thread that was waiting has the mutex.
pub turn-Keeps :
    (t : ℕ) (k : Kernel) (s : Link) → ((n : ℕ) → AtMost n (k n)) → IsOrdered s → Keeps (turn t k s)
unfolding turn
turn-Keeps t k s kernel h = by_phase (lookup t s.threads) refl
  where
    by_phase : (o : Option Phase) → lookup t s.threads ≡ o → Keeps (go t k s o)
    by_phase none e = h
    by_phase (some (queued b)) e =
        let quiet = waits-IsQuiet t b s e h in
        let long : 4 ≤ length b = rw e at quiet in try_send-Keeps t b k long kernel s quiet h
    by_phase (some (writing b)) e = elim (Bool-cases (not s.dead && goes_on s.wpdu)) [
      | inl waits ↦ rw waits h
      | inr over ↦ rw over (owner-Keeps t b s (rw e refl) h (ground arith))
    ]
    by_phase (some (failing b)) e =
        let d = failing-dead t b s e h in owner-Keeps t b s (rw e (refl, d)) h (inl d)
    by_phase (some (returned r)) e = h
