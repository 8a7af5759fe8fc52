-- ===== src/Rpc/Caller/Deadline.antt =====
-- rpcc::call1: a call returns, with its reply or with a timeout.
use native.Mathlib.Nat.{pow-suc}
use cse_yet_another_file_sys.Base.{
  ℕ, zero, suc, ◌+◌, ◌*◌, ◌%◌, ◌^◌, ◌≤◌, ◌<◌, ◌≡◌, ◌≢◌, refl, ◌∙◌, sym, ◌⊎◌, inl, inr, Bool, true,
  false, Option, none, some, List, ◌∷◌, leb, ◌==◌, if◌then◌else◌, arith, Bool-cases, Option-cases,
  lookup, insert, erase, lookup-insert, lookup-erase,
}
use cse_yet_another_file_sys.Rpc.Status.{u32}
use cse_yet_another_file_sys.Rpc.Connection.{Connection}
use cse_yet_another_file_sys.Rpc.XidWindow.Place.{update-some}
use cse_yet_another_file_sys.Rpc.Timespec.{
  Timespec, cmp_timespec, Order, greater, less, equal, add_timespec, second, nanos,
  cmp_timespec-greater, add_timespec_lem, add_timespec-seconds,
}
use cse_yet_another_file_sys.Rpc.Caller.{
  Rpcc, waiting, waited, Round, transmitted, next_round, limited, after_wait, rounds, first_round,
  ret_of, request, refused, call1, timeout_failure,
}

module _ (clock : ℕ → Timespec) (connect : ℕ → Option Connection) (dead : ℕ → Connection → Bool)
    (reply : ℕ → Timespec → Option ℕ) where
  transmitted-same :
      (b : Bool) (k : ℕ) (r : Round)
      → ((transmitted clock connect dead reply b k r).curr_to ≡ r.curr_to)
        × ((transmitted clock connect dead reply b k r).finaldeadline ≡ r.finaldeadline)
  unfolding transmitted
  transmitted-same b k r = elim (Bool-cases r.transmit) [
    | inl e ↦ rw e (refl, refl)
    | inr e ↦ rw e (refl, refl)
  ]

  -- The reply came in some round, if there is one.
  Came : Option ℕ → Type 0
  Came none = Unit
  Came (some ret) = (k : ℕ) × (t : Timespec) × (reply k t ≡ some ret)

  abbrev Returns : Option (Option ℕ × Round) → Type 0
  Returns out = (o : Option ℕ) × (r : Round) × (out ≡ some (o, r)) × Came o

  -- A round that waits until a time with less than a second of nanoseconds.
  after_wait-Returns :
      (k : ℕ) (deadline : Timespec) (r : Round) (later : Option (Option ℕ × Round))
      → deadline.tv_nsec < second
      → Returns later
      → Returns (after_wait clock connect dead reply (waited (reply k deadline) deadline) r later)
  unfolding Came
  after_wait-Returns k deadline r later l h = elim (Option-cases (reply k deadline)) [
    | inl e ↦ let short : leb second deadline.tv_nsec ≡ false = ground arith in rw (e, short) h
    | inr (ret, e) ↦ (some ret, r, rw e refl, (k, deadline, e))
  ]

  -- The round after the last one.
  rounds-over :
      (retrans reachable : Bool) (fuel k : ℕ) (r : Round)
      → r.finaldeadline.tv_sec ≡ 0
      → Returns (rounds clock connect dead reply retrans reachable (suc fuel) k r)
  unfolding rounds Came
  rounds-over retrans reachable fuel k r e =
      let over : (r.finaldeadline.tv_sec == 0) ≡ true = ground arith in
      (none, transmitted clock connect dead reply reachable k r, rw over refl, tt)

  limited-short :
      (o : Order) (next final : Timespec)
      → next.tv_nsec < second
      → final.tv_nsec < second
      → (limited clock connect dead reply o next final).0.tv_nsec < second
  limited-short greater next final l m = m
  limited-short less next final l m = l
  limited-short equal next final l m = l

  -- A round returns if the rounds after it do.
  rounds-step :
      (retrans reachable : Bool) (fuel k : ℕ) (r : Round)
      → r.finaldeadline.tv_nsec < second
      → (add_timespec (clock (suc k)) r.curr_to).tv_nsec < second
      → Returns (
          rounds clock connect dead reply retrans reachable fuel (suc k) (
            next_round clock connect dead reply retrans k
              (transmitted clock connect dead reply reachable k r)
              (limited clock connect dead reply
                (cmp_timespec (add_timespec (clock (suc k)) r.curr_to) r.finaldeadline)
                (add_timespec (clock (suc k)) r.curr_to)
                r.finaldeadline).1))
      → Returns (rounds clock connect dead reply retrans reachable (suc fuel) k r)
  unfolding rounds
  rounds-step retrans reachable fuel k r short next_short later =
      elim (Bool-cases (r.finaldeadline.tv_sec == 0)) [
        | inl e ↦ rounds-over retrans reachable fuel k r (ground arith)
        | inr e ↦
            let next = add_timespec (clock (suc k)) r.curr_to in
            let o = cmp_timespec next r.finaldeadline in
            rw e (
              after_wait-Returns k (limited clock connect dead reply o next r.finaldeadline).0
                (transmitted clock connect dead reply reachable k r) _
                (limited-short o next r.finaldeadline next_short short) later)
      ]

  -- A clock of which no reading has a second of nanoseconds or is before the first, and a timeout of
  -- whole seconds.
  module _ (to : ℕ) (short : (k : ℕ) → (clock k).tv_nsec < second)
      (onward : (k : ℕ) → nanos (clock 0) ≤ nanos (clock k)) (whole : to % 1000 ≡ 0)
      (moderate : to < 2 ^ 30) where
    -- A round in which the final deadline is not passed waits at most as long as the whole call.
    not_last :
        (k curr : ℕ) (o : Order)
        → o ≢ greater
        → (add_timespec (clock (suc k)) curr).tv_nsec < second
        → cmp_timespec (add_timespec (clock (suc k)) curr) (add_timespec (clock 0) to) ≡ o
        → curr ≤ to
    not_last k curr o n l e =
        let next = add_timespec (clock (suc k)) curr in
        let final = add_timespec (clock 0) to in
        let at_next = (add_timespec_lem (clock (suc k)) curr).0 in
        let at_final = (add_timespec_lem (clock 0) to).0 in
        let later = onward (suc k) in
        elim (Bool-cases (leb curr to)) [
          | inl small ↦ ground arith
          | inr large ↦
              let past : nanos final < nanos next =
                let big : to < curr = ground arith in omega (arith, at_next, at_final, later) in
              absurd (n (sym e ∙ cmp_timespec-greater next final (omega arith) past))
        ]

    -- The rounds from `k` on return, from any round that has doubled its wait so often.
    abbrev AllReturn : Bool → Bool → ℕ → ℕ → Type 0
    AllReturn retrans reachable fuel k =
        (r : Round)
        → r.curr_to ≡ 1000 * 2 ^ k
        → r.finaldeadline ≡ add_timespec (clock 0) to
        → Returns (rounds clock connect dead reply retrans reachable fuel k r)

    -- The rounds after one that is not the last.
    goes_on :
        (retrans reachable : Bool) (fuel k : ℕ) (r : Round) (o : Order)
        → r.curr_to ≡ 1000 * 2 ^ k
        → r.finaldeadline ≡ add_timespec (clock 0) to
        → (add_timespec (clock (suc k)) r.curr_to).tv_nsec < second
        → (to < 1000 * 2 ^ k) ⊎ AllReturn retrans reachable fuel (suc k)
        → o ≢ greater
        → cmp_timespec (add_timespec (clock (suc k)) r.curr_to) r.finaldeadline ≡ o
        → Returns (
            rounds clock connect dead reply retrans reachable fuel (suc k) (
              next_round clock connect dead reply retrans k
                (transmitted clock connect dead reply reachable k r)
                r.finaldeadline))
    unfolding next_round
    goes_on retrans reachable fuel k r o c f l (inl last) n e =
        let small : r.curr_to ≤ to = not_last k r.curr_to o n l (rw f at e) in
        absurd (omega (arith, c))
    goes_on retrans reachable fuel k r o c f l (inr more) n e =
        let small : r.curr_to ≤ to = not_last k r.curr_to o n l (rw f at e) in
        let same = (transmitted-same reachable k r).0 in
        more _ (rw same (omega (arith, c, pow-suc 2 k))) f

    by_order :
        (retrans reachable : Bool) (fuel k : ℕ) (r : Round)
        → r.curr_to ≡ 1000 * 2 ^ k
        → r.finaldeadline ≡ add_timespec (clock 0) to
        → (add_timespec (clock (suc k)) r.curr_to).tv_nsec < second
        → (to < 1000 * 2 ^ k) ⊎ AllReturn retrans reachable (suc fuel) (suc k)
        → (o : Order) → cmp_timespec (add_timespec (clock (suc k)) r.curr_to) r.finaldeadline ≡ o
        → Returns (
            rounds clock connect dead reply retrans reachable (suc fuel) (suc k) (
              next_round clock connect dead reply retrans k
                (transmitted clock connect dead reply reachable k r)
                (limited clock connect dead reply o
                  (add_timespec (clock (suc k)) r.curr_to)
                  r.finaldeadline).1))
    unfolding next_round
    by_order retrans reachable fuel k r c f l more greater e =
        rounds-over retrans reachable fuel (suc k) _ refl
    by_order retrans reachable fuel k r c f l more less e =
        goes_on retrans reachable (suc fuel) k r less c f l more (λ z. cc) e
    by_order retrans reachable fuel k r c f l more equal e =
        goes_on retrans reachable (suc fuel) k r equal c f l more (λ z. cc) e

    one_round :
        (retrans reachable : Bool) (fuel k : ℕ)
        → (to < 1000 * 2 ^ k) ⊎ AllReturn retrans reachable (suc fuel) (suc k)
        → AllReturn retrans reachable (suc (suc fuel)) k
    one_round retrans reachable fuel k more r c f =
        let seconds : r.curr_to % 1000 ≡ 0 = omega (arith, c) in
        let l : (add_timespec (clock (suc k)) r.curr_to).tv_nsec < second =
          rw (add_timespec-seconds (clock (suc k)) r.curr_to (short (suc k)) seconds)
            (short (suc k)) in
        let final : r.finaldeadline.tv_nsec < second =
          rw (f, add_timespec-seconds (clock 0) to (short 0) whole) (short 0) in
        rounds-step retrans reachable (suc fuel) k r final l
          (by_order retrans reachable fuel k r c f l more _ refl)

    rounds-Returns :
        (d k fuel : ℕ) (retrans reachable : Bool)
        → to < 1000 * 2 ^ (k + d)
        → d + 2 ≤ fuel
        → AllReturn retrans reachable fuel k
    rounds-Returns d k zero retrans reachable l m = absurd (omega arith)
    rounds-Returns d k (suc zero) retrans reachable l m = absurd (omega arith)
    rounds-Returns zero k (suc (suc fuel)) retrans reachable l m =
        let here : k + 0 ≡ k = omega arith in
        one_round retrans reachable fuel k (inl (rw here at l))
    rounds-Returns (suc d) k (suc (suc fuel)) retrans reachable l m =
        let next : k + suc d ≡ suc k + d = omega arith in
        one_round retrans reachable fuel k
          (inr (rounds-Returns d (suc k) (suc fuel) retrans reachable (rw next at l) (omega arith)))

    came :
        (o : Option ℕ)
        → Came o
        → (ret_of clock connect dead reply o ≡ timeout_failure)
          ⊎ ((k : ℕ) × (t : Timespec) × (reply k t ≡ some (ret_of clock connect dead reply o)))
    unfolding Came
    came none c = inl refl
    came (some ret) c = inr c

    -- A call that is not refused returns, if its timeout is of whole seconds, less than 1000 * 2^n
    -- and less than 2^30 milliseconds, and no reading of the clock is before the first: n + 2
    -- rounds are enough, whatever connections there are and whether or not they live. It returns
    -- what a reply in one of the rounds says, or timeout_failure. Its xid is then not among the
    -- callers, the callers of other xids `j` are as before, and the next call has the next xid.
    pub call1_lem :
        (n proc front j : ℕ) (rest : List ℕ) (s : Rpcc)
        → to < 1000 * 2 ^ n
        → refused clock connect dead reply proc s ≡ none
        → s.xid_rep_window ≡ front ∷ rest
        → (ret : ℕ) × (s' : Rpcc) × (call1 clock connect dead reply (n + 2) proc to s
            ≡ some (ret, s'))
          × ((ret ≡ timeout_failure) ⊎ ((k : ℕ) × (t : Timespec) × (reply k t ≡ some ret)))
          × (lookup j s'.calls ≡ (if s.xid == j then none else lookup j s.calls))
          × (s'.xid ≡ u32 (s.xid + 1))
    unfolding call1 request
    call1_lem n proc front j rest s l allowed window =
        let start : 0 + n ≡ n = omega arith in
        let (o, r, ran, c) =
          rounds-Returns n 0 (n + 2) s.retrans s.reachable (rw start l) (omega arith)
            (first_round clock connect dead reply to) refl refl in
        let (window', updated) = update-some front s.xid rest in
        let calls_same : lookup j (erase s.xid (insert s.xid waiting s.calls))
            ≡ (if s.xid == j then none else lookup j s.calls) =
          ground (
            arith,
            lookup-erase s.xid j (insert s.xid waiting s.calls),
            lookup-insert s.xid j waiting s.calls,
          ) in
        (
          ret_of clock connect dead reply o,
          record s {
            xid = u32 (s.xid + 1);
            calls = erase s.xid (insert s.xid waiting s.calls);
            xid_rep_window = window';
          },
          rw (allowed, window, ran, updated) refl,
          came o c,
          calls_same,
          refl,
        )
