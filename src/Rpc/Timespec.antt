-- ===== src/Rpc/Timespec.antt =====
-- cmp_timespec and add_timespec (rpc/rpc.cc).
use cse_yet_another_file_sys.Base.{
  ℕ, zero, suc, ◌+◌, ◌-◌, ◌*◌, ◌/◌, ◌%◌, ◌^◌, ◌≤◌, ◌<◌, ◌≡◌, refl, ltb, if◌then◌else◌, arith,
  Bool-cases, inl, inr,
}

-- Both members are taken to be at least 0, as clock_gettime gives them.
pub record Timespec : Type 0 where
  pub tv_sec : ℕ
  pub tv_nsec : ℕ

-- The results 1, -1 and 0.
pub data Order : Type 0 where
  greater less equal : Order

unfoldable pub cmp_timespec : Timespec → Timespec → Order
cmp_timespec a b =
    if ltb b.tv_sec a.tv_sec
    then greater
    else if ltb a.tv_sec b.tv_sec
    then less
    else if ltb b.tv_nsec a.tv_nsec
    then greater
    else if ltb a.tv_nsec b.tv_nsec
    then less
    else equal

abbrev pub second : ℕ
second = 10 ^ 9

-- `while(tv_nsec > 1000000000)`, with one round of fuel for each second that is in `nsec`.
unfoldable pub carry : ℕ → ℕ → ℕ → Timespec
carry zero sec nsec = record { tv_sec = sec; tv_nsec = nsec }
carry (suc fuel) sec nsec =
    let later = carry fuel (sec + 1) (nsec - second) in
    if ltb second nsec then later else record { tv_sec = sec; tv_nsec = nsec }

-- A timeout `b`, in milliseconds, of at least 0.
unfoldable pub add_timespec : Timespec → ℕ → Timespec
unfolding carry
add_timespec a b =
    let nsec = a.tv_nsec + (b % 1000) * 1000000 in carry (nsec / second) (a.tv_sec + b / 1000) nsec

-- The same time in nanoseconds.
abbrev pub nanos : Timespec → ℕ
nanos t = t.tv_sec * second + t.tv_nsec

-- Of two times of which the first has at most a second of nanoseconds, the greater in nanoseconds
-- compares as greater.
pub cmp_timespec-greater :
    (a b : Timespec) → a.tv_nsec ≤ second → nanos b < nanos a → cmp_timespec a b ≡ greater
unfolding cmp_timespec
cmp_timespec-greater a b h l = ground arith

abbrev pub order_of : ℕ → ℕ → Order
order_of m n = if ltb n m then greater else if ltb m n then less else equal

cmp_timespec_lem :
    (a b : Timespec)
    → a.tv_nsec < second
    → b.tv_nsec < second
    → cmp_timespec a b ≡ order_of (nanos a) (nanos b)
unfolding cmp_timespec
cmp_timespec_lem a b h k = ground arith

carry-nanos :
    (fuel sec nsec : ℕ)
    → nsec / second ≤ fuel
    → (nanos (carry fuel sec nsec) ≡ sec * second + nsec) × ((carry fuel sec nsec).tv_nsec ≤ second)
unfolding carry
carry-nanos zero sec nsec h = (refl, omega arith)
carry-nanos (suc fuel) sec nsec h = elim (Bool-cases (ltb second nsec)) [
  | inl e ↦
      let (n, l) = carry-nanos fuel (sec + 1) (nsec - second) (ground arith) in
      rw e (ground (arith, n), l)
  | inr e ↦ rw e (refl, ground arith)
]

-- add_timespec ends with the fuel given, and is the addition of nanoseconds; its result has at most
-- a second of nanoseconds, and less than one if the two parts do not add up to whole seconds.
pub add_timespec_lem :
    (a : Timespec) (b : ℕ)
    → (nanos (add_timespec a b) ≡ nanos a + b * 1000000) × ((add_timespec a b).tv_nsec ≤ second)
unfolding add_timespec
add_timespec_lem a b =
    let (n, l) =
      carry-nanos ((a.tv_nsec + (b % 1000) * 1000000) / second) (a.tv_sec + b / 1000)
        (a.tv_nsec + (b % 1000) * 1000000) (omega arith) in
    (omega (arith, n), l)

-- A whole number of seconds leaves the nanoseconds as they are.
pub add_timespec-seconds :
    (a : Timespec) (b : ℕ)
    → a.tv_nsec < second
    → b % 1000 ≡ 0
    → (add_timespec a b).tv_nsec ≡ a.tv_nsec
unfolding add_timespec carry
add_timespec-seconds a b h e =
    let same : a.tv_nsec + (b % 1000) * 1000000 ≡ a.tv_nsec = omega (arith, e) in
    let small : a.tv_nsec / second ≡ 0 = omega arith in rw (same, small) refl
