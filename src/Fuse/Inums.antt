-- ===== src/Fuse/Inums.antt =====
-- generate_inum (fuse.cc): random i-numbers, of which none is given out twice.
use cse_yet_another_file_sys.Base.{
  ℕ, zero, suc, ◌+◌, ◌%◌, ◌^◌, ◌<◌, ◌≡◌, ◌≢◌, All, refl, Bool, true, false, Option, none, some,
  List, [], ◌∷◌, ◌==◌, if◌then◌else◌, arith, Bool-cases, inl, inr,
}
use cse_yet_another_file_sys.Yfs.Numbers.{isfile}

-- `result | (1<<31)` for a file and `result & ~(1<<31)` for a directory, and the low 32 bits of it.
unfoldable pub number_of : Bool → ℕ → ℕ
number_of is_file draw = if is_file then 2 ^ 31 + draw % 2 ^ 31 else draw % 2 ^ 31

-- Is the number in inum_set?
unfoldable pub taken : ℕ → List ℕ → Bool
taken n [] = false
taken n (m ∷ inum_set) = let rest = taken n inum_set in if n == m then true else rest

-- The set, and how many times rand() was called; its results are a function of that.
pub record Draws : Type 0 where
  pub inum_set : List ℕ
  pub drawn : ℕ

-- The number is not among those.
abbrev pub Absent : ℕ → List ℕ → Type 0
Absent n inum_set = All (λ m. m ≢ n) inum_set

pub taken-Absent : (n : ℕ) (inum_set : List ℕ) → taken n inum_set ≡ false → Absent n inum_set
unfolding taken
taken-Absent n [] e = tt
taken-Absent n (m ∷ inum_set) e = (ground (arith, e), taken-Absent n inum_set (ground (arith, e)))

Absent-taken : (n : ℕ) (inum_set : List ℕ) → Absent n inum_set → taken n inum_set ≡ false
unfolding taken
Absent-taken n [] h = refl
Absent-taken n (m ∷ inum_set) h =
    let later = Absent-taken n inum_set h.1 in ground (arith, h.0, later)

module _ (rand : ℕ → ℕ) (is_file : Bool) where
  -- The loop, with as many draws as the fuel allows.
  unfoldable pub generate_inum : ℕ → Draws → Option (ℕ × Draws)
  unfolding number_of taken
  generate_inum zero s = none
  generate_inum (suc fuel) s =
      let result = number_of is_file (rand s.drawn) in
      let later = generate_inum fuel (record s { drawn = s.drawn + 1 }) in
      if taken result s.inum_set
      then later
      else some (result, record { inum_set = result ∷ s.inum_set; drawn = s.drawn + 1 })

  -- The number is of 32 bits, of the wanted kind, and was not given out before.
  pub record IsGenerated (s : Draws) (result : ℕ) (s' : Draws) : Type 0 where
    pub in_range : result < 2 ^ 32
    pub kind : isfile result ≡ is_file
    pub not_taken : Absent result s.inum_set
    pub recorded : s'.inum_set ≡ result ∷ s.inum_set

  number-kind : (b : Bool) (n : ℕ) → (number_of b n < 2 ^ 32) × (isfile (number_of b n) ≡ b)
  unfolding isfile number_of
  number-kind true n = (omega arith, ground arith)
  number-kind false n = (omega arith, ground arith)

  -- A run of the loop that returns such a number.
  abbrev pub Generates : ℕ → Draws → Type 0
  Generates fuel s =
      (result : ℕ) × (s' : Draws) × (generate_inum fuel s ≡ some (result, s'))
      × IsGenerated s result s'

  first_draw :
      (fuel : ℕ) (s : Draws)
      → taken (number_of is_file (rand s.drawn)) s.inum_set ≡ false
      → Generates (suc fuel) s
  unfolding generate_inum
  first_draw fuel s t =
      let (range, kind) = number-kind is_file (rand s.drawn) in
      (
        number_of is_file (rand s.drawn),
        record { inum_set = number_of is_file (rand s.drawn) ∷ s.inum_set; drawn = s.drawn + 1 },
        rw t refl,
        record {
          in_range = range;
          kind = kind;
          not_taken = taken-Absent _ s.inum_set t;
          recorded = refl;
        },
      )

  next_draw :
      (fuel : ℕ) (s : Draws)
      → taken (number_of is_file (rand s.drawn)) s.inum_set ≡ true
      → Generates fuel (record s { drawn = s.drawn + 1 })
      → Generates (suc fuel) s
  unfolding generate_inum
  next_draw fuel s t (result, s', ran, g) = (
    result,
    s',
    rw t ran,
    record { in_range = g.in_range; kind = g.kind; not_taken = g.not_taken; recorded = g.recorded },
  )

  by_draw :
      (i fuel : ℕ) (s : Draws)
      → taken (number_of is_file (rand (s.drawn + i))) s.inum_set ≡ false
      → i < fuel
      → Generates fuel s
  by_draw i zero s e l = absurd (omega arith)
  by_draw zero (suc fuel) s e l =
      let here : s.drawn + 0 ≡ s.drawn = omega arith in first_draw fuel s (rw here at e)
  by_draw (suc i) (suc fuel) s e l =
      let next : s.drawn + suc i ≡ s.drawn + 1 + i = omega arith in
      let rest = by_draw i fuel (record s { drawn = s.drawn + 1 }) (rw next at e) (omega arith) in
      elim (Bool-cases (taken (number_of is_file (rand s.drawn)) s.inum_set)) [
        | inl t ↦ next_draw fuel s t rest
        | inr t ↦ first_draw fuel s t
      ]

  -- generate_inum ends as soon as a draw gives a number that is not in the set: if the draw `i` from
  -- now on is one, `i + 1` draws are enough, whatever the draws before it are. The number it
  -- returns is below 2^32, a file's or a directory's as asked for, was not in the set, and is then.
  pub generate_inum_lem :
      (i fuel : ℕ) (s : Draws)
      → Absent (number_of is_file (rand (s.drawn + i))) s.inum_set
      → i < fuel
      → Generates fuel s
  generate_inum_lem i fuel s a l = by_draw i fuel s (Absent-taken _ s.inum_set a) l
