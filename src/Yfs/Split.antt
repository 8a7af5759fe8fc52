-- ===== src/Yfs/Split.antt =====
-- yfs_client::split, which takes a directory's content apart at the separator.
use mathlib.Core.Option
use mathlib.Core.List.{append_assoc}
use cse_yet_another_file_sys.Base.{
  ℕ, zero, suc, ◌<◌, ◌≡◌, ◌≢◌, refl, ap, Option, none, some, List, [], ◌∷◌, ◌++◌, Bytes, ◌==◌,
  if◌then◌else◌, All, length, length-append, arith,
}

-- What follows `sep` in a text that begins with it.
strip : Bytes → Bytes → Option Bytes
strip [] src = some src
strip (c ∷ sep) [] = none
strip (c ∷ sep) (d ∷ src) = let rest = strip sep src in if c == d then rest else none

abbrev before : ℕ → Option (Bytes × Bytes) → Option (Bytes × Bytes)
before c none = none
before c (some (a, b)) = some (c ∷ a, b)

-- `src.find(sep, …)`: what stands before the first `sep`, and what stands behind it.
find : Bytes → Bytes → Option (Bytes × Bytes)
unfolding strip
find sep [] = Option.map (λ rest. ([], rest)) (strip sep [])
find sep (c ∷ src) = elim (strip sep (c ∷ src)) [
  | some rest ↦ some ([], rest)
  | none ↦ before c (find sep src)
]

-- A last piece is kept unless it is empty.
abbrev last_piece : Bytes → List Bytes
last_piece [] = []
last_piece (c ∷ s) = (c ∷ s) ∷ []

-- A round of the loop shortens the text, so its length is fuel enough where `sep` is not empty.
split_loop : ℕ → Bytes → Bytes → List Bytes
split_loop zero sep src = []
split_loop (suc f) sep src = elim (find sep src) [
  | none ↦ last_piece src
  | some (piece, rest) ↦ piece ∷ split_loop f sep rest
]

pub split : Bytes → Bytes → List Bytes
split src separate_character = split_loop (suc (length src)) separate_character src

abbrev pub space : ℕ
space = 32

-- `std::string sep = " "`
abbrev pub sep : Bytes
sep = space ∷ []

-- A piece of a directory's content: not empty, and with no separator inside.
abbrev pub IsWord : Bytes → Type 0
IsWord s = (s ≢ []) × All (λ c. c ≢ space) s

-- Pieces with a separator between any two of them.
abbrev pub join : List Bytes → Bytes
join [] = []
join (w ∷ []) = w
join (w ∷ v ∷ ws) = w ++ space ∷ join (v ∷ ws)

find-word :
    (w rest : Bytes) → All (λ c. c ≢ space) w → find sep (w ++ space ∷ rest) ≡ some (w, rest)
unfolding find strip
find-word [] rest h = refl
find-word (c ∷ w) rest h = ground (arith, find-word w rest h.1)

find-none : (w : Bytes) → All (λ c. c ≢ space) w → find sep w ≡ none
unfolding find strip
find-none [] h = refl
find-none (c ∷ w) h = ground (arith, find-none w h.1)

last_piece-word : (w : Bytes) → w ≢ [] → last_piece w ≡ w ∷ []
last_piece-word [] h = absurd (h refl)
last_piece-word (c ∷ w) h = refl

split_loop-join :
    (f : ℕ) (ws : List Bytes)
    → All IsWord ws
    → length (join ws) < f
    → split_loop f sep (join ws) ≡ ws
unfolding split_loop
split_loop-join zero ws h l = elim l [ ]
split_loop-join (suc f) [] h l = unfold find strip in refl
split_loop-join (suc f) (w ∷ []) h l = rw (find-none w h.0.1, split_loop) (last_piece-word w h.0.0)
split_loop-join (suc f) (w ∷ v ∷ ws) h l =
    rw (find-word w (join (v ∷ ws)) h.0.1, split_loop)
      (ap (◌∷◌ w)
        (split_loop-join f (v ∷ ws) h.1 (omega (arith, length-append w (space ∷ join (v ∷ ws))))))

-- `split` of words joined with single spaces between them gives the words back, if each is
-- non-empty and holds no space.
pub split-join : (ws : List Bytes) → All IsWord ws → split (join ws) sep ≡ ws
unfolding split
split-join ws h = split_loop-join (suc (length (join ws))) ws h (omega arith)

-- A piece more, at the end.
pub join-snoc :
    (v : Bytes) (ws : List Bytes) (w : Bytes)
    → join ((v ∷ ws) ++ w ∷ []) ≡ join (v ∷ ws) ++ space ∷ w
join-snoc v [] w = refl
join-snoc v (u ∷ ws) w = rw (join-snoc u ws w, append_assoc) refl
