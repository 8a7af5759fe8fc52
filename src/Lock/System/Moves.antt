-- ===== src/Lock/System/Moves.antt =====
-- A lock as a token: the server's owner has it or has its release call under way, nobody else.
use cse_yet_another_file_sys.Base.{
  ℕ, ◌≤◌, ◌<◌, ◌≡◌, ◌≢◌, refl, ◌⊎◌, inl, inr, false, ◌&&◌, Option, none, some, [], Bytes, ◌==◌,
  ==_iff, if◌then◌else◌, arith, Bool-cases,
}
use cse_yet_another_file_sys.Lock.System.{at_lock}

pub here_or : (x y lid l : ℕ) → ((x ≡ y) × (lid ≡ l)) ⊎ ((x == y && lid == l) ≡ false)
here_or x y lid l = elim (Bool-cases (x == y)) [
  | inl same ↦ elim (Bool-cases (lid == l)) [
    | inl this ↦ inl ((==_iff x y).0 same, (==_iff lid l).0 this)
    | inr other ↦ inr (rw (same, other) refl)
  ]
  | inr other ↦ inr (rw other refl)
]

module _ (name : ℕ → Bytes) where
  -- A client has a lock, or its release call under way, at most once, and then owns it at the server.
  abbrev pub Fine : (ℕ → Option Bytes) → (ℕ → ℕ → ℕ) → Type 0
  Fine owner load = (y l : ℕ) → (load y l ≤ 1) × ((load y l ≡ 0) ⊎ (owner l ≡ some (name y)))

  pub Fine-same :
      (owner owner' : ℕ → Option Bytes) (load load' : ℕ → ℕ → ℕ)
      → ((l : ℕ) → owner' l ≡ owner l)
      → ((y l : ℕ) → load' y l ≡ load y l)
      → Fine owner load
      → Fine owner' load'
  Fine-same owner owner' load load' o e h y l = rw (o l, e y l) (h y l)

  pub Fine-at_most :
      (owner : ℕ → Option Bytes) (load : ℕ → ℕ → ℕ) (x lid n : ℕ)
      → n ≤ load x lid
      → Fine owner load
      → Fine owner (at_lock x lid n load)
  Fine-at_most owner load x lid n le h y l = grind (arith, here_or x y lid l, h y l, h x lid)

  module _ (injective : (x y : ℕ) → name x ≡ name y → x ≡ y) (named : (x : ℕ) → name x ≢ []) where
    -- Where the server has no owner, no client has the lock.
    pub Fine-nobody :
        (owner : ℕ → Option Bytes) (load : ℕ → ℕ → ℕ) (lid y : ℕ)
        → (owner lid ≡ none) ⊎ (owner lid ≡ some [])
        → Fine owner load
        → load y lid ≡ 0
    Fine-nobody owner load lid y o h = grind (arith, h y lid, o, named y)

    -- Where one client has it, no other has.
    pub Fine-one :
        (owner : ℕ → Option Bytes) (load : ℕ → ℕ → ℕ) (lid x y : ℕ)
        → 0 < load x lid
        → Fine owner load
        → (x ≡ y) ⊎ (load y lid ≡ 0)
    Fine-one owner load lid x y p h = grind (arith, h x lid, h y lid, injective x y)

    pub Fine-granted :
        (owner owner' : ℕ → Option Bytes) (load : ℕ → ℕ → ℕ) (x lid n : ℕ)
        → (owner lid ≡ none) ⊎ (owner lid ≡ some [])
        → ((l : ℕ) → owner' l ≡ (if lid == l then some (name x) else owner l))
        → n ≤ 1
        → Fine owner load
        → Fine owner' (at_lock x lid n load)
    Fine-granted owner owner' load x lid n o e le h y l =
        grind (arith, here_or x y lid l, h y l, e l, Fine-nobody owner load lid y o h)

    pub Fine-given :
        (owner owner' : ℕ → Option Bytes) (load : ℕ → ℕ → ℕ) (x lid : ℕ)
        → 0 < load x lid
        → ((l : ℕ) → owner' l ≡ (if lid == l then some [] else owner l))
        → Fine owner load
        → Fine owner' (at_lock x lid 0 load)
    Fine-given owner owner' load x lid p e h y l =
        grind (arith, here_or x y lid l, h y l, e l, Fine-one owner load lid x y p h)
