-- ===== src/Lock/System/Invariant.antt =====
-- What holds in every state of the lock server and its clients, and how a step at one client's lock
-- changes it.
use cse_yet_another_file_sys.Base.{
  ℕ, ◌+◌, ◌≤◌, ◌≡◌, refl, sym, ◌∙◌, inl, inr, Bool, true, false, ◌&&◌, Option, none, some, Bytes,
  ◌==◌, if◌then◌else◌, arith, Bool-cases,
}
use cse_yet_another_file_sys.Lock.Client.{LockState, locked, releasing, LockClient, state_at}
use cse_yet_another_file_sys.Lock.System.{System, at, at_lock}
use cse_yet_another_file_sys.Lock.System.Token.{is_in, owner}
use cse_yet_another_file_sys.Lock.System.Moves

abbrev pub states : System → ℕ → ℕ → LockState
states s y l = state_at (s.client y) l

-- How often a client has a lock, or its release call under way.
abbrev pub load : System → ℕ → ℕ → ℕ
load s y l = is_in (states s y l) + s.leaving y l

abbrev pub is_held : LockState → Bool
is_held locked = true
is_held releasing = true
is_held _ = false

abbrev pub is_some : Option ℕ → Bool
is_some none = false
is_some (some t) = true

-- A client's states LOCKED and RELEASING are those of the locks that a thread of it has.
abbrev pub Agrees : System → Type 0
Agrees s = (y l : ℕ) → is_held (states s y l) ≡ is_some (s.held y l)

abbrev pub IsSound : (ℕ → Bytes) → System → Type 0
IsSound name s = Moves.Fine name (owner s.server) (load s) × Agrees s

pub is_in-is_held : (u : LockState) → is_in u ≡ 0 → is_held u ≡ false
is_in-is_held u e = ground (arith, e)

pub no_thread : (o : Option ℕ) → is_some o ≡ false → o ≡ none
no_thread none e = refl
no_thread (some t) e = cc

-- No thread has a lock that is not in its client.
pub load-held : (s : System) (y l : ℕ) → load s y l ≡ 0 → Agrees s → s.held y l ≡ none
load-held s y l e h =
    let out : is_in (states s y l) ≡ 0 = omega arith in
    no_thread (s.held y l) (sym (h y l) ∙ is_in-is_held (states s y l) out)

pub at-state :
    (x lid : ℕ) (u : LockState) (c1 : LockClient) (f : ℕ → LockClient)
    → ((l : ℕ) → state_at c1 l ≡ (if lid == l then u else state_at (f x) l))
    → (y l : ℕ) → state_at (at x c1 f y) l ≡ at_lock x lid u (λ y l. state_at (f y) l) y l
at-state x lid u c1 f e y l = grind (arith, e l)

pub at_lock-same {ℓ} :
    {A : Type ℓ} (x lid : ℕ) (f : ℕ → ℕ → A) (y l : ℕ) → f y l ≡ at_lock x lid (f x lid) f y l
at_lock-same x lid f y l = elim (Moves.here_or x y lid l) [
  | inl (same, this) ↦ grind (arith, same, this)
  | inr other ↦ rw other refl
]

-- A step that changes one client's state of one lock, its release calls under way and its thread.
abbrev pub Changed : System → System → ℕ → ℕ → LockState → ℕ → Option ℕ → Type 0
Changed s s' x lid u v o =
    (y l : ℕ)
    → (states s' y l ≡ at_lock x lid u (states s) y l)
      × (s'.leaving y l ≡ at_lock x lid v s.leaving y l)
      × (s'.held y l ≡ at_lock x lid o s.held y l)

pub Changed-load :
    (s s' : System) (x lid : ℕ) (u : LockState) (v : ℕ) (o : Option ℕ)
    → Changed s s' x lid u v o
    → (y l : ℕ) → load s' y l ≡ at_lock x lid (is_in u + v) (load s) y l
Changed-load s s' x lid u v o c y l = elim (Bool-cases (x == y && lid == l)) [
  | inl e ↦ rw ((c y l).0, (c y l).1, e) refl
  | inr e ↦ rw ((c y l).0, (c y l).1, e) refl
]

pub Changed-Agrees :
    (s s' : System) (x lid : ℕ) (u : LockState) (v : ℕ) (o : Option ℕ)
    → Changed s s' x lid u v o
    → is_held u ≡ is_some o
    → Agrees s
    → Agrees s'
Changed-Agrees s s' x lid u v o c e h y l = elim (Bool-cases (x == y && lid == l)) [
  | inl here ↦ rw ((c y l).0, (c y l).2, here) e
  | inr there ↦ rw ((c y l).0, (c y l).2, there) (h y l)
]

-- A step that leaves the owners as they are.
pub Changed-IsSound :
    (name : ℕ → Bytes) (s s' : System) (x lid : ℕ) (u : LockState) (v : ℕ) (o : Option ℕ)
    → Changed s s' x lid u v o
    → ((l : ℕ) → owner s'.server l ≡ owner s.server l)
    → is_in u + v ≤ load s x lid
    → is_held u ≡ is_some o
    → IsSound name s
    → IsSound name s'
Changed-IsSound name s s' x lid u v o c w le e h = (
  Moves.Fine-same name (owner s.server) (owner s'.server) (at_lock x lid (is_in u + v) (load s))
      (load s') w (Changed-load s s' x lid u v o c)
      (Moves.Fine-at_most name (owner s.server) (load s) x lid (is_in u + v) le h.0),
  Changed-Agrees s s' x lid u v o c e h.1,
)
