-- ===== src/Yfs/Locks.antt =====
-- Which locks a method of yfs_client holds when it returns: whatever the services are, they are
-- given a list of the locks that are held, the last one first.
pub mod Unlink
use cse_yet_another_file_sys.Base.{
  ℕ, ◌≡◌, refl, ◌∙◌, ap, Bool, true, false, not, Option, none, some, List, [], ◌∷◌, Bytes, ◌==◌,
  if◌then◌else◌, arith, Option-cases, Bool-cases, inl, inr, ◌⊎◌,
}
use cse_yet_another_file_sys.Rpc.Status.{Result}
use cse_yet_another_file_sys.Yfs.Numbers.{n2i, isdir}
use cse_yet_another_file_sys.Yfs.Split.{split, sep}
use cse_yet_another_file_sys.Yfs.Entries.{find_name}
use cse_yet_another_file_sys.Yfs.Services.{
  Services, Error, Status, ok, err, Action, continue, pure, raise, or_ioerr, ignoring, locked,
  ◌>>=◌,
}
use cse_yet_another_file_sys.Yfs.Files.{getfile, getdir, updatesize, read, write}
use cse_yet_another_file_sys.Yfs.Dirs.{
  is_exist, add_entry, create, mymkdir, look_at, look_for, lookup, readdir, free_extent,
  unlink_found, unlink,
}

-- The list without its first `lid`.
abbrev pub let_go : ℕ → List ℕ → List ℕ
let_go lid [] = []
let_go lid (l ∷ held) = if l == lid then held else l ∷ let_go lid held

abbrev pub Tracked : Type 0 → Type 0
Tracked W = W × List ℕ

abbrev beside : {W A : Type 0} → (W → A × W) → Tracked W → A × Tracked W
beside m (w, held) = ((m w).0, ((m w).1, held))

-- The same services, with each acquire and release noted.
unfoldable pub tracked : {W : Type 0} → Services W → Services (Tracked W)
tracked d = record {
  get = λ i. beside (d.get i);
  getattr = λ i. beside (d.getattr i);
  put = λ i buf. beside (d.put i buf);
  acquire = λ i s. (d.acquire i s.0, i ∷ s.1);
  release = λ i s. (d.release i s.0, let_go i s.1);
}

let_go-head : (i : ℕ) (held : List ℕ) → let_go i (i ∷ held) ≡ held
let_go-head i held = ground arith

-- An action that returns, with any status, holding the locks that it was called with.
pub record IsBalanced {W A : Type 0} (m : Tracked W → A × Tracked W) : Type 0 where
  pub held : (s : Tracked W) → (m s).1.1 ≡ s.1

module _ {W A : Type 0} (d : Services W) where
  IsBalanced-locked :
      (i : ℕ) (body : Action (Tracked W) A)
      → IsBalanced body
      → IsBalanced (locked (tracked d) i body)
  unfolding locked tracked
  IsBalanced-locked i body b = record { held = λ s. ap (let_go i) (b.held _) ∙ let_go-head i s.1 }

  IsBalanced-pure : (a : A) → IsBalanced (pure {W = Tracked W} a)
  unfolding pure
  IsBalanced-pure a = record { held = λ s. refl }

  IsBalanced-raise : (e : Error) → IsBalanced (raise {W = Tracked W} {A = A} e)
  unfolding raise
  IsBalanced-raise e = record { held = λ s. refl }

  IsBalanced-if :
      (b : Bool) (m n : Action (Tracked W) A)
      → IsBalanced m
      → IsBalanced n
      → IsBalanced (if b then m else n)
  IsBalanced-if true m n h k = h
  IsBalanced-if false m n h k = k

module _ {W : Type 0} (d : Services W) (i : ℕ) where
  pub IsBalanced-get : IsBalanced (or_ioerr ((tracked d).get i))
  unfolding or_ioerr tracked
  IsBalanced-get = record { held = λ s. refl }

  IsBalanced-getattr : IsBalanced (or_ioerr ((tracked d).getattr i))
  unfolding or_ioerr tracked
  IsBalanced-getattr = record { held = λ s. refl }

  pub IsBalanced-put : (buf : Bytes) → IsBalanced (or_ioerr ((tracked d).put i buf))
  unfolding or_ioerr tracked
  IsBalanced-put buf = record { held = λ s. refl }

  IsBalanced-ignoring : (buf : Bytes) → IsBalanced (ignoring ((tracked d).put i buf))
  unfolding ignoring tracked
  IsBalanced-ignoring buf = record { held = λ s. refl }

  pub IsBalanced-is_exist : (name : Bytes) → IsBalanced (is_exist (tracked d) i name)
  unfolding is_exist tracked
  IsBalanced-is_exist name = record { held = λ s. refl }

continue-held :
    {W A B : Type 0} (r : Status A) (f : A → Action (Tracked W) B) (s : Tracked W)
    → ((a : A) → IsBalanced (f a))
    → (continue r f s).1.1 ≡ s.1
continue-held (ok a) f s k = (k a).held s
continue-held (err e) f s k = refl

IsBalanced-bind :
    {W A B : Type 0} (m : Action (Tracked W) A) (f : A → Action (Tracked W) B)
    → IsBalanced m
    → ((a : A) → IsBalanced (f a))
    → IsBalanced (m >>= f)
unfolding ◌>>=◌
IsBalanced-bind m f h k = record { held = λ s. continue-held (m s).0 f (m s).1 k ∙ h.held s }

ruleset balance = (
  IsBalanced-locked, IsBalanced-pure, IsBalanced-raise, IsBalanced-if, IsBalanced-get,
  IsBalanced-getattr, IsBalanced-put, IsBalanced-ignoring, IsBalanced-is_exist, IsBalanced-bind,
)

module _ {W : Type 0} (d : Services W) where
  look_for-held :
      (name : Bytes) (r : Result Bytes) (s : Tracked W) → (look_for (tracked d) name r s).1.1 ≡ s.1
  unfolding look_for look_at tracked
  look_for-held name (Result.err f) s = refl
  look_for-held name (Result.ok entries) s = ground arith

  lookup-IsBalanced : (parent : ℕ) (name : Bytes) → IsBalanced (lookup (tracked d) parent name)
  unfolding lookup tracked
  lookup-IsBalanced parent name = record {
    held = λ s.
        ap (let_go parent) (look_for-held name (d.get parent (d.acquire parent s.0)).0 _)
        ∙ let_go-head parent s.1;
  }

  -- Whatever the extent client and the lock client do and answer, every method but unlink returns
  -- with exactly the locks that it was called with, on each of its branches.
  pub methods-IsBalanced :
      (i j size off : ℕ) (name buf : Bytes)
      → IsBalanced (getfile (tracked d) i)
        × IsBalanced (getdir (tracked d) i)
        × IsBalanced (updatesize (tracked d) i size)
        × IsBalanced (read (tracked d) i size off)
        × IsBalanced (write (tracked d) i buf size off)
        × IsBalanced (create (tracked d) i name j)
        × IsBalanced (mymkdir (tracked d) i name j)
        × IsBalanced (readdir (tracked d) i)
        × IsBalanced (lookup (tracked d) i name)
  unfolding getfile getdir updatesize read write create mymkdir readdir
  methods-IsBalanced i j size off name buf = (
    search balance depth 8,
    search balance depth 8,
    search balance depth 8,
    search balance depth 8,
    search balance depth 12,
    search balance depth 12,
    search balance depth 12,
    search balance depth 8,
    lookup-IsBalanced i name,
  )
