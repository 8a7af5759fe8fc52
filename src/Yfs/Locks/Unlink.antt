-- ===== src/Yfs/Locks/Unlink.antt =====
-- unlink keeps the lock of the file that it removed.
use cse_yet_another_file_sys.Base.{ℕ, ◌≡◌, false, List, ◌∷◌}
use cse_yet_another_file_sys.Yfs.Numbers.{isdir}
use cse_yet_another_file_sys.Yfs.Services.{Services, Status, ok, err, Action}
use cse_yet_another_file_sys.Yfs.Locks.{Tracked}

-- The locks held after a status: one more if it is OK, that of a file; and no other change.
abbrev pub OneMore : Status (Unit {0}) → List ℕ → List ℕ → Type 0
OneMore (ok v) before after = (u : ℕ) × (isdir u ≡ false) × (after ≡ u ∷ before)
OneMore (err e) before after = after ≡ before

pub record Leaks {W : Type 0} (m : Action (Tracked W) (Unit {0})) : Type 0 where
  pub held : (s : Tracked W) → OneMore (m s).0 s.1 (m s).1.1
