-- ===== src/Yfs/Services.antt =====
-- What yfs_client calls: the extent client `ec` and the lock client `lc`, over a state `W` that
-- holds them and all that is behind them. yfs_client ignores what acquire and release return.
-- A method of yfs_client is an action: it returns its status, with its results, and the new state.
use cse_yet_another_file_sys.Base.{ℕ, Bytes}
use cse_yet_another_file_sys.Rpc.Status.{Result}
use cse_yet_another_file_sys.Extent.Server.{Attr}

pub record Services (W : Type 0) : Type 0 where
  pub get : ℕ → W → Result Bytes × W
  pub getattr : ℕ → W → Result Attr × W
  pub put : ℕ → Bytes → W → Result Unit × W
  pub acquire : ℕ → W → W
  pub release : ℕ → W → W

-- yfs_client::xxstatus other than OK. `uninitialised` stands for the use of a variable that was
-- not assigned.
pub data Error : Type 0 where
  rpcerr noent ioerr exist uninitialised : Error

pub data Status (A : Type 0) : Type 0 where
  ok : A → Status A
  err : Error → Status A

abbrev pub Action : Type 0 → Type 0 → Type 0
Action W A = W → Status A × W

abbrev pub continue : {W A B : Type 0} → Status A → (A → Action W B) → Action W B
continue (ok a) f w = f a w
continue (err e) f w = (err e, w)

unfoldable pub pure : {W A : Type 0} → A → Action W A
pure a w = (ok a, w)

-- `ret = …; goto release`
unfoldable pub raise : {W A : Type 0} → Error → Action W A
raise e w = (err e, w)

abbrev pub status_of : {A : Type 0} → Result A → Status A
status_of (Result.ok a) = ok a
status_of (Result.err f) = err ioerr

-- `if(… != extent_protocol::OK) { ret = IOERR; goto release; }`
unfoldable pub or_ioerr : {W A : Type 0} → (W → Result A × W) → Action W A
or_ioerr m w = (status_of (m w).0, (m w).1)

-- A call whose status is not looked at.
unfoldable pub ignoring : {W A : Type 0} → (W → Result A × W) → Action W (Unit {0})
ignoring m w = (ok tt, (m w).1)

-- `lc->acquire(lid); … release: lc->release(lid);`
unfoldable pub locked : {W A : Type 0} → Services W → ℕ → Action W A → Action W A
locked d lid body w = let r = body (d.acquire lid w) in (r.0, d.release lid r.1)

infixl 5 ◌>>=◌ ◌>>◌
-- Opening this opens all that the methods are made of.
unfoldable pub ◌>>=◌ : {W A B : Type 0} → Action W A → (A → Action W B) → Action W B
unfolding pure raise or_ioerr ignoring locked
◌>>=◌ m f w = continue (m w).0 f (m w).1

abbrev pub ◌>>◌ : {W A B : Type 0} → Action W A → Action W B → Action W B
m >> n = m >>= λ _. n
