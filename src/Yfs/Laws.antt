-- ===== src/Yfs/Laws.antt =====
-- The interface between yfs_client and what is below it: `view` is the store of extents that the
-- services stand for, and `Sound` an invariant of theirs. While yfs_client works, the locks keep
-- others from changing the store, so acquire and release leave the view as it is.
use cse_yet_another_file_sys.Base.{
  ℕ, ◌≡◌, refl, ap, ◌∙◌, ◌==◌, if◌then◌else◌, Option, none, some, Bytes, length, arith,
}
use cse_yet_another_file_sys.Rpc.Status.{Result, u32}
use cse_yet_another_file_sys.Extent.Server.{Attr}
use cse_yet_another_file_sys.Extent.Client.Lookup.{found, size_found, size_result}
use cse_yet_another_file_sys.Yfs.Services.{
  Services, Error, ioerr, Status, ok, err, Action, ◌>>=◌, pure, raise, status_of, or_ioerr,
  ignoring, locked,
}

abbrev pub Store : Type 0
Store = ℕ → Option Bytes

-- The store with a new content of one extent.
abbrev pub with_content : Store → ℕ → Bytes → Store
with_content st i buf j = if i == j then some buf else st j

pub record Laws {W : Type 0} (d : Services W) (view : W → Store) (Sound : W → Type 0) : Type 0 where
  pub get-found : (i : ℕ) (w : W) → Sound w → (d.get i w).0 ≡ found (view w i)
  pub view-get : (i : ℕ) (w : W) → Sound w → view (d.get i w).1 ≡ view w
  pub get-Sound : (i : ℕ) (w : W) → Sound w → Sound (d.get i w).1
  pub getattr-found :
      (i : ℕ) (w : W) → Sound w → size_result (d.getattr i w).0 ≡ size_found (view w i)
  pub view-getattr : (i : ℕ) (w : W) → Sound w → view (d.getattr i w).1 ≡ view w
  pub getattr-Sound : (i : ℕ) (w : W) → Sound w → Sound (d.getattr i w).1
  pub put-ok : (i : ℕ) (buf : Bytes) (w : W) → Sound w → (d.put i buf w).0 ≡ Result.ok tt
  pub view-put :
      (i : ℕ) (buf : Bytes) (w : W) → Sound w → view (d.put i buf w).1 ≡ with_content (view w) i buf
  pub put-Sound : (i : ℕ) (buf : Bytes) (w : W) → Sound w → Sound (d.put i buf w).1
  pub view-acquire : (i : ℕ) (w : W) → Sound w → view (d.acquire i w) ≡ view w
  pub acquire-Sound : (i : ℕ) (w : W) → Sound w → Sound (d.acquire i w)
  pub view-release : (i : ℕ) (w : W) → Sound w → view (d.release i w) ≡ view w
  pub release-Sound : (i : ℕ) (w : W) → Sound w → Sound (d.release i w)

-- The attributes that a result holds, where its size is known.
pub attr_of_size :
    (r : Result Attr) (n : ℕ)
    → size_result r ≡ Result.ok n
    → (a : Attr) × (a.size ≡ n) × (r ≡ Result.ok a)
attr_of_size (Result.ok a) n e = (a, ground arith, refl)
attr_of_size (Result.err f) n e = cc

-- Where an action ends that begins in `w`: its status, the store, and the invariant.
pub record Ends {W A : Type 0} (view : W → Store) (Sound : W → Type 0) (m : Action W A) (w : W)
    (r : Status A) (st : Store) : Type 0 where
  pub status : (m w).0 ≡ r
  pub view_after : view (m w).1 ≡ st
  pub sound : Sound (m w).1

module _ {W : Type 0} {d : Services W} {view : W → Store} {Sound : W → Type 0}
    (laws : Laws d view Sound) (i : ℕ) {w : W} {st : Store} (s : Sound w) (v : view w ≡ st) where
  pub Ends-get :
      {buf : Bytes} → st i ≡ some buf → Ends view Sound (or_ioerr (d.get i)) w (ok buf) st
  unfolding ◌>>=◌
  Ends-get e = record {
    status = ap status_of (laws.get-found i w s ∙ ap found (ap (λ (t : Store). t i) v ∙ e));
    view_after = laws.view-get i w s ∙ v;
    sound = laws.get-Sound i w s;
  }

  pub Ends-get_missing : st i ≡ none → Ends view Sound (or_ioerr (d.get i)) w (err ioerr) st
  unfolding ◌>>=◌
  Ends-get_missing e = record {
    status = ap status_of (laws.get-found i w s ∙ ap found (ap (λ (t : Store). t i) v ∙ e));
    view_after = laws.view-get i w s ∙ v;
    sound = laws.get-Sound i w s;
  }

  pub Ends-getattr :
      {buf : Bytes}
      → st i ≡ some buf
      → (a : Attr) × (a.size ≡ u32 (length buf))
        × Ends view Sound (or_ioerr (d.getattr i)) w (ok a) st
  unfolding ◌>>=◌
  Ends-getattr {buf} e =
      let (a, size, is_a) =
        attr_of_size (d.getattr i w).0 (u32 (length buf))
          (laws.getattr-found i w s ∙ ap size_found (ap (λ (t : Store). t i) v ∙ e)) in
      (
        a,
        size,
        record {
          status = ap status_of is_a;
          view_after = laws.view-getattr i w s ∙ v;
          sound = laws.getattr-Sound i w s;
        },
      )

  pub Ends-put :
      (buf : Bytes) → Ends view Sound (or_ioerr (d.put i buf)) w (ok tt) (with_content st i buf)
  unfolding ◌>>=◌
  Ends-put buf = record {
    status = ap status_of (laws.put-ok i buf w s);
    view_after = laws.view-put i buf w s ∙ ap (λ (t : Store). with_content t i buf) v;
    sound = laws.put-Sound i buf w s;
  }

  pub Ends-ignoring_put :
      (buf : Bytes) → Ends view Sound (ignoring (d.put i buf)) w (ok tt) (with_content st i buf)
  unfolding ◌>>=◌
  Ends-ignoring_put buf = record {
    status = refl;
    view_after = laws.view-put i buf w s ∙ ap (λ (t : Store). with_content t i buf) v;
    sound = laws.put-Sound i buf w s;
  }

  -- A body under a lock starts in a state with the same store.
  pub Ends-locked :
      {A : Type 0} (body : Action W A) {r : Status A} {st' : Store}
      → (Sound (d.acquire i w)
          → view (d.acquire i w) ≡ st
          → Ends view Sound body (d.acquire i w) r st')
      → Ends view Sound (locked d i body) w r st'
  unfolding ◌>>=◌
  Ends-locked body run =
      let e = run (laws.acquire-Sound i w s) (laws.view-acquire i w s ∙ v) in
      record {
        status = e.status;
        view_after = laws.view-release i _ e.sound ∙ e.view_after;
        sound = laws.release-Sound i _ e.sound;
      }

module _ {W A B : Type 0} {view : W → Store} {Sound : W → Type 0} where
  pub Ends-bind :
      (m : Action W A) (f : A → Action W B) (w : W) {a : A} {st st' : Store} {r : Status B}
      → Ends view Sound m w (ok a) st
      → Ends view Sound (f a) (m w).1 r st'
      → Ends view Sound (m >>= f) w r st'
  unfolding ◌>>=◌
  Ends-bind m f w e k = record {
    status = rw e.status k.status;
    view_after = rw e.status k.view_after;
    sound = rw e.status k.sound;
  }

  pub Ends-bind_err :
      (m : Action W A) (f : A → Action W B) (w : W) {e : Error} {st : Store}
      → Ends view Sound m w (err e) st
      → Ends view Sound (m >>= f) w (err e) st
  unfolding ◌>>=◌
  Ends-bind_err m f w e = record {
    status = rw e.status refl;
    view_after = rw e.status e.view_after;
    sound = rw e.status e.sound;
  }

module _ {W A : Type 0} {view : W → Store} {Sound : W → Type 0} where
  -- A last step that only returns.
  pub Ends-pure :
      {w : W} {st : Store} (a : A) → Sound w → view w ≡ st → Ends view Sound (pure a) w (ok a) st
  unfolding ◌>>=◌
  Ends-pure a s v = record { status = refl; view_after = v; sound = s }

  pub Ends-raise :
      {w : W} {st : Store} (e : Error)
      → Sound w
      → view w ≡ st
      → Ends view Sound (raise {A = A} e) w (err e) st
  unfolding ◌>>=◌
  Ends-raise e s v = record { status = refl; view_after = v; sound = s }
