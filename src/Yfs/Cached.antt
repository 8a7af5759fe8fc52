-- ===== src/Yfs/Cached.antt =====
-- yfs_client over the extent client's cache and the extent server: the constructor of yfs_client,
-- with lock_release_action of lock_client_cache.h, which flushes an extent whose lock goes back to
-- the lock server: in a release of a lock that was revoked, and in give_back, whose thread does it with
-- locks that are FREE. The RPC calls reach the server and return; no other client takes the locks
-- meanwhile. `clock` gives what time(NULL) returns, `revoked` which releases give a lock back, and
-- `idle` the locks that give_back's thread gives back before each call.
use mathlib.Core.Path.{fun_ext}
use cse_yet_another_file_sys.Base.{
  ℕ, suc, ◌≡◌, refl, ap, ◌∙◌, List, [], ◌∷◌, Bool, true, false, if◌then◌else◌,
}
use cse_yet_another_file_sys.Extent.Client
use cse_yet_another_file_sys.Extent.Client.{World, delivered}
use cse_yet_another_file_sys.Extent.Client.Invariant
use cse_yet_another_file_sys.Extent.Client.Invariant.{IsCoherent}
use cse_yet_another_file_sys.Extent.Client.Lookup.{
  found, size_found, get-found, view-get, get-IsCoherent, getattr-found, view-getattr,
  getattr-IsCoherent, view-put, put-IsCoherent,
}
use cse_yet_another_file_sys.Extent.Client.Flush.{view-flush, flush-IsCoherent}
use cse_yet_another_file_sys.Yfs.Services.{Services}
use cse_yet_another_file_sys.Yfs.Laws.{Store, with_content, Laws}

-- The world, and how many calls were made.
pub record Machine : Type 0 where
  pub world : World
  pub calls : ℕ

abbrev pub next : {A : Type 0} → Machine → A × World → A × Machine
next m (a, w) = (a, record { world = w; calls = suc m.calls })

-- lock_release_action::dorelease, on a lock that was revoked.
unfoldable pub dorelease : ℕ → Bool → ℕ → World → World
dorelease now back lid w = if back then (Client.flush delivered now w lid).1 else w

-- give_back, with the locks that its rounds find.
unfoldable pub given_back : ℕ → List ℕ → World → World
unfolding dorelease
given_back now [] w = w
given_back now (lid ∷ lids) w = given_back now lids (dorelease now true lid w)

module _ (clock : ℕ → ℕ) (revoked : ℕ → Bool) (idle : ℕ → List ℕ) where
  -- What a call finds.
  abbrev pub settled : Machine → World
  settled m = given_back (clock m.calls) (idle m.calls) m.world

  unfoldable pub cached : Services Machine
  unfolding dorelease given_back
  cached = record {
    get = λ i m. next m (Client.get delivered (clock m.calls) (settled m) i);
    getattr = λ i m. next m (Client.getattr delivered (settled m) i);
    put = λ i buf m. next m (Client.put (clock m.calls) (settled m) i buf);
    acquire = λ i m. record { world = settled m; calls = suc m.calls };
    release = λ i m. record {
      world = dorelease (clock m.calls) (revoked m.calls) i (settled m);
      calls = suc m.calls;
    };
  }

  abbrev pub view : Machine → Store
  view m = Invariant.view m.world

  abbrev pub Sound : Machine → Type 0
  Sound m = IsCoherent m.world

  view-dorelease :
      (back : Bool) (now lid : ℕ) (w : World)
      → IsCoherent w
      → Invariant.view (dorelease now back lid w) ≡ Invariant.view w
  unfolding dorelease
  view-dorelease true now lid w h = fun_ext (λ j. view-flush now w lid j h)
  view-dorelease false now lid w h = refl

  dorelease-IsCoherent :
      (back : Bool) (now lid : ℕ) (w : World) → IsCoherent w → IsCoherent (dorelease now back lid w)
  unfolding dorelease
  dorelease-IsCoherent true now lid w h = flush-IsCoherent now w lid h
  dorelease-IsCoherent false now lid w h = h

  view-given_back :
      (now : ℕ) (lids : List ℕ) (w : World)
      → IsCoherent w
      → (Invariant.view (given_back now lids w) ≡ Invariant.view w)
        × IsCoherent (given_back now lids w)
  unfolding given_back
  view-given_back now [] w h = (refl, h)
  view-given_back now (lid ∷ lids) w h =
      let (later, sound) =
        view-given_back now lids (dorelease now true lid w)
          (dorelease-IsCoherent true now lid w h) in
      (later ∙ view-dorelease true now lid w h, sound)

  view-settled : (m : Machine) → Sound m → Invariant.view (settled m) ≡ view m
  view-settled m s = (view-given_back (clock m.calls) (idle m.calls) m.world s).0

  settled-IsCoherent : (m : Machine) → Sound m → IsCoherent (settled m)
  settled-IsCoherent m s = (view-given_back (clock m.calls) (idle m.calls) m.world s).1

  -- The extent client's cache over the extent server, if every call reaches the server and returns,
  -- is one store of extents to yfs_client, whichever releases give a lock back and whatever locks
  -- give_back's thread gives back before each call, with a flush of the extent: from
  -- a coherent cache, get returns the content that was put last and getattr its size modulo 2^32,
  -- only a put changes the store, and the cache stays coherent.
  pub cached-Laws : Laws cached view Sound
  unfolding cached
  cached-Laws = record {
    get-found = λ i m s.
        get-found (clock m.calls) (settled m) i (settled-IsCoherent m s)
        ∙ ap (λ (t : Store). found (t i)) (view-settled m s);
    view-get = λ i m s.
        fun_ext (λ j. view-get (clock m.calls) (settled m) i j (settled-IsCoherent m s))
        ∙ view-settled m s;
    get-Sound = λ i m s. get-IsCoherent (clock m.calls) (settled m) i (settled-IsCoherent m s);
    getattr-found = λ i m s.
        getattr-found 0 (settled m) i (settled-IsCoherent m s)
        ∙ ap (λ (t : Store). size_found (t i)) (view-settled m s);
    view-getattr = λ i m s. fun_ext (λ j. view-getattr 0 (settled m) i j) ∙ view-settled m s;
    getattr-Sound = λ i m s. getattr-IsCoherent 0 (settled m) i (settled-IsCoherent m s);
    put-ok = λ i buf m s. unfold Client.put in refl;
    view-put = λ i buf m s.
        fun_ext (λ j. view-put (clock m.calls) (settled m) i buf j)
        ∙ ap (λ (t : Store). with_content t i buf) (view-settled m s);
    put-Sound =
        λ i buf m s. put-IsCoherent (clock m.calls) (settled m) i buf (settled-IsCoherent m s);
    view-acquire = λ i m s. view-settled m s;
    acquire-Sound = λ i m s. settled-IsCoherent m s;
    view-release = λ i m s.
        view-dorelease (revoked m.calls) (clock m.calls) i (settled m) (settled-IsCoherent m s)
        ∙ view-settled m s;
    release-Sound = λ i m s.
        dorelease-IsCoherent (revoked m.calls) (clock m.calls) i (settled m)
          (settled-IsCoherent m s);
  }
