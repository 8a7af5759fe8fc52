-- ===== src/Lock/System/Steps.antt =====
-- Each step of the lock server and its clients keeps what holds in every state.
use cse_yet_another_file_sys.Base.{
  ℕ, ◌+◌, ◌-◌, ◌≤◌, ◌<◌, ◌≡◌, ◌≢◌, refl, sym, ap, ◌∙◌, ◌⊎◌, inl, inr, Bool, true, false, Option,
  none, some, [], Bytes, ◌==◌, ==_iff, arith, Bool-cases,
}
use cse_yet_another_file_sys.Lock.Client.{
  LockState, not_here, free, locked, acquiring, releasing, LockClient, Turn, returns, waits,
  goes_on, state_at, prepare, Release, noent, gives_back, keeps, revoke_handler, give_up,
  retry_handler,
}
use cse_yet_another_file_sys.Lock.Client
use cse_yet_another_file_sys.Lock.Server.{Verdict, granted, waiting, enter, LockServer}
use cse_yet_another_file_sys.Lock.Server
use cse_yet_another_file_sys.Lock.System.{
  System, at_lock, sent_back, retried, Step, acquires, releases, revoked, gives_up, released, step,
  whose,
}
use cse_yet_another_file_sys.Lock.System.Token.{
  release-state, after_release, release_of, after_revoke, revoke-state, give_up-state, retry-state,
  is_in, owner, release-owner,
}
use cse_yet_another_file_sys.Lock.System.Moves
use cse_yet_another_file_sys.Lock.System.Acquire.{acquires-IsSound}
use cse_yet_another_file_sys.Lock.System.Invariant.{
  states, load, is_held, is_some, IsSound, is_in-is_held, at-state, at_lock-same, Changed,
  Changed-load, Changed-Agrees, Changed-IsSound,
}

-- A thread releases a lock that it has, give_back gives up a lock that is FREE when it has the mutex,
-- and a release call that reaches the server was made.
abbrev pub Obeys : System → Step → Type 0
Obeys s (releases x lid) = (t : ℕ) × (s.held x lid ≡ some t)
Obeys s (gives_up x lid) = states s x lid ≡ free
Obeys s (released x lid delivered) = 0 < s.leaving x lid
Obeys s _ = Unit

is_held-is_in : (u : LockState) → is_held u ≡ true → is_in u ≡ 1
is_held-is_in locked e = refl
is_held-is_in releasing e = refl
is_held-is_in free e = cc
is_held-is_in not_here e = cc
is_held-is_in acquiring e = cc

is_held-here : (u : LockState) → is_held u ≡ true → u ≢ not_here
is_held-here u e n = let e' = rw n at e in cc

after_revoke-is_in : (u : LockState) → is_in (after_revoke u) ≡ is_in u
after_revoke-is_in locked = refl
after_revoke-is_in releasing = refl
after_revoke-is_in free = refl
after_revoke-is_in not_here = refl
after_revoke-is_in acquiring = refl

after_revoke-is_held : (u : LockState) → is_held (after_revoke u) ≡ is_held u
after_revoke-is_held locked = refl
after_revoke-is_held releasing = refl
after_revoke-is_held free = refl
after_revoke-is_held not_here = refl
after_revoke-is_held acquiring = refl

-- A lock that a thread has is given back or stays.
abbrev leaving_after : LockState → ℕ → ℕ
leaving_after releasing n = n + 1
leaving_after _ n = n

sent_back-leaving_after :
    (u : LockState) (x lid y l : ℕ) (leaving : ℕ → ℕ → ℕ)
    → sent_back x lid (release_of u) leaving y l
      ≡ at_lock x lid (leaving_after u (leaving x lid)) leaving y l
sent_back-leaving_after releasing x lid y l f = refl
sent_back-leaving_after locked x lid y l f = at_lock-same x lid f y l
sent_back-leaving_after free x lid y l f = at_lock-same x lid f y l
sent_back-leaving_after not_here x lid y l f = at_lock-same x lid f y l
sent_back-leaving_after acquiring x lid y l f = at_lock-same x lid f y l

release-counts :
    (u : LockState) (n : ℕ)
    → is_held u ≡ true
    → (is_in (after_release u) + leaving_after u n ≤ is_in u + n)
      × (is_held (after_release u) ≡ false)
release-counts locked n e = (omega arith, refl)
release-counts releasing n e = (omega arith, refl)
release-counts free n e = cc
release-counts not_here n e = cc
release-counts acquiring n e = cc

module _ (name : ℕ → Bytes) (who : Bytes → Option ℕ) where
  revoked-IsSound :
      (s : System) (x lid : ℕ) → IsSound name s → IsSound name (step name who s (revoked x lid))
  unfolding step
  revoked-IsSound s x lid h =
      Changed-IsSound name s (step name who s (revoked x lid)) x lid (after_revoke (states s x lid))
        (s.leaving x lid) (s.held x lid)
        (λ y l. (
          at-state x lid (after_revoke (states s x lid)) (revoke_handler (s.client x) lid) s.client
              (revoke-state (s.client x) lid) y l,
          at_lock-same x lid s.leaving y l,
          at_lock-same x lid s.held y l,
        ))
        (λ l. refl) (rw (after_revoke-is_in (states s x lid)) (omega arith))
        (after_revoke-is_held (states s x lid) ∙ h.1 x lid) h

  gives_up-IsSound :
      (s : System) (x lid : ℕ)
      → states s x lid ≡ free
      → IsSound name s
      → IsSound name (step name who s (gives_up x lid))
  unfolding step
  gives_up-IsSound s x lid f h =
      Changed-IsSound name s (step name who s (gives_up x lid)) x lid not_here (s.leaving x lid + 1)
        (s.held x lid)
        (λ y l. (
          at-state x lid not_here (give_up (s.client x) lid) s.client
              (give_up-state (s.client x) lid) y l,
          refl,
          at_lock-same x lid s.held y l,
        ))
        (λ l. refl) (rw f (omega arith)) (sym (ap is_held f) ∙ h.1 x lid) h

  releases-IsSound :
      (s : System) (x lid t : ℕ)
      → s.held x lid ≡ some t
      → IsSound name s
      → IsSound name (step name who s (releases x lid))
  unfolding step
  releases-IsSound s x lid t e h =
      let u = states s x lid in
      let in_hand : is_held u ≡ true = h.1 x lid ∙ ap is_some e in
      let there = is_held-here u in_hand in
      let state = λ (l : ℕ). (release-state (s.client x) lid l there).0 in
      let how = (release-state (s.client x) lid lid there).1 in
      let counts = release-counts u (s.leaving x lid) in_hand in
      Changed-IsSound name s (step name who s (releases x lid)) x lid (after_release u)
        (leaving_after u (s.leaving x lid)) none
        (λ y l. (
          at-state x lid (after_release u) (Client.release (s.client x) lid).1 s.client state y l,
          rw how (sent_back-leaving_after u x lid y l s.leaving),
          refl,
        ))
        (λ l. refl) counts.0 counts.1 h

  -- The server's release, without the retry.
  abbrev given : System → ℕ → ℕ → System
  given s x lid = record s {
    server = (Server.release s.server lid (name x)).1;
    leaving = at_lock x lid (s.leaving x lid - 1) s.leaving;
  }

  given-Changed :
      (s : System) (x lid : ℕ)
      → Changed s (given s x lid) x lid (states s x lid) (s.leaving x lid - 1) (s.held x lid)
  given-Changed s x lid y l =
      (at_lock-same x lid (states s) y l, refl, at_lock-same x lid s.held y l)

  -- A retry of a lock that is not in the client.
  retried-states :
      (delivered : Bool) (lid : ℕ) (o : Option ℕ) (f : ℕ → LockClient) (y l : ℕ)
      → (state_at (retried delivered lid o f y) l ≡ state_at (f y) l)
        ⊎ ((lid ≡ l) × (state_at (retried delivered lid o f y) l ≡ not_here))
  retried-states false lid o f y l = inl refl
  retried-states true lid none f y l = inl refl
  retried-states true lid (some z) f y l = elim (Bool-cases (z == y)) [
    | inl same ↦ rw same (rw (sym ((==_iff z y).0 same)) (retry-state (f z) lid l))
    | inr other ↦ inl (rw other refl)
  ]

  retried-IsSound :
      (s : System) (delivered : Bool) (lid : ℕ) (o : Option ℕ)
      → ((y : ℕ) → is_in (states s y lid) ≡ 0)
      → IsSound name s
      → IsSound name (record s { client = retried delivered lid o s.client })
  retried-IsSound s delivered lid o out h = (
    Moves.Fine-same name (owner s.server) (owner s.server) (load s) (load s') (λ l. refl)
        (λ y l. ap (λ n. n + s.leaving y l) (same_in y l)) h.0,
    λ y l. same_held y l ∙ h.1 y l,
  )
    where
      s' : System
      s' = record s { client = retried delivered lid o s.client }

      same_in : (y l : ℕ) → is_in (states s' y l) ≡ is_in (states s y l)
      same_in y l = elim (retried-states delivered lid o s.client y l) [
        | inl e ↦ ap is_in e
        | inr (this, gone) ↦ ap is_in gone ∙ sym (ap (λ m. is_in (states s y m)) (sym this) ∙ out y)
      ]

      same_held : (y l : ℕ) → is_held (states s' y l) ≡ is_held (states s y l)
      same_held y l = elim (retried-states delivered lid o s.client y l) [
        | inl e ↦ ap is_held e
        | inr (this, gone) ↦
            ap is_held gone
            ∙ sym (
                ap (λ m. is_held (states s y m)) (sym this)
                ∙ is_in-is_held (states s y lid) (out y))
      ]

  module _ (injective : (x y : ℕ) → name x ≡ name y → x ≡ y) (named : (x : ℕ) → name x ≢ []) where
    given-IsSound :
        (s : System) (x lid : ℕ)
        → 0 < s.leaving x lid
        → IsSound name s
        → IsSound name (given s x lid)
    given-IsSound s x lid p h =
        let loaded : 0 < load s x lid = omega arith in
        let here = h.0 x lid in
        let after = at_lock x lid 0 (load s) in
        let nothing : is_in (states s x lid) + (s.leaving x lid - 1) ≡ 0 = omega arith in
        let c = given-Changed s x lid in
        (
          Moves.Fine-same name (owner (given s x lid).server) (owner (given s x lid).server) after
              (load (given s x lid)) (λ l. refl)
              (rw (sym nothing) (
                Changed-load s (given s x lid) x lid (states s x lid) (s.leaving x lid - 1)
                  (s.held x lid) c))
              (Moves.Fine-given name injective named (owner s.server) (owner (given s x lid).server)
                (load s) x lid loaded (λ l. release-owner s.server lid l (name x)) h.0),
          Changed-Agrees s (given s x lid) x lid (states s x lid) (s.leaving x lid - 1)
              (s.held x lid) c (h.1 x lid) h.1,
        )

    -- While a release call is under way, no client has the lock.
    leaving-out :
        (s : System) (x lid : ℕ)
        → 0 < s.leaving x lid
        → IsSound name s
        → (y : ℕ) → is_in (states s y lid) ≡ 0
    leaving-out s x lid p h y =
        let loaded : 0 < load s x lid = omega arith in
        let here = (h.0 x lid).0 in
        elim (Moves.Fine-one name injective named (owner s.server) (load s) lid x y loaded h.0) [
          | inl same ↦ rw (sym same) (omega arith)
          | inr empty ↦ omega arith
        ]

    released-IsSound :
        (s : System) (x lid : ℕ) (delivered : Bool)
        → 0 < s.leaving x lid
        → IsSound name s
        → IsSound name (step name who s (released x lid delivered))
    unfolding step
    released-IsSound s x lid delivered p h =
        retried-IsSound (given s x lid) delivered lid
          (whose name who (Server.release s.server lid (name x)).0) (leaving-out s x lid p h)
          (given-IsSound s x lid p h)

    pub step-IsSound :
        (s : System) (a : Step) → Obeys s a → IsSound name s → IsSound name (step name who s a)
    step-IsSound s (acquires x lid thread f) o h =
        acquires-IsSound name who injective named s x lid thread f h
    step-IsSound s (releases x lid) o h = releases-IsSound s x lid o.0 o.1 h
    step-IsSound s (revoked x lid) o h = revoked-IsSound s x lid h
    step-IsSound s (gives_up x lid) o h = gives_up-IsSound s x lid o h
    step-IsSound s (released x lid delivered) o h = released-IsSound s x lid delivered o h
