-- ===== src/Lock/System/Exclusion.antt =====
-- Who has a lock, among the threads of all the clients of one lock server.
use cse_yet_another_file_sys.Base.{
  ℕ, ◌≡◌, ◌≢◌, refl, sym, ap, ◌∙◌, inl, inr, Option, none, some, List, [], ◌∷◌, Bytes, lookup,
  at_or, arith,
}
use cse_yet_another_file_sys.Lock.Client.{Turn, returns, waits, goes_on, state_at, turn}
use cse_yet_another_file_sys.Lock.System.{
  System, start, Step, acquires, releases, revoked, gives_up, released, step,
}
use cse_yet_another_file_sys.Lock.System.Token.{owner}
use cse_yet_another_file_sys.Lock.System.Invariant.{states, is_some, is_in-is_held, IsSound}
use cse_yet_another_file_sys.Lock.System.Acquire.{called, acquires-takes}
use cse_yet_another_file_sys.Lock.System.Steps.{Obeys, step-IsSound}

-- A thread's lock is its client's at the server.
abbrev pub Owns : (ℕ → Bytes) → System → ℕ → ℕ → Option ℕ → Type 0
Owns name s x lid none = Unit
Owns name s x lid (some t) = owner s.server lid ≡ some (name x)

abbrev pub OwnersHold : (ℕ → Bytes) → System → Type 0
OwnersHold name s = (x lid : ℕ) → Owns name s x lid (s.held x lid)

abbrev pub Takes : System → ℕ → Turn → Type 0
Takes s lid returns = (y : ℕ) → s.held y lid ≡ none
Takes s lid _ = Unit

-- An acquire that returns takes a lock that no thread of any client has.
abbrev pub TakesFree : (ℕ → Bytes) → System → Step → Type 0
TakesFree name s (acquires x lid thread f) =
    Takes s lid (turn (called name s x lid f).0 (s.client x) lid).0
TakesFree name s _ = Unit

module _ (name : ℕ → Bytes) (who : Bytes → Option ℕ) where
  abbrev pub AllObey : System → List Step → Type 0
  AllObey s [] = Unit
  AllObey s (a ∷ ss) = Obeys s a × AllObey (step name who s a) ss

  abbrev pub AllExclude : System → List Step → Type 0
  AllExclude s [] = OwnersHold name s
  AllExclude s (a ∷ ss) = OwnersHold name s × TakesFree name s a × AllExclude (step name who s a) ss

  sound-OwnersHold : (s : System) → IsSound name s → OwnersHold name s
  sound-OwnersHold s h x lid = by_thread (s.held x lid) refl
    where
      by_thread : (o : Option ℕ) → s.held x lid ≡ o → Owns name s x lid o
      by_thread none e = tt
      by_thread (some t) e = elim (h.0 x lid).1 [
        | inl empty ↦
            let out = is_in-is_held (states s x lid) (omega arith) in
            let never = sym out ∙ h.1 x lid ∙ ap is_some e in cc
        | inr own ↦ own
      ]

  module _ (injective : (x y : ℕ) → name x ≡ name y → x ≡ y) (named : (x : ℕ) → name x ≢ []) where
    sound-TakesFree : (s : System) (a : Step) → IsSound name s → TakesFree name s a
    sound-TakesFree s (acquires x lid thread f) h =
        by_turn (turn (called name s x lid f).0 (s.client x) lid).0 refl
      where
        by_turn :
            (t : Turn) → (turn (called name s x lid f).0 (s.client x) lid).0 ≡ t → Takes s lid t
        by_turn returns e = λ y. acquires-takes name who injective named s x lid y f h e
        by_turn waits e = tt
        by_turn goes_on e = tt
    sound-TakesFree s (releases x lid) h = tt
    sound-TakesFree s (revoked x lid) h = tt
    sound-TakesFree s (gives_up x lid) h = tt
    sound-TakesFree s (released x lid delivered) h = tt

    sound-AllExclude :
        (s : System) (ss : List Step) → IsSound name s → AllObey s ss → AllExclude s ss
    sound-AllExclude s [] h o = sound-OwnersHold s h
    sound-AllExclude s (a ∷ ss) h o = (
      sound-OwnersHold s h,
      sound-TakesFree s a h,
      sound-AllExclude (step name who s a) ss (step-IsSound name who injective named s a o.0 h) o.1,
    )

    start-IsSound : IsSound name start
    unfolding state_at at_or lookup
    start-IsSound = (λ y l. (omega arith, inl refl), λ y l. refl)

    -- One lock server and its clients, whose ids differ and are not empty, in any order of the turns of
    -- acquire, the releases, the revokes and what give_back does under the mutex, each at any client,
    -- and of the release calls as they reach the server, whatever calls and answers are lost: an
    -- acquire returns only with a lock that no thread of any client has, and while a thread has a
    -- lock, the server's owner of the lock is its client. The threads release only what they have, a
    -- release call reaches the server once at most, and a lock that give_back has found FREE, without
    -- the mutex, is still FREE when it has the mutex.
    pub system-AllExclude : (ss : List Step) → AllObey start ss → AllExclude start ss
    system-AllExclude ss o = sound-AllExclude start ss start-IsSound o
