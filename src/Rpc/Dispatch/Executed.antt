-- ===== src/Rpc/Dispatch/Executed.antt =====
-- rpcs::dispatch: whose handlers were called, and what a dispatch does to the window of a client.
use cse_yet_another_file_sys.Base.{
  ℕ, ◌≤◌, ◌≡◌, refl, inl, inr, Bool, true, false, Option, none, some, List, [], ◌∷◌, ◌++◌, Bytes,
  ◌==◌, if◌then◌else◌, All, Map, lookup, at_or, at_or-insert, lookup-insert, arith, Bool-cases,
  Option-cases,
}
use cse_yet_another_file_sys.Rpc.Connection.{Connection, compare}
use cse_yet_another_file_sys.Rpc.ReplyWindow.{Window, Windows, window_of, put_back, add_reply, fill}
use cse_yet_another_file_sys.Rpc.ReplyWindow.Duplicates.{
  IsRemembered, AllDistinct, reply-IsRemembered,
}
use cse_yet_another_file_sys.Rpc.Dispatch.{
  Rpcs, Effect, incref, decref, send, ran, know_client, save_reply, reply_conn, updatestat,
  executed_state, is_older, replaced, moved,
}

abbrev pub noted : ℕ → List ℕ → Effect → List ℕ
noted j executed (ran clt_nonce xid proc) = if clt_nonce == j then xid ∷ executed else executed
noted j executed _ = executed

-- The xids of the client's requests whose handler was called, the last one first.
unfoldable pub executed_by : ℕ → List ℕ → List Effect → List ℕ
executed_by j executed [] = executed
executed_by j executed (e ∷ es) = executed_by j (noted j executed e) es

pub executed_by-append :
    (j : ℕ) (executed : List ℕ) (es later : List Effect)
    → executed_by j executed (es ++ later) ≡ executed_by j (executed_by j executed es) later
unfolding executed_by
executed_by-append j executed [] later = refl
executed_by-append j executed (e ∷ es) later = executed_by-append j (noted j executed e) es later

-- No handler is called.
abbrev pub IsQuiet : Effect → Type 0
IsQuiet (ran clt_nonce xid proc) = ⊥
IsQuiet _ = Unit

pub executed_by-IsQuiet :
    (j : ℕ) (executed : List ℕ) (es : List Effect)
    → All IsQuiet es
    → executed_by j executed es ≡ executed
unfolding executed_by
executed_by-IsQuiet j executed [] h = refl
executed_by-IsQuiet j executed (incref c ∷ es) h = executed_by-IsQuiet j executed es h.1
executed_by-IsQuiet j executed (decref c ∷ es) h = executed_by-IsQuiet j executed es h.1
executed_by-IsQuiet j executed (send c b ∷ es) h = executed_by-IsQuiet j executed es h.1
executed_by-IsQuiet j executed (ran c x p ∷ es) h = absurd h.0

pub replaced-IsQuiet :
    (k : ℕ) (c : Connection) (conns : Map Connection) (o : Option Connection)
    → All IsQuiet (replaced k c conns o).1
replaced-IsQuiet k c conns none = (tt, tt)
replaced-IsQuiet k c conns (some d) = elim (Bool-cases (is_older (compare d c))) [
  | inl e ↦ rw e (tt, (tt, tt))
  | inr e ↦ rw e tt
]

moved-IsQuiet :
    (c d : Connection) (o : Option Connection) (es : List Effect)
    → moved c o ≡ some (d, es)
    → All IsQuiet es
moved-IsQuiet c d none es e = cc
moved-IsQuiet c d (some l) es e = elim (Bool-cases (l.fd == c.fd)) [
  | inl t ↦ let same : es ≡ [] = grind (arith, t, e) in rw same tt
  | inr t ↦ let same : es ≡ decref c ∷ incref l ∷ [] = grind (arith, t, e) in rw same (tt, (tt, tt))
]

pub reply_conn-IsQuiet :
    (dead : Bool) (k : ℕ) (c d : Connection) (conns : Map Connection) (es : List Effect)
    → reply_conn dead k c conns ≡ some (d, es)
    → All IsQuiet es
unfolding reply_conn
reply_conn-IsQuiet true k c d conns es e = moved-IsQuiet c d (lookup k conns) es e
reply_conn-IsQuiet false k c d conns es e = let same : es ≡ [] = cc in rw same tt

-- The window of one client, when a window is changed.
pub window_of-know_client :
    (k j : ℕ) (ws : Windows) → window_of (know_client k ws) j ≡ window_of ws j
unfolding at_or
window_of-know_client k j ws = elim (Option-cases (lookup k ws.reply_window)) [
  | inl e ↦ ground (arith, e, lookup-insert k j [] ws.reply_window)
  | inr (rs, e) ↦ ground (arith, e)
]

pub window_of-put_back :
    (k j : ℕ) (w : Window) (ws : Windows)
    → window_of (put_back ws k w) j ≡ (if k == j then w else window_of ws j)
window_of-put_back k j w ws = ground (
  arith,
  at_or-insert [] k j w.replies ws.reply_window,
  at_or-insert 0 k j w.bound ws.window_bound,
)

pub window_of-save_reply :
    (k j x : ℕ) (b : Bytes) (ws : Windows)
    → window_of (save_reply k x b ws) j
      ≡ (if k == j then add_reply (window_of ws j) x b else window_of ws j)
unfolding add_reply
window_of-save_reply k j x b ws =
    ground (arith, at_or-insert [] k j (fill x b (at_or [] k ws.reply_window)) ws.reply_window)

-- The window remembers what was executed, nothing of which was twice.
pub record IsOnce (m : ℕ) (w : Window) (executed : List ℕ) : Type 0 where
  pub bound : w.bound ≤ m
  pub remembered : IsRemembered w executed
  pub distinct : AllDistinct executed

save-IsOnce :
    (m j k x : ℕ) (b : Bytes) (ws : Windows) (executed : List ℕ)
    → IsOnce m (window_of ws j) executed
    → IsOnce m (window_of (save_reply k x b ws) j) executed
unfolding add_reply
save-IsOnce m j k x b ws executed h = elim (Bool-cases (k == j)) [
  | inl e ↦
      rw (window_of-save_reply k j x b ws, e)
        (record {
          bound = h.bound;
          remembered = reply-IsRemembered (window_of ws j) executed x b h.remembered;
          distinct = h.distinct;
        })
  | inr e ↦ rw (window_of-save_reply k j x b ws, e) h
]

-- The state that the case NEW leaves.
pub executed-IsOnce :
    (m j : ℕ) (s : Rpcs) (k proc x : ℕ) (b : Bytes) (executed : List ℕ)
    → IsOnce m (window_of s.windows j) executed
    → IsOnce m (window_of (executed_state s k proc x b).windows j) executed
unfolding updatestat
executed-IsOnce m j s k proc x b executed h = elim (Bool-cases (s.counting == 0)) [
  | inl c ↦ elim (Bool-cases (k == 0)) [
    | inl e ↦ rw (c, e) h
    | inr e ↦ rw (c, e) (save-IsOnce m j k x b s.windows executed h)
  ]
  | inr c ↦ elim (Bool-cases (k == 0)) [
    | inl e ↦ rw (c, e) h
    | inr e ↦ rw (c, e) (save-IsOnce m j k x b s.windows executed h)
  ]
]
