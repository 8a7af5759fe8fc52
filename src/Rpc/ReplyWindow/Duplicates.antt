-- ===== src/Rpc/ReplyWindow/Duplicates.antt =====
-- At most once: a history of requests and replies of one client.
use mathlib.Core.Path.{subst}
use cse_yet_another_file_sys.Base.{
  ℕ, ◌≤◌, ◌<◌, ◌≡◌, ◌≢◌, refl, ◌∙◌, ◌⊎◌, inl, inr, Option, none, some, List, [], ◌∷◌, Bytes, leb,
  ◌==◌, All, All-imp, arith, Bool-cases,
}
use cse_yet_another_file_sys.Rpc.ReplyWindow.{
  Reply, RpcState, new, inprogress, forgotten, done, Window, empty, scan, classify, enter, trim,
  settle, check, fill, add_reply,
}
use cse_yet_another_file_sys.Rpc.ReplyWindow.Contents.{
  Has, scan-ne-new, Has-enter, trim-some, Has-trim,
}

-- A request arrives with its xid and the client's xid_rep; or its handler's reply is recorded.
pub data Event : Type 0 where
  request : ℕ → ℕ → Event
  reply : ℕ → Bytes → Event

abbrev pub noting : ℕ → RpcState → List ℕ → List ℕ
noting xid new executed = xid ∷ executed
noting xid s executed = executed

-- The xids whose handler was run, the last one first.
pub run : Window → List ℕ → List Event → Option (List ℕ)
run w executed [] = some executed
run w executed (request xid xid_rep ∷ es) = elim (check w xid xid_rep) [
  | none ↦ none
  | some (s, w') ↦ run w' (noting xid s executed) es
]
run w executed (reply xid b ∷ es) = run (add_reply w xid b) executed es

-- The requests arrive in an order in which the client's xid_rep does not fall, and each asks for an
-- xid above its xid_rep.
abbrev pub InOrder : ℕ → List Event → Type 0
InOrder m [] = Unit
InOrder m (request xid xid_rep ∷ es) = (m ≤ xid_rep) × (xid_rep < xid) × InOrder xid_rep es
InOrder m (reply xid b ∷ es) = InOrder m es

abbrev pub AllDistinct : List ℕ → Type 0
AllDistinct [] = Unit
AllDistinct (x ∷ xs) = All (λ y. y ≢ x) xs × AllDistinct xs

-- What was executed is remembered, or is not above the bound.
pub record IsRemembered (w : Window) (executed : List ℕ) : Type 0 where
  pub covered : All (λ x. (x ≤ w.bound) ⊎ Has x w.replies) executed
  pub started_any : w.replies ≡ [] → executed ≡ []

Has-fill : (x y : ℕ) (b : Bytes) (rs : List Reply) → Has y rs → Has y (fill x b rs)
unfolding fill
Has-fill x y b [] h = h
Has-fill x y b (r ∷ rs) h = elim (Bool-cases (x == r.xid)) [
  | inl e ↦ rw e h
  | inr e ↦ rw e (later (Has-fill x y b rs) h)
]
  where
    later : (Has y rs → Has y (fill x b rs)) → Has y (r ∷ rs) → (r.xid ≡ y) ⊎ Has y (fill x b rs)
    later ih (inl k) = inl k
    later ih (inr k) = inr (ih k)

fill-nil : (x : ℕ) (b : Bytes) (rs : List Reply) → fill x b rs ≡ [] → rs ≡ []
unfolding fill
fill-nil x b [] e = refl
fill-nil x b (r ∷ rs) e = ground arith

pub reply-IsRemembered :
    (w : Window) (executed : List ℕ) (x : ℕ) (b : Bytes)
    → IsRemembered w executed
    → IsRemembered (add_reply w x b) executed
unfolding add_reply
reply-IsRemembered w executed x b h = record {
  covered = All-imp _ _ executed (λ y k. carry y k) h.covered;
  started_any = λ e. h.started_any (fill-nil x b w.replies e);
}
  where
    carry : (y : ℕ) → (y ≤ w.bound) ⊎ Has y w.replies → (y ≤ w.bound) ⊎ Has y (fill x b w.replies)
    carry y (inl k) = inl k
    carry y (inr k) = inr (Has-fill x y b w.replies k)

-- A request that is found to be new was not executed.
fresh_in :
    (rs : List Reply) (b x : ℕ) (executed : List ℕ)
    → All (λ y. (y ≤ b) ⊎ Has y rs) executed
    → (rs ≡ [] → executed ≡ [])
    → classify (record { replies = rs; bound = b }) x ≡ new
    → All (λ y. y ≢ x) executed
unfolding classify
fresh_in [] b x executed c none_yet e = rw (none_yet refl) tt
fresh_in (r ∷ rs) b x executed c none_yet e = elim (Bool-cases (leb x b)) [
  | inl t ↦ let old : forgotten ≡ new = rw t at e in cc
  | inr t ↦ All-imp _ _ executed (λ y k. other (ground arith) (rw t at e) y k) c
]
  where
    other : b < x → scan x new (r ∷ rs) ≡ new → (y : ℕ) → (y ≤ b) ⊎ Has y (r ∷ rs) → y ≢ x
    other l k y (inl h) z = omega arith
    other l k y (inr h) z = scan-ne-new x new (r ∷ rs) (inr (subst (λ t. Has t (r ∷ rs)) z h)) k

-- The window after a new request.
new-IsRemembered :
    (w : Window) (executed : List ℕ) (x m : ℕ) (rs : List Reply)
    → w.bound ≤ m
    → m < x
    → trim m (enter x w.replies) ≡ some rs
    → IsRemembered w executed
    → IsRemembered (record { replies = rs; bound = m }) (x ∷ executed)
new-IsRemembered w executed x m rs le l e h = record {
  covered = (itself, All-imp _ _ executed carry h.covered);
  started_any = λ z. absurd (not_above itself z);
}
  where
    itself : (x ≤ m) ⊎ Has x rs
    itself = Has-trim x m (enter x w.replies) rs e (Has-enter x x w.replies (inl refl))

    carry : (y : ℕ) → (y ≤ w.bound) ⊎ Has y w.replies → (y ≤ m) ⊎ Has y rs
    carry y (inl k) = inl (omega arith)
    carry y (inr k) = Has-trim y m (enter x w.replies) rs e (Has-enter x y w.replies (inr k))

    not_above : (x ≤ m) ⊎ Has x rs → rs ≡ [] → ⊥
    not_above (inl k) z = omega arith
    not_above (inr k) z = rw z at k

settle-old :
    (w : Window) (x m : ℕ) (executed : List ℕ) (s : RpcState)
    → s ≢ new
    → (settle w x m s ≡ some (s, w)) × (noting x s executed ≡ executed)
settle-old w x m executed new h = absurd (h refl)
settle-old w x m executed _ h = (refl, refl)

check-new :
    (w : Window) (x m : ℕ) (rs : List Reply)
    → classify w x ≡ new
    → trim m (enter x w.replies) ≡ some rs
    → check w x m ≡ some (new, record { replies = rs; bound = m })
unfolding check
check-new w x m rs e t = rw (e, t) refl

check-old : (w : Window) (x m : ℕ) → classify w x ≢ new → check w x m ≡ some (classify w x, w)
unfolding check
check-old w x m h = (settle-old w x m [] (classify w x) h).0

run-new :
    (w : Window) (executed : List ℕ) (x m : ℕ) (es : List Event) (rs : List Reply)
    → classify w x ≡ new
    → trim m (enter x w.replies) ≡ some rs
    → run w executed (request x m ∷ es) ≡ run (record { replies = rs; bound = m }) (x ∷ executed) es
unfolding run
run-new w executed x m es rs e t = rw (check-new w x m rs e t, run) refl

run-old :
    (w : Window) (executed : List ℕ) (x m : ℕ) (es : List Event)
    → classify w x ≢ new
    → run w executed (request x m ∷ es) ≡ run w executed es
unfolding run
run-old w executed x m es h =
    let (same, none_more) = settle-old w x m executed (classify w x) h in
    rw (check-old w x m h, none_more, run) refl

new_or_not : (s : RpcState) → (s ≡ new) ⊎ (s ≢ new)
new_or_not new = inl refl
new_or_not inprogress = inr (λ e. cc)
new_or_not forgotten = inr (λ e. cc)
new_or_not (done b) = inr (λ e. cc)

-- What one request does to a window that remembers what was executed.
pub check-IsRemembered :
    (w : Window) (executed : List ℕ) (x m : ℕ)
    → w.bound ≤ m
    → m < x
    → IsRemembered w executed
    → AllDistinct executed
    → (s : RpcState) × (w' : Window) × (check w x m ≡ some (s, w'))
      × (w'.bound ≤ m)
      × IsRemembered w' (noting x s executed)
      × AllDistinct (noting x s executed)
check-IsRemembered w executed x m le l h d = elim (new_or_not (classify w x)) [
  | inl is_new ↦
      let (rs, trimmed) =
        trim-some x m (enter x w.replies) l (Has-enter x x w.replies (inl refl)) in
      (
        new,
        record { replies = rs; bound = m },
        check-new w x m rs is_new trimmed,
        omega arith,
        new-IsRemembered w executed x m rs le l trimmed h,
        (fresh_in w.replies w.bound x executed h.covered h.started_any is_new, d),
      )
  | inr seen ↦
      let (same, none_more) = settle-old w x m executed (classify w x) seen in
      (classify w x, w, check-old w x m seen, le, rw none_more h, rw none_more d)
]

run_once :
    (w : Window) (executed : List ℕ) (m : ℕ) (es : List Event)
    → w.bound ≤ m
    → IsRemembered w executed
    → AllDistinct executed
    → InOrder m es
    → (all : List ℕ) × (run w executed es ≡ some all) × AllDistinct all
unfolding run
run_once w executed m [] le h d o = (executed, refl, d)
run_once w executed m (reply x b ∷ es) le h d o =
    run_once (add_reply w x b) executed m es (unfold add_reply in le)
      (reply-IsRemembered w executed x b h) d o
run_once w executed m (request x r ∷ es) le h d o = elim (new_or_not (classify w x)) [
  | inl is_new ↦
      let (rs, trimmed) =
        trim-some x r (enter x w.replies) o.1 (Has-enter x x w.replies (inl refl)) in
      let (all, ran, once) =
        run_once (record { replies = rs; bound = r }) (x ∷ executed) r es (omega arith)
          (new-IsRemembered w executed x r rs (omega arith) o.1 trimmed h)
          (fresh_in w.replies w.bound x executed h.covered h.started_any is_new, d) o.2 in
      (all, run-new w executed x r es rs is_new trimmed ∙ ran, once)
  | inr seen ↦
      let (all, ran, once) = run_once w executed r es (omega arith) h d o.2 in
      (all, run-old w executed x r es seen ∙ ran, once)
]

-- At-most-once execution: if the requests of a client arrive in an order in which its xid_rep does
-- not fall, and each xid is above the xid_rep sent with it, then whatever duplicates arrive and
-- whenever replies are recorded, the window handles every request without reading an empty list,
-- and no xid is found to be new, so is executed, twice.
pub at_most_once :
    (es : List Event)
    → InOrder 0 es
    → (all : List ℕ) × (run empty [] es ≡ some all) × AllDistinct all
at_most_once es o =
    run_once empty [] 0 es (omega arith) (record { covered = tt; started_any = λ e. refl }) tt o
