-- ===== src/Rpc/ReplyWindow/Reordering.antt =====
-- One request of a client: its duplicates, and what a request that was delayed does to the bound.
use cse_yet_another_file_sys.Base.{
  ℕ, ◌≤◌, ◌<◌, ◌≡◌, ◌≢◌, refl, ◌∙◌, inl, inr, some, List, [], ◌∷◌, Bytes, ltb, arith, Bool-cases,
}
use cse_yet_another_file_sys.Rpc.ReplyWindow.{
  Reply, RpcState, new, inprogress, forgotten, done, Window, scan, classify, enter, check, fill,
  add_reply,
}
use cse_yet_another_file_sys.Rpc.ReplyWindow.Contents.{
  Has, Has-enter, HasOnce-enter, trim-some, HasOnce-trim, scan-absent, scan-once, scan-enter,
  scan-trim,
}

-- Above the bound the list alone decides.
classify_above :
    (rs : List Reply) (b x : ℕ)
    → b < x
    → classify (record { replies = rs; bound = b }) x ≡ scan x new rs
unfolding classify scan
classify_above [] b x l = refl
classify_above (r ∷ rs) b x l = ground arith

classify_below :
    (rs : List Reply) (b x : ℕ)
    → x ≤ b
    → rs ≢ []
    → classify (record { replies = rs; bound = b }) x ≡ forgotten
unfolding classify
classify_below [] b x l h = absurd (h refl)
classify_below (r ∷ rs) b x l h = ground arith

module _ (w : Window) (x m : ℕ) (absent : ¬ Has x w.replies) (fresh : classify w x ≡ new)
    (above : m < x) where
  -- A request that is found to be NEW, of which the window has no reply yet and whose xid is above
  -- the xid_rep sent with it, is accepted; a duplicate of it is then INPROGRESS, and once the reply
  -- is added, DONE with that reply.
  pub duplicate_lem :
      (b : Bytes)
      → (w' : Window) × (check w x m ≡ some (new, w'))
        × (classify w' x ≡ inprogress)
        × (classify (add_reply w' x b) x ≡ done b)
  unfolding check add_reply
  duplicate_lem b =
      let (rs, e) = trim-some x m (enter x w.replies) above (Has-enter x x w.replies (inl refl)) in
      let once =
        HasOnce-trim x m (enter x w.replies) rs e above (HasOnce-enter x w.replies absent) in
      (
        record { replies = rs; bound = m },
        rw (fresh, e) refl,
        classify_above rs m x above
            ∙ scan-trim x m new (enter x w.replies) rs e above
            ∙ scan-enter x new w.replies absent,
        classify_above (fill x b rs) m x above ∙ scan-once x new rs b once,
      )

  scan-enter-other :
      (y : ℕ) (rs : List Reply) (s : RpcState) → y ≢ x → scan y s (enter x rs) ≡ scan y s rs
  unfolding scan enter
  scan-enter-other y [] s n = ground arith
  scan-enter-other y (r ∷ rs) s n = elim (Bool-cases (ltb x r.xid)) [
    | inl e ↦ rw e (ground arith)
    | inr e ↦ rw e (scan-enter-other y rs _ n)
  ]

  -- An xid at or below the bound, whose reply was deleted while others are left, is FORGOTTEN. Then
  -- a NEW request x, with an xid_rep m that is below x and below that xid, lowers the bound, and
  -- the same xid is afterwards found to be NEW: its handler would be run again.
  pub forgotten_again :
      (y : ℕ)
      → y ≤ w.bound
      → y ≢ x
      → ¬ Has y w.replies
      → w.replies ≢ []
      → m < y
      → (w' : Window) × (check w x m ≡ some (new, w'))
        × (classify w y ≡ forgotten)
        × (classify w' y ≡ new)
  unfolding check
  forgotten_again y old other gone some_left below =
      let (rs, e) = trim-some x m (enter x w.replies) above (Has-enter x x w.replies (inl refl)) in
      (
        record { replies = rs; bound = m },
        rw (fresh, e) refl,
        classify_below w.replies w.bound y old some_left,
        classify_above rs m y below
            ∙ scan-trim y m new (enter x w.replies) rs e below
            ∙ scan-enter-other y w.replies new other
            ∙ scan-absent y new w.replies gone,
      )
