-- ===== src/Handles/Counted.antt =====
-- handle_mgr: every handle points to an object that is there, and is counted.
use cse_yet_another_file_sys.Base.{
  ℕ, suc, ◌+◌, ◌-◌, ◌≡◌, ◌≢◌, refl, sym, ◌∙◌, inl, inr, true, false, ◌&&◌, Option, none, some, List,
  [], ◌∷◌, ◌==◌, ==_iff, if◌then◌else◌, Map, lookup, insert, All, arith, Bool-cases, Option-cases,
}
use cse_yet_another_file_sys.Handles.{
  Hinfo, Handle, HandleMgr, no_handles, new_hinfo, get_handle, deleted, delete_handle, pointed,
  deref, counted_down, with_client, bound_to, is_null, safebind, pick, Deed, make, finish, bind,
  delete, act, act_all,
}
use cse_yet_another_file_sys.Handles.Entries.{
  named, PointsAt, AllCounted, IsCounted, named-none, insert-here, insert-other, fresh-valid,
  replaced-valid, insert-counts, erase-IsCounted, IsPicked, pick-IsPicked, pick-All,
}

-- The manager goes on, with every handle counted.
GoesOn : Option HandleMgr → Type 0
GoesOn o = (s' : HandleMgr) × (o ≡ some s') × IsCounted s'.hmap s'.handles

module _ (s : HandleMgr) (h : Hinfo) (m : ℕ) (i : IsCounted s.hmap s.handles)
    (there : lookup m s.hmap ≡ some h) where
  -- Another state of the same object, with the count for the handles `xs`.
  changed-IsCounted :
      (h' : Hinfo) (xs : List Handle)
      → h'.id ≡ h.id
      → h'.refcnt ≡ named m xs
      → ((j : ℕ) → m ≢ j → named j s.handles ≡ named j xs)
      → All (PointsAt s.hmap) xs
      → IsCounted (insert m h' s.hmap) xs
  changed-IsCounted h' xs same r others v = record {
    valid = replaced-valid m h h' s.hmap xs there same v;
    counts = insert-counts m h' s.hmap s.handles xs r others i.counts;
  }

  same_handles :
      (h' : Hinfo) → h'.id ≡ h.id → h'.refcnt ≡ h.refcnt → IsCounted (insert m h' s.hmap) s.handles
  unfolding AllCounted
  same_handles h' same r =
      changed-IsCounted h' s.handles same (r ∙ i.counts m h there) (λ j n. refl) i.valid

  deleted-IsCounted : IsCounted (deleted m h s.hmap) s.handles
  unfolding AllCounted
  deleted-IsCounted = elim (Bool-cases (h.refcnt == 0)) [
    | inl z ↦ rw z (
        erase-IsCounted m s.hmap s.handles (sym (i.counts m h there) ∙ (==_iff h.refcnt 0).0 z)
          i.valid (λ j g n e. i.counts j g e))
    | inr z ↦ rw z (same_handles (record h { del = true }) refl refl)
  ]

  counted_down-IsCounted :
      (id : ℕ) (rest : List Handle)
      → IsPicked s.handles m id rest
      → All (PointsAt s.hmap) rest
      → IsCounted (counted_down m h s.hmap) rest
  unfolding AllCounted
  counted_down-IsCounted id rest p v =
      let left : h.refcnt - 1 ≡ named m rest = omega (arith, i.counts m h there, p.one_less) in
      elim (Bool-cases (h.refcnt - 1 == 0 && h.del)) [
        | inl z ↦
            let last : h.refcnt - 1 ≡ 0 = ground arith in
            rw z (
              erase-IsCounted m s.hmap rest (sym left ∙ last) v
                (λ j g n e. i.counts j g e ∙ p.others j n))
        | inr z ↦
            rw z (changed-IsCounted (record h { refcnt = h.refcnt - 1 }) rest refl left p.others v)
      ]

  with_client-same :
      (c : Option ℕ) → ((with_client c h).id ≡ h.id) × ((with_client c h).refcnt ≡ h.refcnt)
  with_client-same none = (refl, refl)
  with_client-same (some c) = (refl, refl)

  bound_to-same : (c : Option ℕ) → ((bound_to c h).id ≡ h.id) × ((bound_to c h).refcnt ≡ h.refcnt)
  bound_to-same c = elim (Bool-cases h.del) [
    | inl d ↦ rw d (refl, refl)
    | inr d ↦ elim (Bool-cases (is_null h.cl)) [
      | inl e ↦ simp (d, e) (with_client-same c)
      | inr e ↦ rw (d, e) (refl, refl)
    ]
  ]

make-IsCounted :
    (m : ℕ) (s : HandleMgr)
    → IsCounted s.hmap s.handles
    → IsCounted (get_handle m s).hmap (get_handle m s).handles
unfolding get_handle AllCounted
make-IsCounted m s i = elim (Option-cases (lookup m s.hmap)) [
  | inl e ↦
      let z = named-none m s.hmap s.handles i.valid e in
      rw e (record {
        valid = (
          (new_hinfo s.made, insert-here m (new_hinfo s.made) s.hmap, refl),
          fresh-valid m s.hmap (insert m (new_hinfo s.made) s.hmap) s.handles
              (λ j n. insert-other m j (new_hinfo s.made) s.hmap n) z i.valid,
        );
        counts =
            insert-counts m (new_hinfo s.made) s.hmap s.handles ((m, s.made) ∷ s.handles)
              (ground (arith, z)) (λ j n. ground (arith, n)) i.counts;
      })
  | inr (h, e) ↦ elim (Bool-cases h.del) [
    | inl d ↦ rw (e, d) i
    | inr d ↦
        rw (e, d)
          (changed-IsCounted s h m i e (record h { refcnt = h.refcnt + 1; del = false })
            ((m, h.id) ∷ s.handles) refl (one_more (i.counts m h e)) (λ j n. ground (arith, n))
            ((h, e, refl), i.valid))
  ]
]
  where
    one_more : {n k : ℕ} → n ≡ k → n + 1 ≡ (if m == m then suc k else k)
    one_more e = ground arith

pointed-found :
    (hmap : Map Hinfo) (m id : ℕ)
    → PointsAt hmap (m, id)
    → (h : Hinfo) × (lookup m hmap ≡ some h) × (pointed id (lookup m hmap) ≡ some h)
pointed-found hmap m id (h, e, k) =
    let same : (h.id == id) ≡ true = ground (arith, k) in (h, e, rw (e, same) refl)

finish-GoesOn : (k : ℕ) (s : HandleMgr) → IsCounted s.hmap s.handles → GoesOn (act (finish k) s)
unfolding GoesOn act deref
finish-GoesOn k s i = elim (Option-cases (pick k s.handles)) [
  | inl e ↦ (s, rw e refl, i)
  | inr (((m, id), rest), e) ↦
      let (here, others) = pick-All (PointsAt s.hmap) k s.handles (m, id) rest e i.valid in
      let (h, there, points) = pointed-found s.hmap m id here in
      (
        record s { hmap = counted_down m h s.hmap; handles = rest },
        rw (e, points) refl,
        counted_down-IsCounted s h m i there id rest (pick-IsPicked k s.handles m id rest e) others,
      )
]

bind-GoesOn :
    (k : ℕ) (bound : Option ℕ) (s : HandleMgr)
    → IsCounted s.hmap s.handles
    → GoesOn (act (bind k bound) s)
unfolding GoesOn act safebind deref
bind-GoesOn k bound s i = elim (Option-cases (pick k s.handles)) [
  | inl e ↦ (s, rw e refl, i)
  | inr (((m, id), rest), e) ↦
      let (here, others) = pick-All (PointsAt s.hmap) k s.handles (m, id) rest e i.valid in
      let (h, there, points) = pointed-found s.hmap m id here in
      let (same, count) = bound_to-same s h m i there bound in
      (
        record s { hmap = insert m (bound_to bound h) s.hmap },
        rw (e, points) refl,
        same_handles s h m i there (bound_to bound h) same count,
      )
]

delete-IsCounted :
    (m : ℕ) (s : HandleMgr)
    → IsCounted s.hmap s.handles
    → IsCounted (delete_handle m s).hmap (delete_handle m s).handles
unfolding delete_handle
delete-IsCounted m s i = elim (Option-cases (lookup m s.hmap)) [
  | inl e ↦ rw e i
  | inr (h, e) ↦ rw e (deleted-IsCounted s h m i e)
]

act-GoesOn : (d : Deed) (s : HandleMgr) → IsCounted s.hmap s.handles → GoesOn (act d s)
unfolding GoesOn act
act-GoesOn (make m) s i = (get_handle m s, refl, make-IsCounted m s i)
act-GoesOn (finish k) s i = finish-GoesOn k s i
act-GoesOn (bind k bound) s i = bind-GoesOn k bound s i
act-GoesOn (delete m) s i = (delete_handle m s, refl, delete-IsCounted m s i)

act_all-GoesOn :
    (ds : List Deed) (s : HandleMgr) → IsCounted s.hmap s.handles → GoesOn (act_all ds (some s))
unfolding GoesOn act_all
act_all-GoesOn [] s i = (s, refl, i)
act_all-GoesOn (d ∷ ds) s i =
    let (s1, ran, i1) = act-GoesOn d s i in
    let (s2, rest, i2) = act_all-GoesOn ds s1 i1 in (s2, rw ran rest, i2)

-- What the map has for a name, and the number of handles of the name.
abbrev pub Counts : Option Hinfo → ℕ → Type 0
Counts none n = n ≡ 0
Counts (some h) n = h.refcnt ≡ n

lookup-Counts :
    (m : ℕ) (hmap : Map Hinfo) (xs : List Handle)
    → IsCounted hmap xs
    → Counts (lookup m hmap) (named m xs)
unfolding AllCounted
lookup-Counts m hmap xs i = elim (Option-cases (lookup m hmap)) [
  | inl e ↦ rw e (named-none m hmap xs i.valid e)
  | inr (h, e) ↦ rw e (i.counts m h e)
]

start-IsCounted : IsCounted [] []
unfolding AllCounted lookup
start-IsCounted = record { valid = tt; counts = λ m h e. cc }

-- Whatever handles a program makes, binds and ends, and whatever names it deletes, in whatever order,
-- no object is used that was deleted: each handle points to the object of its name that is in the
-- map; the count of a name's object is the number of its handles, and a name that is not in the map
-- has none.
pub act_all_lem :
    (ds : List Deed) (m : ℕ)
    → (s : HandleMgr) × (act_all ds (some no_handles) ≡ some s)
      × All (PointsAt s.hmap) s.handles
      × Counts (lookup m s.hmap) (named m s.handles)
unfolding GoesOn
act_all_lem ds m =
    let (s, ran, i) = act_all-GoesOn ds no_handles start-IsCounted in
    (s, ran, i.valid, lookup-Counts m s.hmap s.handles i)
