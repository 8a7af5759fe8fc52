-- ===== src/Yfs/Dirs/Effect.antt =====
-- What the methods on directories do to the store of extents, for a directory that holds a list
-- of entries.
use cse_yet_another_file_sys.Base.{
  ℕ, ◌≡◌, ◌≢◌, refl, ap, ◌∙◌, none, some, [], ◌∷◌, ◌++◌, Bytes, All, arith,
}
use cse_yet_another_file_sys.Extent.Server.{Attr}
use cse_yet_another_file_sys.Extent.Client.Lookup.{found}
use cse_yet_another_file_sys.Yfs.Split.{split, sep}
use cse_yet_another_file_sys.Yfs.Services.{Services, ok, err, exist}
use cse_yet_another_file_sys.Yfs.Laws.{
  Store, with_content, Laws, Ends, Ends-get, Ends-getattr, Ends-put, Ends-ignoring_put, Ends-locked,
  Ends-bind, Ends-raise,
}
use cse_yet_another_file_sys.Yfs.Entries.{has_name}
use cse_yet_another_file_sys.Yfs.Entries.Listing.{
  Listing, encode, IsEntry, inum_of, is_some, split-encode, has_name-fields, with_entry-encode,
}
use cse_yet_another_file_sys.Yfs.Dirs.{listed, is_exist, add_entry, create, mymkdir}

-- The store after a new extent and its entry, at the end of the directory, were put.
abbrev pub created : Store → ℕ → Bytes → ℕ → Listing → Store
created st parent name i es =
    with_content (with_content st i []) parent (encode (es ++ (i, name) ∷ []))

module _ {W : Type 0} {d : Services W} {view : W → Store} {Sound : W → Type 0}
    (laws : Laws d view Sound) where
  -- isExist tells whether the name is in the list.
  pub Ends-is_exist :
      (parent : ℕ) (name : Bytes) (es : Listing) {w : W} {st : Store}
      → Sound w
      → view w ≡ st
      → st parent ≡ some (encode es)
      → All IsEntry es
      → Ends view Sound (is_exist d parent name) w (ok (is_some (inum_of name es))) st
  unfolding is_exist
  Ends-is_exist parent name es {w} s v there wf = record {
    status = ap ok (
        ap (listed name)
          (laws.get-found parent w s ∙ ap found (ap (λ (t : Store). t parent) v ∙ there))
        ∙ in_list);
    view_after = laws.view-get parent w s ∙ v;
    sound = laws.get-Sound parent w s;
  }
    where
      in_list : has_name name (split (encode es) sep) ≡ is_some (inum_of name es)
      in_list = rw (split-encode es wf) (has_name-fields name es)

  -- add_entry adds the entry at the end of the list.
  pub Ends-add_entry :
      (parent : ℕ) (name : Bytes) (i : ℕ) (es : Listing) {w : W} {st : Store}
      → Sound w
      → view w ≡ st
      → st parent ≡ some (encode es)
      → Ends view Sound
          (add_entry d parent name i)
          w
          (ok tt)
          (with_content st parent (encode (es ++ (i, name) ∷ [])))
  unfolding add_entry
  Ends-add_entry parent name i es s v there =
      let g = Ends-get laws parent s v there in
      Ends-bind _ _ _ g
        (rw (← with_entry-encode es i name) (Ends-put laws parent g.sound g.view_after _))

  module _ (parent : ℕ) (name : Bytes) (i : ℕ) (es : Listing) {w : W} (sound : Sound w)
      (there : view w parent ≡ some (encode es)) (wf : All IsEntry es) where
    -- `create` of a name that is in the directory answers EXIST and leaves the store of extents as
    -- it is. The directory holds a list of well-formed entries.
    pub create_exist :
        (j : ℕ)
        → inum_of name es ≡ some j
        → Ends view Sound (create d parent name i) w (err exist) (view w)
    unfolding create
    create_exist j taken = Ends-locked laws parent sound refl _ λ s v.
        Ends-locked laws i s v _ λ s' v'.
          let q = Ends-is_exist parent name es s' v' there wf in
          Ends-bind _ _ _ q (rw taken (Ends-raise exist q.sound q.view_after))

    module _ (free : inum_of name es ≡ none) (other : parent ≢ i) where
      -- The directory is still there when the new extent has been put.
      still_there : with_content (view w) i [] parent ≡ some (encode es)
      still_there = ground (arith, other, there)

      -- `create` of a name that is not in the directory, with an i-number other than the
      -- directory's, makes an empty extent, adds the entry at the end of the directory, and returns
      -- attributes of size 0. The directory holds a list of well-formed entries.
      pub create_lem :
          (a : Attr) × (a.size ≡ 0)
          × Ends view Sound (create d parent name i) w (ok a) (created (view w) parent name i es)
      unfolding create
      create_lem =
          let s1 = laws.acquire-Sound parent w sound in
          let s2 = laws.acquire-Sound i (d.acquire parent w) s1 in
          let v2 = laws.view-acquire i (d.acquire parent w) s1 ∙ laws.view-acquire parent w sound in
          let q = Ends-is_exist parent name es s2 v2 there wf in
          let p = Ends-ignoring_put laws i q.sound q.view_after [] in
          let r = Ends-add_entry parent name i es p.sound p.view_after still_there in
          let (a, size, g) = Ends-getattr laws i r.sound r.view_after {buf = []} new_there in
          (
            a,
            size,
            Ends-locked laws parent sound refl _ λ s v.
                Ends-locked laws i s v _
                  λ s' v'. Ends-bind _ _ _ q (rw free (Ends-bind _ _ _ p (Ends-bind _ _ _ r g))),
          )
        where
          new_there : created (view w) parent name i es i ≡ some []
          new_there = ground (arith, other)

      -- `mymkdir` of a name that is not in the directory, with an i-number other than the
      -- directory's, makes an empty extent, adds the entry at the end of the directory, and answers
      -- OK. The directory holds a list of well-formed entries.
      pub mymkdir_lem :
          Ends view Sound (mymkdir d parent name i) w (ok tt) (created (view w) parent name i es)
      unfolding mymkdir
      mymkdir_lem = Ends-locked laws parent sound refl _ λ s v. Ends-locked laws i s v _ λ s' v'.
          let q = Ends-is_exist parent name es s' v' there wf in
          let p = Ends-put laws i q.sound q.view_after [] in
          Ends-bind _ _ _ q (
            rw free (
              Ends-bind _ _ _ p (Ends-add_entry parent name i es p.sound p.view_after still_there)))
