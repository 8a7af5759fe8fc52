-- ===== src/Yfs/Dirs/Unlink.antt =====
-- unlink.
use cse_yet_another_file_sys.Base.{
  ℕ, ◌≡◌, refl, ap, ◌∙◌, true, false, none, some, [], ◌∷◌, ◌++◌, Bytes, All, arith, bytes_eq_refl,
  bytes_eq_sound,
}
use cse_yet_another_file_sys.Yfs.Numbers.{n2i-filename, isdir}
use cse_yet_another_file_sys.Yfs.Services.{Services, ok, err, ioerr, noent}
use cse_yet_another_file_sys.Yfs.Laws.{
  Store, with_content, Laws, Ends, Ends-get, Ends-put, Ends-locked, Ends-bind, Ends-raise,
}
use cse_yet_another_file_sys.Yfs.Entries.Listing.{
  Listing, encode, IsEntry, DiffersFrom, inum_of, split-encode, inum_of-IsEntry, kept-encode,
}
use cse_yet_another_file_sys.Yfs.Dirs.{free_extent, unlink_found, unlink}
use cse_yet_another_file_sys.Yfs.Dirs.Effect.{Ends-is_exist}
use cse_yet_another_file_sys.Yfs.Dirs.Lookup.{find-inum}

inum_of-middle :
    (u : ℕ) (name : Bytes) (es fs : Listing)
    → All (DiffersFrom u name) es
    → inum_of name (es ++ (u, name) ∷ fs) ≡ some u
unfolding inum_of
inum_of-middle u name [] fs h = ground (arith, bytes_eq_refl name)
inum_of-middle u name ((i, n) ∷ es) fs h =
    ground (arith, inum_of-middle u name es fs h.1, h.0.3, bytes_eq_sound name n)

module _ {W : Type 0} {d : Services W} {view : W → Store} {Sound : W → Type 0}
    (laws : Laws d view Sound) (parent : ℕ) (name : Bytes) where
  Ends-free_extent :
      (u : ℕ) {w : W} {st : Store}
      → Sound w
      → view w ≡ st
      → Ends view Sound (free_extent d u) w (ok tt) (with_content st u [])
  unfolding free_extent
  Ends-free_extent u {w} s v =
      let s1 = laws.acquire-Sound u w s in
      let done = laws.put-ok u [] (d.acquire u w) s1 in
      record {
        status = rw (done, free_extent) refl;
        view_after =
            rw (done, free_extent)
              (laws.view-put u [] (d.acquire u w) s1
                ∙ ap (λ (t : Store). with_content t u []) (laws.view-acquire u w s ∙ v));
        sound = rw (done, free_extent) (laws.put-Sound u [] (d.acquire u w) s1);
      }

  module _ (es : Listing) {w : W} (s : Sound w) (there : view w parent ≡ some (encode es))
      (wf : All IsEntry es) where
    -- `unlink` of a name that is not in the directory answers NOENT and leaves the store as it is.
    -- The directory holds a list of well-formed entries.
    pub unlink_noent :
        inum_of name es ≡ none → Ends view Sound (unlink d parent name) w (err noent) (view w)
    unfolding unlink
    unlink_noent free = Ends-locked laws parent s refl _ λ s' v.
        let q = Ends-is_exist laws parent name es s' v there wf in
        Ends-bind _ _ _ q (rw free (Ends-raise noent q.sound q.view_after))

    -- `unlink` of a name whose first entry has the i-number of a directory answers IOERR and leaves
    -- the store as it is. The directory holds a list of well-formed entries.
    pub unlink_dir :
        (u : ℕ)
        → inum_of name es ≡ some u
        → isdir u ≡ true
        → Ends view Sound (unlink d parent name) w (err ioerr) (view w)
    unfolding unlink
    unlink_dir u e dir = Ends-locked laws parent s refl _ λ s' v.
        let q = Ends-is_exist laws parent name es s' v there wf in
        let g = Ends-get laws parent q.sound q.view_after there in
        Ends-bind _ _ _ q (
          rw e (
            Ends-bind _ _ _ g (
              rw
                (
                  find-inum name es (some u) wf e,
                  unlink_found,
                  n2i-filename u (inum_of-IsEntry name es u wf e),
                  dir,
                )
                (Ends-raise ioerr g.sound g.view_after))))

  -- `unlink` of a file takes its entry out of the directory, keeping the others in their order, and
  -- empties its extent. The directory holds a list of well-formed entries, and no other entry has
  -- that name or i-number, nor either of these as the other.
  pub unlink_lem :
      (u : ℕ) (es fs : Listing) {w : W}
      → Sound w
      → view w parent ≡ some (encode (es ++ (u, name) ∷ fs))
      → All IsEntry (es ++ (u, name) ∷ fs)
      → All (DiffersFrom u name) es
      → All (DiffersFrom u name) fs
      → isdir u ≡ false
      → Ends view Sound
          (unlink d parent name)
          w
          (ok tt)
          (with_content (with_content (view w) parent (encode (es ++ fs))) u [])
  unfolding unlink
  unlink_lem u es fs s there wf h k file =
      let all = es ++ (u, name) ∷ fs in
      let e = inum_of-middle u name es fs h in
      Ends-locked laws parent s refl _ λ s' v.
        let q = Ends-is_exist laws parent name all s' v there wf in
        let g = Ends-get laws parent q.sound q.view_after there in
        let p = Ends-put laws parent g.sound g.view_after (encode (es ++ fs)) in
        Ends-bind _ _ _ q (
          rw e (
            Ends-bind _ _ _ g (
              rw
                (
                  find-inum name all (some u) wf e,
                  unlink_found,
                  n2i-filename u (inum_of-IsEntry name all u wf e),
                  file,
                  split-encode all wf,
                  kept-encode u name es fs h k,
                )
                (Ends-bind _ _ _ p (Ends-free_extent u p.sound p.view_after)))))
