-- ===== src/Fuse/NewFile.antt =====
-- fuse.cc over services that keep the laws: a file that was made is found, and what was written to
-- it is read, as far as the answers to the kernel show.
use cse_yet_another_file_sys.Base.{
  ℕ, ◌+◌, ◌<◌, ◌≡◌, ◌≢◌, refl, ap, ◌∙◌, true, false, not, none, some, [], ◌∷◌, Bytes, All, length,
  arith,
}
use cse_yet_another_file_sys.Rpc.Status.{u32}
use cse_yet_another_file_sys.Yfs.Numbers.{isfile, isdir}
use cse_yet_another_file_sys.Yfs.Split.{IsWord}
use cse_yet_another_file_sys.Yfs.Services.{Services, ok, ◌>>=◌}
use cse_yet_another_file_sys.Yfs.Laws.{Store, Laws, Ends-getattr, Ends-bind, Ends-pure}
use cse_yet_another_file_sys.Yfs.Entries.Listing.{Listing, encode, IsEntry, inum_of}
use cse_yet_another_file_sys.Yfs.Files.{FileInfo, getfile}
use cse_yet_another_file_sys.Yfs.Dirs.{create, lookup}
use cse_yet_another_file_sys.Yfs.Dirs.Effect.{create_lem}
use cse_yet_another_file_sys.Yfs.Dirs.Lookup.{lookup-create}
use cse_yet_another_file_sys.Fuse.Inums.{
  Draws, number_of, taken, IsGenerated, taken-Absent, generate_inum_lem,
}
use cse_yet_another_file_sys.Fuse.{
  Stat, reply_entry, file_mode, file_stat, new_file_stat, getattr, found_entry, fuseserver_lookup,
  fuseserver_mknod, fuseserver_createhelper, make_node,
}

module _ {W : Type 0} {d : Services W} {view : W → Store} {Sound : W → Type 0}
    (laws : Laws d view Sound) where
  -- The attributes of a file that is there.
  getattr-file :
      (i : ℕ) (w : W) (buf : Bytes)
      → Sound w
      → view w i ≡ some buf
      → isfile i ≡ true
      → (st : Stat) × (w' : W) × (getattr d i w ≡ ((true, st), w'))
        × (st.st_ino ≡ some i)
        × (st.st_mode ≡ file_mode)
        × (st.st_size ≡ u32 (length buf))
  unfolding getattr getfile ◌>>=◌
  getattr-file i w buf s there f =
      let s1 = laws.acquire-Sound i w s in
      let v1 = laws.view-acquire i w s in
      let (a, size, e) = Ends-getattr laws i s1 refl (ap (λ (t : Store). t i) v1 ∙ there) in
      let info : FileInfo = record {
        size = a.size;
        atime = a.atime;
        mtime = a.mtime;
        ctime = a.ctime;
      } in
      let r = getfile d i w in
      let known : r.0 ≡ ok info =
        (Ends-bind _ _ _ e (Ends-pure info e.sound e.view_after)).status in
      ((file_stat i (ok info)).1, r.1, rw (f, known) refl, refl, refl, size)

  -- A file that mknod makes, in a directory that holds a list of well-formed entries without its
  -- name, is answered with an i-number that generate_inum has not given out before, and a lookup of
  -- the name is then answered with the same i-number, and with the attributes of an empty file.
  -- Each of the two sends one answer. A draw whose number is free comes within the fuel.
  pub lookup-make_node :
      (rand : ℕ → ℕ) (i fuel : ℕ) (parent : ℕ) (name : Bytes) (es : Listing) (s : Draws) (w : W)
      → taken (number_of true (rand (s.drawn + i))) s.inum_set ≡ false
      → i < fuel
      → Sound w
      → view w parent ≡ some (encode es)
      → All IsEntry es
      → IsWord name
      → inum_of name es ≡ none
      → isdir parent ≡ true
      → (n : ℕ) × (s' : Draws) × (st found : Stat) × (w1 w2 : W) × (make_node d rand fuel parent
            name s w
          ≡ some (reply_entry n st ∷ [], s', w1))
        × IsGenerated rand true s n s'
        × (fuseserver_lookup d parent name w1 ≡ (reply_entry n found ∷ [], w2))
        × (found.st_ino ≡ some n)
        × (found.st_mode ≡ file_mode)
        × (found.st_size ≡ 0)
  unfolding make_node fuseserver_mknod fuseserver_createhelper fuseserver_lookup found_entry isdir
  lookup-make_node rand i fuel parent name es s w free l sound there wf word absent is_dir =
      let (n, s', drew, g) =
        generate_inum_lem rand true i fuel s (taken-Absent _ s.inum_set free) l in
      let other : parent ≢ n = λ e.
        let both : not (isfile n) ≡ true = rw e at is_dir in
        let clash : false ≡ true = rw g.kind at both in cc in
      let entry : IsEntry (n, name) = (omega (arith, g.in_range), word) in
      let (a, _, made) = create_lem laws parent name n es sound there wf absent other in
      let w1 = (create d parent name n w).1 in
      let f = lookup-create laws parent name n es w sound there wf entry absent other in
      let at_n : view (lookup d parent name w1).1 n ≡ some [] =
        ap (λ (t : Store). t n) (f.view_after ∙ made.view_after) ∙ ground (arith, other) in
      let (found, w2, got, ino, mode, size) =
        getattr-file n (lookup d parent name w1).1 [] f.sound at_n g.kind in
      (
        n,
        s',
        new_file_stat a,
        found,
        w1,
        w2,
        rw (drew, made.status) refl,
        g,
        rw (f.status, f.inum, got) refl,
        ino,
        mode,
        size,
      )
