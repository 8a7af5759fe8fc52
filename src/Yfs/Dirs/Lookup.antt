-- ===== src/Yfs/Dirs/Lookup.antt =====
-- lookup and readdir, and a lookup behind a create.
use mathlib.Core.Option
use mathlib.Core.Path.{subst}
use cse_yet_another_file_sys.Base.{
  ℕ, ◌≡◌, ◌≢◌, refl, sym, ap, ◌∙◌, Option, none, some, [], ◌∷◌, ◌++◌, Bytes, All, length, arith,
  bytes_eq_refl, All-append,
}
use cse_yet_another_file_sys.Rpc.Status.{Result, u32}
use cse_yet_another_file_sys.Extent.Server.{Attr}
use cse_yet_another_file_sys.Extent.Client.Lookup.{found, size_found}
use cse_yet_another_file_sys.Yfs.Numbers.{filename, n2i-filename}
use cse_yet_another_file_sys.Yfs.Split.{split, sep}
use cse_yet_another_file_sys.Yfs.Services.{Services, ok}
use cse_yet_another_file_sys.Yfs.Laws.{
  Store, Laws, Ends, Ends-get, Ends-locked, Ends-bind, Ends-pure, attr_of_size,
}
use cse_yet_another_file_sys.Yfs.Entries.{find_name}
use cse_yet_another_file_sys.Yfs.Entries.Listing.{
  Listing, fields, encode, IsEntry, inum_of, split-encode, find_name-fields, inum_of-IsEntry,
}
use cse_yet_another_file_sys.Yfs.Dirs.{
  Looked, missing, looked, look_at, look_for, lookup, readdir, create,
}
use cse_yet_another_file_sys.Yfs.Dirs.Effect.{create_lem, created}

-- A lookup that finds the i-number `j`, of an extent of size `n`, and changes nothing.
pub record Finds {W : Type 0} (view : W → Store) (Sound : W → Type 0) (m : W → Looked × W) (w : W)
    (j n : ℕ) : Type 0 where
  pub status : (m w).0.ret ≡ ok tt
  pub inum : (m w).0.result_inum ≡ some j
  pub attr : (a : Attr) × (a.size ≡ n) × ((m w).0.result_attr ≡ some a)
  pub view_after : view (m w).1 ≡ view w
  pub sound : Sound (m w).1

pub find-inum :
    (name : Bytes) (es : Listing) (o : Option ℕ)
    → All IsEntry es
    → inum_of name es ≡ o
    → find_name name (split (encode es) sep) ≡ Option.map filename o
find-inum name es o wf e =
    rw (split-encode es wf, find_name-fields name es) (ap (Option.map filename) e)

module _ {W : Type 0} {d : Services W} {view : W → Store} {Sound : W → Type 0}
    (laws : Laws d view Sound) (parent : ℕ) (name : Bytes) (es : Listing) {w : W} (s : Sound w)
    (there : view w parent ≡ some (encode es)) (wf : All IsEntry es) where
  entries_read : (d.get parent (d.acquire parent w)).0 ≡ Result.ok (encode es)
  entries_read =
      laws.get-found parent _ (laws.acquire-Sound parent w s)
      ∙ ap (λ (t : Store). found (t parent)) (laws.view-acquire parent w s)
      ∙ ap found there

  -- `lookup` of a name that is not in the directory, which holds a list of well-formed entries,
  -- answers OK and assigns neither an i-number nor attributes.
  pub lookup-missing : inum_of name es ≡ none → (lookup d parent name w).0 ≡ missing (ok tt)
  unfolding lookup
  lookup-missing e = rw (entries_read, look_for, find-inum name es none wf e) refl

  -- `lookup` of a name that is in the directory answers OK, with the i-number of the first entry of
  -- that name, if that extent exists, and attributes with the size of its content modulo 2^32; the
  -- store stays as it is. The directory holds a list of well-formed entries.
  pub lookup_lem :
      (j : ℕ) (buf : Bytes)
      → inum_of name es ≡ some j
      → view w j ≡ some buf
      → Finds view Sound (lookup d parent name) w j (u32 (length buf))
  unfolding lookup
  lookup_lem j buf e at_j =
      let s1 = laws.acquire-Sound parent w s in
      let s2 = laws.get-Sound parent (d.acquire parent w) s1 in
      let w2 = (d.get parent (d.acquire parent w)).1 in
      let v2 = laws.view-get parent (d.acquire parent w) s1 ∙ laws.view-acquire parent w s in
      let s3 = laws.acquire-Sound j w2 s2 in
      let v3 = laws.view-acquire j w2 s2 ∙ v2 in
      let s4 = laws.getattr-Sound j (d.acquire j w2) s3 in
      let v4 = laws.view-getattr j (d.acquire j w2) s3 ∙ v3 in
      let w4 = (d.getattr j (d.acquire j w2)).1 in
      let s5 = laws.release-Sound j w4 s4 in
      let v5 = laws.view-release j w4 s4 ∙ v4 in
      let (a, size, is_a) = attr_of_size (d.getattr j (d.acquire j w2)).0 (u32 (length buf)) (
        laws.getattr-found j (d.acquire j w2) s3
        ∙ ap (λ (t : Store). size_found (t j)) v3
        ∙ ap size_found at_j) in
      let run : look_for d name (d.get parent (d.acquire parent w)).0 w2 ≡ look_at d j w2 =
        rw
          (
            entries_read,
            look_for,
            find-inum name es (some j) wf e,
            n2i-filename j (inum_of-IsEntry name es j wf e),
          )
          refl in
      let both : lookup d parent name w
          ≡ (looked j (Result.ok a), d.release parent (d.release j w4)) =
        ap (λ (l : Looked × W). (l.0, d.release parent l.1)) run
        ∙ unfold look_at in
          ap (λ (r : Result Attr). (looked j r, d.release parent (d.release j w4))) is_a in
      record {
        status = ap (λ (l : Looked × W). l.0.ret) both;
        inum = ap (λ (l : Looked × W). l.0.result_inum) both;
        attr = (a, size, ap (λ (l : Looked × W). l.0.result_attr) both);
        view_after =
            ap (λ (l : Looked × W). view l.1) both
            ∙ laws.view-release parent (d.release j w4) s5
            ∙ v5;
        sound =
            subst (λ (l : Looked × W). Sound l.1) (sym both)
              (laws.release-Sound parent (d.release j w4) s5);
      }

  -- `readdir` of a directory that holds a list of well-formed entries returns the i-number and the
  -- name of each entry, in their order, and leaves the store as it is.
  pub readdir_lem : Ends view Sound (readdir d parent) w (ok (fields es)) (view w)
  unfolding readdir
  readdir_lem = Ends-locked laws parent s refl _ λ s' v.
      let g = Ends-get laws parent s' v there in
      Ends-bind _ _ _ g (rw (split-encode es wf) (Ends-pure (fields es) g.sound g.view_after))

inum_of-snoc :
    (name : Bytes) (es : Listing) (i : ℕ)
    → inum_of name es ≡ none
    → inum_of name (es ++ (i, name) ∷ []) ≡ some i
unfolding inum_of
inum_of-snoc name [] i e = ground (arith, bytes_eq_refl name)
inum_of-snoc name ((j, n) ∷ es) i e = ground (arith, inum_of-snoc name es i)

-- After a `create` of a name that is not in the directory, a `lookup` of that name finds the new
-- file, of size 0. The directory holds a list of well-formed entries, the new entry is one too, and
-- the new i-number is not the directory's.
pub lookup-create :
    {W : Type 0} {d : Services W} {view : W → Store} {Sound : W → Type 0} (laws : Laws d view Sound)
    (parent : ℕ) (name : Bytes) (i : ℕ) (es : Listing) (w : W)
    → Sound w
    → view w parent ≡ some (encode es)
    → All IsEntry es
    → IsEntry (i, name)
    → inum_of name es ≡ none
    → parent ≢ i
    → Finds view Sound (lookup d parent name) (create d parent name i w).1 i 0
lookup-create {view = view} laws parent name i es w s there wf entry free other =
    let (a, size, e) = create_lem laws parent name i es s there wf free other in
    let listing : created (view w) parent name i es parent ≡ some (encode (es ++ (i, name) ∷ [])) =
      ground arith in
    let new : created (view w) parent name i es i ≡ some [] = ground (arith, other) in
    lookup_lem laws parent name (es ++ (i, name) ∷ []) e.sound
      (ap (λ (t : Store). t parent) e.view_after ∙ listing)
      (All-append IsEntry es ((i, name) ∷ []) wf (entry, tt)) i [] (inum_of-snoc name es i free)
      (ap (λ (t : Store). t i) e.view_after ∙ new)
