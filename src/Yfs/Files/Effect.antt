-- ===== src/Yfs/Files/Effect.antt =====
-- What read, write and updatesize do to the store of extents.
use mathlib.Core.Path.{subst}
use cse_yet_another_file_sys.Base.{
  ℕ, ◌+◌, ◌-◌, ◌^◌, ◌<◌, ◌≡◌, ◌≢◌, refl, sym, ap, ◌≤◌, All, ◌∙◌, ◌⊎◌, inl, inr, ◌==◌, some, [],
  ◌++◌, Bytes, length, take, replicate, arith, Bool-cases, ==_iff,
}
use cse_yet_another_file_sys.Yfs.Services.{Services, ok}
use cse_yet_another_file_sys.Yfs.Laws.{
  Store, with_content, Laws, Ends, Ends-get, Ends-getattr, Ends-put, Ends-locked, Ends-bind,
  Ends-pure,
}
use cse_yet_another_file_sys.Yfs.Files.{
  c_string, fit, overwrite, resized, portion, updatesize, read, write,
}
use cse_yet_another_file_sys.Yfs.Files.Content.{
  splice, overwrite-splice, length-fit, resized_lem, splice_empty, portion-splice, fit-c_string,
  EndsAtNul, fit-prefix,
}

module _ {W : Type 0} {d : Services W} {view : W → Store} {Sound : W → Type 0}
    (laws : Laws d view Sound) (i : ℕ) (w : W) (content : Bytes) (sound : Sound w)
    (there : view w i ≡ some content) where
  -- `read` of an extent that exists returns its bytes from `off` on, at most `size` of them, and
  -- leaves the store as it is.
  pub read_lem :
      (size off : ℕ)
      → Ends view Sound (read d i size off) w (ok (portion size off content)) (view w)
  unfolding read
  read_lem size off = Ends-locked laws i sound refl _ λ s v.
      let g = Ends-get laws i s v there in Ends-bind _ _ _ g (Ends-pure _ g.sound g.view_after)

  module _ (small : length content < 2 ^ 32) where
    -- `updatesize` of an extent shorter than 4 GB cuts it to the new size, or fills it up with
    -- zeros.
    updatesize_lem :
        (new_size : ℕ)
        → Ends view Sound (updatesize d i new_size) w (ok tt) (
            with_content
              (view w)
              i
              (take new_size (content ++ replicate (new_size - length content) 0)))
    unfolding updatesize
    updatesize_lem new_size = Ends-locked laws i sound refl _ λ s v.
        let (a, size, q) = Ends-getattr laws i s v there in
        let g = Ends-get laws i q.sound q.view_after there in
        let exact : a.size ≡ length content = omega arith in
        Ends-bind _ _ _ q (
          Ends-bind _ _ _ g (
            rw (exact, ← resized_lem new_size content)
              (Ends-put laws i g.sound g.view_after (resized new_size (length content) content))))

    -- The extent after a write, with the piece as the code computes it.
    pub write-splice :
        (buf : Bytes) (size off : ℕ)
        → off + size < 2 ^ 64
        → (content ≢ []) ⊎ (off ≡ 0)
        → Ends view Sound
            (write d i buf size off)
            w
            (ok tt)
            (with_content (view w) i (splice off (fit size (c_string buf)) content))
    unfolding write
    write-splice buf size off fits h = Ends-locked laws i sound refl _ λ s v.
        let g = Ends-get laws i s v there in
        let (a, size_is, q) = Ends-getattr laws i g.sound g.view_after there in
        let exact : a.size ≡ length content = omega arith in
        let piece = fit size (c_string buf) in
        Ends-bind _ _ _ g (
          Ends-bind _ _ _ q (elim (Bool-cases (a.size == 0)) [
            | inl zero ↦
                rw (zero, splice_empty off piece content (sym exact ∙ (==_iff a.size 0).0 zero) h)
                  (Ends-put laws i q.sound q.view_after piece)
            | inr more ↦
                rw
                  (
                    more,
                    ← overwrite-splice content piece size off (length-fit size (c_string buf)) fits,
                  )
                  (Ends-put laws i q.sound q.view_after (overwrite content piece size off))
          ]))

-- `write` to an extent that is not empty, or at its start, puts a piece at `off`: zeros fill a gap
-- before it, and the bytes behind it stay. Where the buffer is a text without a NUL and then nothing,
-- or a NUL and whatever follows it, the piece is that text, cut or filled with zeros to `size` bytes.
-- The extent exists and is shorter than 4 GB, and off + size is below 2^64.
pub write_lem :
    {W : Type 0} {d : Services W} {view : W → Store} {Sound : W → Type 0} (laws : Laws d view Sound)
    (i : ℕ) (w : W) (content text rest : Bytes) (size off : ℕ)
    → Sound w
    → view w i ≡ some content
    → length content < 2 ^ 32
    → All (λ c. c ≢ 0) text
    → EndsAtNul rest
    → off + size < 2 ^ 64
    → (content ≢ []) ⊎ (off ≡ 0)
    → Ends view Sound (write d i (text ++ rest) size off) w (ok tt) (
        with_content
          (view w)
          i
          (splice off (take size (text ++ replicate (size - length text) 0)) content))
write_lem laws i w content text rest size off sound there small plain ends fits h =
    rw (← fit-prefix size text rest plain ends)
      (write-splice laws i w content sound there small (text ++ rest) size off fits h)

-- What a write put into a file that is not empty, or at its start, a read at the same offset and of
-- the same size returns: the first `size` bytes of the buffer, if no NUL is among them and the file
-- was shorter than 4 GB. The read leaves the store as the write left it.
pub read-write :
    {W : Type 0} {d : Services W} {view : W → Store} {Sound : W → Type 0} (laws : Laws d view Sound)
    (i : ℕ) (w : W) (content buf : Bytes) (size off : ℕ)
    → Sound w
    → view w i ≡ some content
    → length content < 2 ^ 32
    → off + size < 2 ^ 64
    → (content ≢ []) ⊎ (off ≡ 0)
    → size ≤ length buf
    → All (λ c. c ≢ 0) (take size buf)
    → Ends view Sound
        (read d i size off)
        (write d i buf size off w).1
        (ok (take size buf))
        (view (write d i buf size off w).1)
read-write {view = view} laws i w content buf size off sound there small fits h enough plain =
    let piece = fit size (c_string buf) in
    let e = write-splice laws i w content sound there small buf size off fits h in
    let now_there : with_content (view w) i (splice off piece content) i
        ≡ some (splice off piece content) =
      ground arith in
    let same : portion size off (splice off piece content) ≡ take size buf =
      rw (← fit-c_string size buf enough plain) (
        subst (λ n. portion n off (splice off piece content) ≡ piece)
          (length-fit size (c_string buf)) (portion-splice off piece content)) in
    rw (← same) (
      read_lem laws i _ (splice off piece content) e.sound
        (ap (λ (t : Store). t i) e.view_after ∙ now_there) size off)

-- `write` to an empty extent makes the piece its whole content, whatever the offset: no gap of
-- zeros is made.
write_at_start :
    {W : Type 0} {d : Services W} {view : W → Store} {Sound : W → Type 0} (laws : Laws d view Sound)
    (i : ℕ) (w : W) (buf : Bytes) (size off : ℕ)
    → Sound w
    → view w i ≡ some []
    → Ends view Sound
        (write d i buf size off)
        w
        (ok tt)
        (with_content (view w) i (fit size (c_string buf)))
unfolding write
write_at_start laws i w buf size off sound there = Ends-locked laws i sound refl _ λ s v.
    let g = Ends-get laws i s v there in
    let (a, size_is, q) = Ends-getattr laws i g.sound g.view_after there in
    let zero : a.size ≡ 0 = size_is in
    Ends-bind _ _ _ g
      (Ends-bind _ _ _ q (rw zero (Ends-put laws i q.sound q.view_after (fit size (c_string buf)))))
