-- ===== src/Yfs/Entries/Listing.antt =====
-- A directory as the list of its entries, against the byte string that holds it.
use mathlib.Core.Option
use mathlib.Core.List.{append_assoc, append-nil}
use cse_yet_another_file_sys.Base.{
  ℕ, ◌-◌, ◌^◌, ◌<◌, ◌≡◌, ◌≢◌, refl, sym, ap, ◌∙◌, Bool, true, false, Option, none, some, List, [],
  ◌∷◌, ◌++◌, Bytes, bytes_eq, bytes_eq_refl, bytes_eq_sound, if◌then◌else◌, All, All-imp, length,
  length-append, take-append, arith,
}
use cse_yet_another_file_sys.Yfs.Numbers.{filename, IsDigit, All-filename, filename-ne-nil}
use cse_yet_another_file_sys.Yfs.Split.{split, sep, space, IsWord, join, split-join, join-snoc}
use cse_yet_another_file_sys.Yfs.Entries.{find_name, has_name, with_entry, kept, without_last}

abbrev pub Listing : Type 0
Listing = List (ℕ × Bytes)

abbrev pub fields : Listing → List Bytes
fields [] = []
fields ((i, name) ∷ es) = filename i ∷ name ∷ fields es

-- The content of a directory with these entries.
unfoldable pub encode : Listing → Bytes
encode es = join (fields es)

-- An i-number of 64 bits, and a name without spaces.
abbrev pub IsEntry : ℕ × Bytes → Type 0
IsEntry (i, name) = (i < 2 ^ 64) × IsWord name

-- The i-number of the first entry of that name.
unfoldable pub inum_of : Bytes → Listing → Option ℕ
inum_of name [] = none
inum_of name ((i, n) ∷ es) = if bytes_eq name n then some i else inum_of name es

filename-IsWord : (i : ℕ) → IsWord (filename i)
filename-IsWord i =
    (filename-ne-nil i, All-imp IsDigit _ (filename i) (λ c h. omega arith) (All-filename i))

pub fields-IsWord : (es : Listing) → All IsEntry es → All IsWord (fields es)
fields-IsWord [] h = tt
fields-IsWord ((i, name) ∷ es) h = (filename-IsWord i, (h.0.1, fields-IsWord es h.1))

pub split-encode : (es : Listing) → All IsEntry es → split (encode es) sep ≡ fields es
unfolding encode
split-encode es h = split-join (fields es) (fields-IsWord es h)

pub find_name-fields :
    (name : Bytes) (es : Listing)
    → find_name name (fields es) ≡ Option.map filename (inum_of name es)
unfolding find_name inum_of
find_name-fields name [] = refl
find_name-fields name ((i, n) ∷ es) = ground (arith, find_name-fields name es)

abbrev pub is_some : {A : Type 0} → Option A → Bool
is_some none = false
is_some (some a) = true

pub has_name-fields :
    (name : Bytes) (es : Listing) → has_name name (fields es) ≡ is_some (inum_of name es)
unfolding has_name
has_name-fields name es = ground (arith, find_name-fields name es)

pub inum_of-IsEntry :
    (name : Bytes) (es : Listing) (i : ℕ) → All IsEntry es → inum_of name es ≡ some i → i < 2 ^ 64
unfolding inum_of
inum_of-IsEntry name [] i h e = cc
inum_of-IsEntry name ((j, n) ∷ es) i h e = ground (arith, inum_of-IsEntry name es i h.1)

-- An entry more.
join-ne-nil : (w : Bytes) (ws : List Bytes) → w ≢ [] → join (w ∷ ws) ≢ []
join-ne-nil [] ws h e = absurd (h refl)
join-ne-nil (c ∷ w) [] h e = cc
join-ne-nil (c ∷ w) (v ∷ ws) h e = cc

with_entry-lem :
    (s name : Bytes) (i : ℕ)
    → s ≢ []
    → with_entry s name i ≡ (s ++ space ∷ filename i) ++ space ∷ name
unfolding with_entry
with_entry-lem [] name i h = absurd (h refl)
with_entry-lem (c ∷ s) name i h = simp append_assoc

fields-snoc :
    (es : Listing) (i : ℕ) (name : Bytes)
    → fields (es ++ (i, name) ∷ []) ≡ (fields es ++ filename i ∷ []) ++ name ∷ []
fields-snoc [] i name = refl
fields-snoc ((j, n) ∷ es) i name = ap (λ l. filename j ∷ n ∷ l) (fields-snoc es i name)

pub with_entry-encode :
    (es : Listing) (i : ℕ) (name : Bytes)
    → with_entry (encode es) name i ≡ encode (es ++ (i, name) ∷ [])
unfolding encode
with_entry-encode [] i name = unfold with_entry in simp append_assoc
with_entry-encode ((j, n) ∷ es) i name =
    with_entry-lem (join (fields ((j, n) ∷ es))) name i
      (join-ne-nil (filename j) (n ∷ fields es) (filename-ne-nil j))
    ∙ sym (
        ap join (fields-snoc ((j, n) ∷ es) i name)
        ∙ join-snoc (filename j) (n ∷ fields es ++ filename i ∷ []) name
        ∙ ap (λ s. s ++ space ∷ name) (join-snoc (filename j) (n ∷ fields es) (filename i)))

fields-append : (es fs : Listing) → fields (es ++ fs) ≡ fields es ++ fields fs
fields-append [] fs = refl
fields-append ((i, n) ∷ es) fs = ap (λ l. filename i ∷ n ∷ l) (fields-append es fs)

-- No piece of the entry is the i-number or the name of the entry that is removed.
abbrev pub DiffersFrom : ℕ → Bytes → ℕ × Bytes → Type 0
DiffersFrom u name (i, n) =
    (filename i ≢ filename u) × (filename i ≢ name) × (n ≢ filename u) × (n ≢ name)

-- Each piece with a separator behind it.
abbrev terminated : List Bytes → Bytes
terminated [] = []
terminated (w ∷ ws) = (w ++ sep) ++ terminated ws

kept-append :
    (u name : Bytes) (ks ls : List Bytes)
    → kept u name (ks ++ ls) ≡ kept u name ks ++ kept u name ls
unfolding kept
kept-append u name [] ls = refl
kept-append u name (k ∷ ks) ls =
    rw (kept-append u name ks ls)
      (ground (arith, append_assoc (k ++ sep) (kept u name ks) (kept u name ls)))

kept-fields :
    (u : ℕ) (name : Bytes) (es : Listing)
    → All (DiffersFrom u name) es
    → kept (filename u) name (fields es) ≡ terminated (fields es)
unfolding kept
kept-fields u name [] h = refl
kept-fields u name ((i, n) ∷ es) h = ground (
  arith,
  kept-fields u name es h.1,
  h.0.0,
  h.0.1,
  h.0.2,
  h.0.3,
  bytes_eq_sound (filename i) (filename u),
  bytes_eq_sound (filename i) name,
  bytes_eq_sound n (filename u),
  bytes_eq_sound n name,
)

kept_entry : (u : ℕ) (name : Bytes) → kept (filename u) name (filename u ∷ name ∷ []) ≡ []
unfolding kept
kept_entry u name = ground (arith, bytes_eq_refl (filename u), bytes_eq_refl name)

terminated-append : (ks ls : List Bytes) → terminated (ks ++ ls) ≡ terminated ks ++ terminated ls
terminated-append [] ls = refl
terminated-append (k ∷ ks) ls =
    rw (terminated-append ks ls) (sym (append_assoc (k ++ sep) (terminated ks) (terminated ls)))

terminated-join : (w : Bytes) (ws : List Bytes) → terminated (w ∷ ws) ≡ join (w ∷ ws) ++ sep
terminated-join w [] = append-nil (w ++ sep)
terminated-join w (v ∷ ws) = rw (terminated-join v ws) (simp append_assoc)

without_last-terminated : (ws : List Bytes) → without_last (terminated ws) ≡ join ws
unfolding without_last
without_last-terminated [] = refl
without_last-terminated (w ∷ ws) = rw (terminated-join w ws) (
    take-append (length (join (w ∷ ws) ++ sep) - 1) (join (w ∷ ws)) sep
      (omega (arith, length-append (join (w ∷ ws)) sep)))

-- What unlink leaves of a directory whose other entries share no piece with the removed one.
pub kept-encode :
    (u : ℕ) (name : Bytes) (es fs : Listing)
    → All (DiffersFrom u name) es
    → All (DiffersFrom u name) fs
    → without_last (kept (filename u) name (fields (es ++ (u, name) ∷ fs))) ≡ encode (es ++ fs)
unfolding encode
kept-encode u name es fs h k =
    ap without_last pieces
    ∙ ap without_last (sym (terminated-append (fields es) (fields fs)))
    ∙ without_last-terminated (fields es ++ fields fs)
    ∙ ap join (sym (fields-append es fs))
  where
    pieces :
        kept (filename u) name (fields (es ++ (u, name) ∷ fs))
        ≡ terminated (fields es) ++ terminated (fields fs)
    pieces =
        rw
          (
            fields-append es ((u, name) ∷ fs),
            kept-append (filename u) name (fields es) (filename u ∷ name ∷ fields fs),
            kept-append (filename u) name (filename u ∷ name ∷ []) (fields fs),
            kept_entry u name,
            kept-fields u name es h,
            kept-fields u name fs k,
          )
          refl
