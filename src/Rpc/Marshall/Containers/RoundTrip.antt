-- ===== src/Rpc/Marshall/Containers/RoundTrip.antt =====
-- Vectors and maps that are marshalled and unmarshalled.
use mathlib.Core.List.{append_assoc, append-nil}
use cse_yet_another_file_sys.Base.{
  ℕ, ◌+◌, ◌%◌, ◌^◌, ◌≡◌, ◌<◌, refl, sym, ap, ◌∙◌, true, false, ◌≤◌, some, List, [], ◌∷◌, ◌++◌,
  Bytes, Map, insert, length, length-append, All, All-append, arith,
}
use cse_yet_another_file_sys.Rpc.Marshall.{Marshall, start, put_u32, Unmarshall, okdone}
use cse_yet_another_file_sys.Rpc.Marshall.Wire.{
  u32, u64, text, bytes_of, long-read, text-read, put, content-put, HasFree, HasFree-same,
  u32-HasFree, put-HasFree, four, at, get_u32-four,
}
use cse_yet_another_file_sys.Rpc.Marshall.RoundTrip.{start-HasFree}
use cse_yet_another_file_sys.Rpc.Marshall.Containers.{
  Codec, put_each, get_each, put_sized, get_sized, push_back, vector, long_codec, string_codec,
  read_string, entry, set_at, map_of,
}

-- A codec writes `bytes` behind what is there, where they do not make the buffer overflow, and reads
-- them back, for good values.
pub record IsFaithful {ℓ} {A : Type ℓ} (header : ℕ) (c : Codec A) (Good : A → Type 0)
    (bytes : A → Bytes) : Type ℓ where
  pub writes :
      (m : Marshall) (a : A) (n : ℕ)
      → HasFree header m (length (bytes a) + n)
      → ((c.put m a).content ≡ m.content ++ bytes a) × HasFree header (c.put m a) n
  pub reads :
      (i : ℕ) (a : A) (rest : Bytes)
      → Good a
      → c.get (at i (bytes a ++ rest)) ≡ some (a, at (i + length (bytes a)) rest)

abbrev pub flat {ℓ} : {A : Type ℓ} → (A → Bytes) → List A → Bytes
flat bytes [] = []
flat bytes (x ∷ xs) = bytes x ++ flat bytes xs

abbrev pub sized_bytes {ℓ} : {A : Type ℓ} → (A → Bytes) → List A → Bytes
sized_bytes bytes xs = four (length xs % 2 ^ 32) ++ flat bytes xs

abbrev pub added {ℓ} : {A S : Type ℓ} → (S → A → S) → S → List A → S
added add s [] = s
added add s (x ∷ xs) = added add (add s x) xs

module _ {ℓ} {A : Type ℓ} (header : ℕ) (c : Codec A) (Good : A → Type 0) (bytes : A → Bytes)
    (f : IsFaithful header c Good bytes) where
  put_each-content :
      (m : Marshall) (xs : List A) (n : ℕ)
      → HasFree header m (length (flat bytes xs) + n)
      → ((put_each c m xs).content ≡ m.content ++ flat bytes xs)
        × HasFree header (put_each c m xs) n
  unfolding put_each
  put_each-content m [] n h =
      (rw (append-nil m.content) refl, HasFree-same header m _ n (omega arith) h)
  put_each-content m (x ∷ xs) n h =
      let e : length (flat bytes (x ∷ xs)) + n ≡ length (bytes x) + (length (flat bytes xs) + n) =
        omega (arith, length-append (bytes x) (flat bytes xs)) in
      let (one, free) = f.writes m x _ (HasFree-same header m _ _ e h) in
      let (others, left) = put_each-content (c.put m x) xs n free in
      (rw (others, one, append_assoc) refl, left)

  pub put_sized-content :
      (m : Marshall) (xs : List A) (n : ℕ)
      → HasFree header m (length (sized_bytes bytes xs) + n)
      → ((put_sized c header m xs).content ≡ m.content ++ sized_bytes bytes xs)
        × HasFree header (put_sized c header m xs) n
  unfolding put_sized
  put_sized-content m xs n h =
      let size : (put_u32 header m (length xs % 2 ^ 32)).content
          ≡ m.content ++ four (length xs % 2 ^ 32) =
        unfold put in content-put header m (u32 (length xs % 2 ^ 32)) in
      let e : length (sized_bytes bytes xs) + n ≡ 4 + (length (flat bytes xs) + n) = omega arith in
      let free = u32-HasFree header m (length xs % 2 ^ 32) _ (HasFree-same header m _ _ e h) in
      let (others, left) = put_each-content (put_u32 header m (length xs % 2 ^ 32)) xs n free in
      (rw (others, size, append_assoc) refl, left)

  get_each-flat :
      {S : Type ℓ} (add : S → A → S) (xs : List A) (s : S) (i : ℕ) (rest : Bytes)
      → All Good xs
      → get_each c add (length xs) s (at i (flat bytes xs ++ rest))
        ≡ some (added add s xs, at (i + length (flat bytes xs)) rest)
  unfolding get_each
  get_each-flat add [] s i rest h = let same : i + 0 ≡ i = omega arith in rw same refl
  get_each-flat add (x ∷ xs) s i rest h =
      let there : i + length (bytes x) + length (flat bytes xs)
          ≡ i + length (bytes x ++ flat bytes xs) =
        ground (arith, length-append (bytes x) (flat bytes xs)) in
      rw
        (
          append_assoc,
          get_each,
          f.reads i x (flat bytes xs ++ rest) h.0,
          get_each-flat add xs (add s x) (i + length (bytes x)) rest h.1,
          there,
        )
        refl

  pub get_sized-bytes :
      {S : Type ℓ} (add : S → A → S) (xs : List A) (s : S) (i : ℕ) (rest : Bytes)
      → length xs < 2 ^ 32
      → All Good xs
      → get_sized c add s (at i (sized_bytes bytes xs ++ rest))
        ≡ some (added add s xs, at (i + length (sized_bytes bytes xs)) rest)
  unfolding get_sized
  get_sized-bytes add xs s i rest small h =
      let size : length xs % 2 ^ 32 ≡ length xs = omega arith in
      let place : i + 4 + length (flat bytes xs) ≡ i + length (sized_bytes bytes xs) =
        omega arith in
      rw
        (
          size,
          get_u32-four i (length xs) (flat bytes xs ++ rest) small,
          get_each-flat add xs s (i + 4) rest h,
          place,
        )
        refl

added-push_back {ℓ} : {A : Type ℓ} (s xs : List A) → added push_back s xs ≡ s ++ xs
added-push_back s [] = sym (append-nil s)
added-push_back s (x ∷ xs) = added-push_back (push_back s x) xs ∙ append_assoc s (x ∷ []) xs

-- A map as an association list: its keys ascend.
abbrev pub IsAscending : {V : Type 0} → Map V → Type 0
IsAscending [] = Unit
IsAscending (e ∷ d) = All (λ (f : ℕ × _). e.0 < f.0) d × IsAscending d

-- The keys are below that one.
abbrev Below : {V : Type 0} → ℕ → Map V → Type 0
Below k s = All (λ (f : ℕ × _). f.0 < k) s

insert-last : {V : Type 0} (k : ℕ) (v : V) (s : Map V) → Below k s → insert k v s ≡ s ++ (k, v) ∷ []
unfolding insert
insert-last k v [] h = refl
insert-last k v ((j, w) ∷ s) h = grind (arith, insert-last k v s h.1, h.0)

Below-more :
    {V : Type 0} (k : ℕ) (v : V) (s d : Map V)
    → All (λ (e : ℕ × V). Below e.0 s) d
    → All (λ (e : ℕ × V). k < e.0) d
    → All (λ (e : ℕ × V). Below e.0 (s ++ (k, v) ∷ [])) d
Below-more k v s [] h a = tt
Below-more k v s (e ∷ d) h a = (
  All-append (λ (f : ℕ × _). f.0 < e.0) s ((k, v) ∷ []) h.0 (a.0, tt),
  Below-more k v s d h.1 a.1,
)

added-set_at :
    {V : Type 0} (s d : Map V)
    → All (λ (e : ℕ × V). Below e.0 s) d
    → IsAscending d
    → added set_at s d ≡ s ++ d
added-set_at s [] h a = sym (append-nil s)
added-set_at s ((k, v) ∷ d) h a =
    let last = insert-last k v s h.0 in
    ap (λ t. added set_at t d) last
    ∙ added-set_at (s ++ (k, v) ∷ []) d (Below-more k v s d h.1 a.0) a.1
    ∙ append_assoc s ((k, v) ∷ []) d

-- Fewer elements than an unsigned int counts, each of them good.
abbrev pub GoodList {ℓ} : {A : Type ℓ} → (A → Type 0) → List A → Type 0
GoodList Good xs = (length xs < 2 ^ 32) × All Good xs

vector-IsFaithful {ℓ} :
    {A : Type ℓ} (header : ℕ) (c : Codec A) (Good : A → Type 0) (bytes : A → Bytes)
    → IsFaithful header c Good bytes
    → IsFaithful header (vector header c) (GoodList Good) (sized_bytes bytes)
vector-IsFaithful header c Good bytes f = record {
  writes = put_sized-content header c Good bytes f;
  reads = λ i xs rest h.
      get_sized-bytes header c Good bytes f push_back xs [] i rest h.0 h.1
      ∙ ap (λ ys. some (ys, at (i + length (sized_bytes bytes xs)) rest)) (added-push_back [] xs);
}

module _ {V : Type 0} (header : ℕ) (k : Codec ℕ) (Key : ℕ → Type 0) (key_bytes : ℕ → Bytes)
    (f : IsFaithful header k Key key_bytes) (c : Codec V) (Good : V → Type 0) (bytes : V → Bytes)
    (g : IsFaithful header c Good bytes) where
  abbrev pub GoodEntry : ℕ × V → Type 0
  GoodEntry e = Key e.0 × Good e.1

  abbrev entry_bytes : ℕ × V → Bytes
  entry_bytes e = key_bytes e.0 ++ bytes e.1

  entry-IsFaithful : IsFaithful header (entry k c) GoodEntry entry_bytes
  entry-IsFaithful = record {
    writes = λ m e n h.
        let size : length (entry_bytes e) + n ≡ length (key_bytes e.0) + (length (bytes e.1) + n) =
          omega (arith, length-append (key_bytes e.0) (bytes e.1)) in
        let (key, free) = f.writes m e.0 _ (HasFree-same header m _ _ size h) in
        let (value, left) = g.writes (k.put m e.0) e.1 n free in
        (rw (value, key, append_assoc) refl, left);
    reads = λ i e rest h.
        let there : i + length (key_bytes e.0) + length (bytes e.1) ≡ i + length (entry_bytes e) =
          ground (arith, length-append (key_bytes e.0) (bytes e.1)) in
        rw
          (
            append_assoc,
            f.reads i e.0 (bytes e.1 ++ rest) h.0,
            g.reads (i + length (key_bytes e.0)) e.1 rest h.1,
            there,
          )
          refl;
  }

  pub map_of-IsFaithful :
      IsFaithful header
        (map_of header k c)
        (λ d. IsAscending d × GoodList GoodEntry d)
        (sized_bytes entry_bytes)
  map_of-IsFaithful = record {
    writes = put_sized-content header (entry k c) GoodEntry entry_bytes entry-IsFaithful;
    reads = λ i d rest h.
        get_sized-bytes header (entry k c) GoodEntry entry_bytes entry-IsFaithful set_at d [] i rest
          h.1.0 h.1.1
        ∙ ap (λ t. some (t, at (i + length (sized_bytes entry_bytes d)) rest))
            (added-set_at [] d (all_below d) h.0);
  }
    where
      all_below : (d : Map V) → All (λ (e : ℕ × V). Below {V = V} e.0 []) d
      all_below [] = tt
      all_below (e ∷ d) = (tt, all_below d)

pub long_codec-IsFaithful :
    (header : ℕ) → IsFaithful header (long_codec header) (λ x. x < 2 ^ 64) (λ x. bytes_of (u64 x))
long_codec-IsFaithful header = record {
  writes = λ m x n h.
      (unfold put in content-put header m (u64 x), unfold put in put-HasFree header m (u64 x) n h);
  reads = λ i x rest h. ap some (long-read i x rest h);
}

pub string_codec-IsFaithful :
    (header : ℕ)
    → IsFaithful header (string_codec header) (λ s. length s < 2 ^ 32) (λ s. bytes_of (text s))
string_codec-IsFaithful header = record {
  writes = λ m s n h. (
    unfold put in content-put header m (text s),
    unfold put in put-HasFree header m (text s) n h,
  );
  reads = λ i s rest h. ap read_string (text-read i s rest h);
}

okdone-at : (j : ℕ) → okdone (at j []) ≡ true
unfolding okdone
okdone-at j = refl

get-put {ℓ} :
    {A : Type ℓ} {c : Codec A} {Good : A → Type 0} {bytes : A → Bytes} {header : ℕ}
    (f : IsFaithful header c Good bytes) (a : A)
    → Good a
    → header + length (bytes a) ≤ 2 ^ 29
    → ((c.put start a).overflowed ≡ false)
      × (u : Unmarshall) × (c.get (at header (c.put start a).content) ≡ some (a, u))
      × (okdone u ≡ true)
get-put {c = c} {bytes = bytes} {header = header} f a h small =
    let (written, free) = f.writes start a 0 (start-HasFree header _ (omega arith)) in
    (
      free.safe,
      at (header + length (bytes a)) [],
      ap (λ r. c.get (at header r)) (written ∙ sym (append-nil (bytes a))) ∙ f.reads header a [] h,
      okdone-at (header + length (bytes a)),
    )

-- The bytes of a map of vectors.
abbrev pub map_bytes : {A : Type 0} → (ℕ → Bytes) → (A → Bytes) → Map (List A) → Bytes
map_bytes key_bytes bytes d = sized_bytes (λ e. key_bytes e.0 ++ sized_bytes bytes e.1) d

-- A map of vectors that is marshalled behind a header and unmarshalled is the same map, with its keys
-- in their order, and all bytes are read: if the operators of its keys and of the elements of its
-- vectors write some bytes, where they do not make the buffer overflow, and read them back, the map
-- and each vector have fewer than 2 ^ 32 elements, and the header and the bytes of the map are half a
-- gigabyte at most, so that no int of the buffer overflows.
pub get_map-put_map :
    {A : Type 0} (k : Codec ℕ) (Key : ℕ → Type 0) (key_bytes : ℕ → Bytes) (c : Codec A)
    (Good : A → Type 0) (bytes : A → Bytes) (header : ℕ) (d : Map (List A))
    → IsFaithful header k Key key_bytes
    → IsFaithful header c Good bytes
    → IsAscending d
    → length d < 2 ^ 32
    → All (λ (e : ℕ × List A). Key e.0 × GoodList Good e.1) d
    → header + length (map_bytes key_bytes bytes d) ≤ 2 ^ 29
    → let m = map_of header k (vector header c) in
      ((m.put start d).overflowed ≡ false)
      × (u : Unmarshall) × (m.get (at header (m.put start d).content) ≡ some (d, u))
      × (okdone u ≡ true)
get_map-put_map k Key key_bytes c Good bytes header d f g a small h little =
    let v = vector-IsFaithful header c Good bytes g in
    get-put
      (map_of-IsFaithful header k Key key_bytes f (vector header c) (GoodList Good)
        (sized_bytes bytes) v)
      d (a, (small, h)) little
