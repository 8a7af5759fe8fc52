-- ===== src/Handles/Entries.antt =====
-- The objects of handle_mgr (handle.cc) under a change of one of them, and the handles counted.
use mathlib.Core.Path.{subst}
use cse_yet_another_file_sys.Base.{
  ℕ, zero, suc, ◌≡◌, ◌≢◌, refl, sym, ap, ◌∙◌, inl, inr, none, some, List, [], ◌∷◌, ◌==◌, ==_iff,
  if◌then◌else◌, Map, lookup, insert, erase, lookup-insert, lookup-erase, All, arith, Bool-cases,
  Option-cases,
}
use cse_yet_another_file_sys.Handles.{Hinfo, Handle, pick}

-- The number of handles of a name.
abbrev pub named : ℕ → List Handle → ℕ
named m [] = 0
named m ((j, id) ∷ xs) = if j == m then suc (named m xs) else named m xs

abbrev pub PointsAt : Map Hinfo → Handle → Type 0
PointsAt hmap (m, id) = (h : Hinfo) × (lookup m hmap ≡ some h) × (h.id ≡ id)

unfoldable pub AllCounted : Map Hinfo → List Handle → Type 0
AllCounted hmap xs = (m : ℕ) (h : Hinfo) → lookup m hmap ≡ some h → h.refcnt ≡ named m xs

pub record IsCounted (hmap : Map Hinfo) (xs : List Handle) : Type 0 where
  pub valid : All (PointsAt hmap) xs
  pub counts : AllCounted hmap xs

pub named-none :
    (m : ℕ) (hmap : Map Hinfo) (xs : List Handle)
    → All (PointsAt hmap) xs
    → lookup m hmap ≡ none
    → named m xs ≡ 0
named-none m hmap [] v e = refl
named-none m hmap ((j, id) ∷ xs) v e = elim (Bool-cases (j == m)) [
  | inl same ↦ let here : lookup m hmap ≡ some v.0.0 = rw ((==_iff j m).0 same) at v.0.1 in cc
  | inr other ↦ rw other (named-none m hmap xs v.1 e)
]

pub insert-other :
    (m j : ℕ) (h : Hinfo) (hmap : Map Hinfo) → m ≢ j → lookup j (insert m h hmap) ≡ lookup j hmap
insert-other m j h hmap n = ground (arith, lookup-insert m j h hmap)

pub insert-here : (m : ℕ) (h : Hinfo) (hmap : Map Hinfo) → lookup m (insert m h hmap) ≡ some h
insert-here m h hmap = ground (arith, lookup-insert m m h hmap)

pub fresh-valid :
    (m : ℕ) (hmap hmap' : Map Hinfo) (xs : List Handle)
    → ((j : ℕ) → m ≢ j → lookup j hmap' ≡ lookup j hmap)
    → named m xs ≡ 0
    → All (PointsAt hmap) xs
    → All (PointsAt hmap') xs
fresh-valid m hmap hmap' [] same z v = tt
fresh-valid m hmap hmap' ((j, id) ∷ xs) same z v = elim (Bool-cases (j == m)) [
  | inl here ↦ let more : suc (named m xs) ≡ 0 = rw here at z in absurd (omega (arith, more))
  | inr other ↦
      let n : m ≢ j = ground arith in
      ((v.0.0, same j n ∙ v.0.1, v.0.2), fresh-valid m hmap hmap' xs same (rw other at z) v.1)
]

pub replaced-valid :
    (m : ℕ) (h h' : Hinfo) (hmap : Map Hinfo) (xs : List Handle)
    → lookup m hmap ≡ some h
    → h'.id ≡ h.id
    → All (PointsAt hmap) xs
    → All (PointsAt (insert m h' hmap)) xs
replaced-valid m h h' hmap [] e i v = tt
replaced-valid m h h' hmap ((j, id) ∷ xs) e i v = (one, replaced-valid m h h' hmap xs e i v.1)
  where
    one : PointsAt (insert m h' hmap) (j, id)
    one = elim (Bool-cases (m == j)) [
      | inl same ↦
          let eq = (==_iff m j).0 same in
          let there : lookup m hmap ≡ some v.0.0 = rw (sym eq) at v.0.1 in
          let is_h : v.0.0 ≡ h = cc in
          (
            h',
            subst (λ t. lookup t (insert m h' hmap) ≡ some h') eq (insert-here m h' hmap),
            i ∙ ap (λ (g : Hinfo). g.id) (sym is_h) ∙ v.0.2,
          )
      | inr other ↦
          let n : m ≢ j = ground arith in (v.0.0, insert-other m j h' hmap n ∙ v.0.1, v.0.2)
    ]

pub insert-counts :
    (m : ℕ) (h' : Hinfo) (hmap : Map Hinfo) (xs xs' : List Handle)
    → h'.refcnt ≡ named m xs'
    → ((j : ℕ) → m ≢ j → named j xs ≡ named j xs')
    → AllCounted hmap xs
    → AllCounted (insert m h' hmap) xs'
unfolding AllCounted
insert-counts m h' hmap xs xs' r same c j g e = elim (Bool-cases (m == j)) [
  | inl here ↦
      let eq = (==_iff m j).0 here in
      let is_h : some h' ≡ some g =
        sym (insert-here m h' hmap)
        ∙ subst (λ t. lookup t (insert m h' hmap) ≡ some g) (sym eq) e in
      let is_g : g ≡ h' = cc in ap (λ (g : Hinfo). g.refcnt) is_g ∙ r ∙ ap (λ t. named t xs') eq
  | inr other ↦
      let n : m ≢ j = ground arith in c j g (sym (insert-other m j h' hmap n) ∙ e) ∙ same j n
]

erase-other : (m j : ℕ) (hmap : Map Hinfo) → m ≢ j → lookup j (erase m hmap) ≡ lookup j hmap
erase-other m j hmap n = ground (arith, lookup-erase m j hmap)

-- The object of a name without handles goes.
pub erase-IsCounted :
    (m : ℕ) (hmap : Map Hinfo) (xs : List Handle)
    → named m xs ≡ 0
    → All (PointsAt hmap) xs
    → ((j : ℕ) (g : Hinfo) → m ≢ j → lookup j hmap ≡ some g → g.refcnt ≡ named j xs)
    → IsCounted (erase m hmap) xs
unfolding AllCounted
erase-IsCounted m hmap xs z v c = record {
  valid = fresh-valid m hmap (erase m hmap) xs (λ j n. erase-other m j hmap n) z v;
  counts = λ j g e. elim (Bool-cases (m == j)) [
    | inl here ↦
        let gone : lookup j (erase m hmap) ≡ none = ground (arith, here, lookup-erase m j hmap) in
        cc
    | inr other ↦ let n : m ≢ j = ground arith in c j g n (sym (erase-other m j hmap n) ∙ e)
  ];
}

pub record IsPicked (xs : List Handle) (m id : ℕ) (rest : List Handle) : Type 0 where
  pub one_less : named m xs ≡ suc (named m rest)
  pub others : (j : ℕ) → m ≢ j → named j xs ≡ named j rest

pub pick-IsPicked :
    (k : ℕ) (xs : List Handle) (m id : ℕ) (rest : List Handle)
    → pick k xs ≡ some ((m, id), rest)
    → IsPicked xs m id rest
unfolding pick
pick-IsPicked k [] m id rest e = cc
pick-IsPicked zero ((a, b) ∷ xs) m id rest e =
    let is_m : a ≡ m = cc in
    let is_rest : rest ≡ xs = cc in
    rw is_rest (record { one_less = ground (arith, is_m); others = λ j n. ground (arith, is_m, n) })
pick-IsPicked (suc k) ((a, b) ∷ xs) m id rest e = elim (Option-cases (pick k xs)) [
  | inl none_there ↦ let never : none ≡ some ((m, id), rest) = rw none_there at e in cc
  | inr ((y, ys), found) ↦
      let now : some (y, (a, b) ∷ ys) ≡ some ((m, id), rest) = rw found at e in
      let is_y : y ≡ (m, id) = cc in
      let is_rest : rest ≡ (a, b) ∷ ys = cc in
      let below = pick-IsPicked k xs m id ys (found ∙ ap (λ t. some (t, ys)) is_y) in
      rw is_rest (record {
        one_less = ground (arith, below.one_less);
        others = λ j n. ground (arith, below.others j n);
      })
]

pub pick-All :
    (P : Handle → Type 0) (k : ℕ) (xs : List Handle) (x : Handle) (rest : List Handle)
    → pick k xs ≡ some (x, rest)
    → All P xs
    → P x × All P rest
unfolding pick
pick-All P k [] x rest e h = cc
pick-All P zero (a ∷ xs) x rest e h =
    let is_x : x ≡ a = cc in let is_rest : rest ≡ xs = cc in rw (is_x, is_rest) h
pick-All P (suc k) (a ∷ xs) x rest e h = elim (Option-cases (pick k xs)) [
  | inl none_there ↦ let never : none ≡ some (x, rest) = rw none_there at e in cc
  | inr ((y, ys), found) ↦
      let now : some (y, a ∷ ys) ≡ some (x, rest) = rw found at e in
      let is_y : x ≡ y = cc in
      let is_rest : rest ≡ a ∷ ys = cc in
      let (one, more) = pick-All P k xs y ys found h.1 in rw (is_y, is_rest) (one, (h.0, more))
]
