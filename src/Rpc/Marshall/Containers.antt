-- ===== src/Rpc/Marshall/Containers.antt =====
-- The templates of rpc/marshall.h that marshall and unmarshall std::vector and std::map, over those
-- of their elements. The keys of a map are numbers.
pub mod RoundTrip
use cse_yet_another_file_sys.Base.{
  ℕ, zero, suc, ◌+◌, ◌*◌, ◌/◌, ◌%◌, ◌-◌, ◌^◌, Option, none, some, List, [], ◌∷◌, ◌++◌, Map, insert,
  length, Bytes,
}
use cse_yet_another_file_sys.Rpc.Marshall.{
  Marshall, put_u32, put_u64, put_string, Unmarshall, get_u32, get_u64, get_string,
}

-- operator<< and operator>> of a type; reading gives `none` where it is undefined.
pub record Codec {ℓ} (A : Type ℓ) : Type ℓ where
  pub put : Marshall → A → Marshall
  pub get : Unmarshall → Option (A × Unmarshall)

module _ {ℓ} {A : Type ℓ} (c : Codec A) where
  unfoldable pub put_each : Marshall → List A → Marshall
  put_each m [] = m
  put_each m (x ∷ xs) = put_each (c.put m x) xs

  -- The loop that reads n elements and adds each to what it has. It goes on where the bytes are at
  -- an end.
  unfoldable pub get_each :
      {S : Type ℓ} → (S → A → S) → ℕ → S → Unmarshall → Option (S × Unmarshall)
  get_each add zero s u = some (s, u)
  get_each add (suc n) s u = elim (c.get u) [
    | none ↦ none
    | some (z, u1) ↦ get_each add n (add s z) u1
  ]

  -- The size goes as an unsigned int; for 2 ^ 32 elements the loop of the code does not end.
  unfoldable pub put_sized : ℕ → Marshall → List A → Marshall
  unfolding put_each
  put_sized header m xs = put_each (put_u32 header m (length xs % 2 ^ 32)) xs

  unfoldable pub get_sized : {S : Type ℓ} → (S → A → S) → S → Unmarshall → Option (S × Unmarshall)
  unfolding get_each
  get_sized add s u = let (n, u1) = get_u32 u in get_each add n s u1

abbrev pub push_back {ℓ} : {A : Type ℓ} → List A → A → List A
push_back v z = v ++ z ∷ []

abbrev pub vector {ℓ} : {A : Type ℓ} → ℕ → Codec A → Codec (List A)
vector header c = record { put = put_sized c header; get = get_sized c push_back [] }

abbrev both {ℓ} : {A B : Type ℓ} → A → Option (B × Unmarshall) → Option ((A × B) × Unmarshall)
both a none = none
both a (some (b, u)) = some ((a, b), u)

abbrev then_get {ℓ} :
    {A B : Type ℓ} → Codec B → Option (A × Unmarshall) → Option ((A × B) × Unmarshall)
then_get d none = none
then_get d (some (a, u)) = both a (d.get u)

-- A key and its value, in this order.
abbrev pub entry : {V : Type 0} → Codec ℕ → Codec V → Codec (ℕ × V)
entry k c = record { put = λ m e. c.put (k.put m e.0) e.1; get = λ u. then_get c (k.get u) }

-- d[a] = b
abbrev pub set_at : {V : Type 0} → Map V → ℕ × V → Map V
set_at d (a, b) = insert a b d

abbrev pub map_of : {V : Type 0} → ℕ → Codec ℕ → Codec V → Codec (Map V)
map_of header k c = record {
  put = put_sized (entry k c) header;
  get = get_sized (entry k c) set_at [];
}

-- Two codecs that are not templates: unsigned long long, and std::string, which stays empty where it
-- cannot be read.
abbrev pub long_codec : ℕ → Codec ℕ
long_codec header = record { put = put_u64 header; get = λ u. some (get_u64 u) }

abbrev pub read_string : Option (Option Bytes × Unmarshall) → Option (Bytes × Unmarshall)
read_string none = none
read_string (some (none, u)) = some ([], u)
read_string (some (some s, u)) = some (s, u)

abbrev pub string_codec : ℕ → Codec Bytes
string_codec header = record { put = put_string header; get = λ u. read_string (get_string u) }
