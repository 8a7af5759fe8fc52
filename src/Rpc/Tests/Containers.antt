-- ===== src/Rpc/Tests/Containers.antt =====
-- A map of vectors of strings, as an RPC passes it.
use cse_yet_another_file_sys.Base.{
  ◌≡◌, ◌<◌, ◌^◌, true, false, some, List, [], ◌∷◌, Bytes, Map, length, arith,
}
use cse_yet_another_file_sys.Rpc.Marshall.{start, Unmarshall, okdone}
use cse_yet_another_file_sys.Rpc.Marshall.Wire.{at, bytes_of, u64, text}
use cse_yet_another_file_sys.Rpc.Marshall.Containers.{vector, map_of, long_codec, string_codec}
use cse_yet_another_file_sys.Rpc.Marshall.Containers.RoundTrip.{
  long_codec-IsFaithful, string_codec-IsFaithful, get_map-put_map,
}

abbrev names : Map (List Bytes)
names = (3, (104 ∷ 105 ∷ []) ∷ [] ∷ []) ∷ (7, []) ∷ (2 ^ 40, (97 ∷ []) ∷ []) ∷ []

get_map-put_map_example :
    let m = map_of 32 (long_codec 32) (vector 32 (string_codec 32)) in
    ((m.put start names).overflowed ≡ false)
    × (u : Unmarshall) × (m.get (at 32 (m.put start names).content) ≡ some (names, u))
    × (okdone u ≡ true)
get_map-put_map_example =
    get_map-put_map (long_codec 32) (λ x. x < 2 ^ 64) (λ x. bytes_of (u64 x)) (string_codec 32)
      (λ s. length s < 2 ^ 32) (λ s. bytes_of (text s)) 32 names (long_codec-IsFaithful 32)
      (string_codec-IsFaithful 32) ((omega arith, (omega arith, tt)), ((omega arith, tt), (tt, tt)))
      (omega arith)
      (
        (omega arith, (omega arith, (omega arith, (omega arith, tt)))),
        ((omega arith, (omega arith, tt)), ((omega arith, (omega arith, (omega arith, tt))), tt)),
      )
      (omega arith)
