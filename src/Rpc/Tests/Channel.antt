-- ===== src/Rpc/Tests/Channel.antt =====
-- Calls of an RPC client whose connection dies.
use cse_yet_another_file_sys.Base.{◌≡◌, true, false, some, List, [], ◌∷◌}
use cse_yet_another_file_sys.Rpc.Channel.{
  Channel, unconnected, Act, first, again, ends, dies, act_all,
}
use cse_yet_another_file_sys.Rpc.Channel.Counted.{IsCounted, act_all_counts}

-- Two calls share a connection; it dies, one connects again and the other ends; then no connection can
-- be made.
abbrev acts : List Act
acts = first true ∷ first true ∷ dies 0 ∷ again true 0 ∷ ends 1 ∷ dies 1 ∷ first false ∷ ends 0 ∷ []

act_all_counts_example : (s : Channel) × (act_all acts (some unconnected) ≡ some s) × IsCounted s
act_all_counts_example = act_all_counts acts
