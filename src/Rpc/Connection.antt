-- ===== src/Rpc/Connection.antt =====
-- connection (rpc/connection.h and rpc/connection.cc): what never changes of one, and the order of
-- two by the time of their creation.
use cse_yet_another_file_sys.Base.{ℕ, ltb, if◌then◌else◌}

-- `fd` stands for the object itself, and create_time_ is a struct timeval.
pub record Connection : Type 0 where
  pub fd : ℕ
  pub tv_sec : ℕ
  pub tv_usec : ℕ

-- The results 1, -1 and 0 of compare.
pub data Compared : Type 0 where
  younger older same_age : Compared

unfoldable pub compare : Connection → Connection → Compared
compare c another =
    if ltb another.tv_sec c.tv_sec
    then younger
    else if ltb c.tv_sec another.tv_sec
    then older
    else if ltb another.tv_usec c.tv_usec
    then younger
    else if ltb c.tv_usec another.tv_usec
    then older
    else same_age
