-- ===== src/Rpc/Status.antt =====
-- What an RPC call of the file system's clients returns: OK, or a status that is not OK. Of the
-- latter, the first three are those of extent_protocol::xxstatus, and the others the constants of
-- rpc_const in rpc/rpc.h.
use cse_yet_another_file_sys.Base.{ℕ, ◌%◌, ◌^◌}

pub data Failure : Type 0 where
  rpcerr noent ioerr : Failure
  timeout_failure unmarshal_args_failure unmarshal_reply_failure atmostonce_failure : Failure
  oldsrv_failure bind_failure cancel_failure : Failure

pub data Result (A : Type 0) : Type 0 where
  ok : A → Result A
  err : Failure → Result A

-- A value of type `unsigned int`.
abbrev pub u32 : ℕ → ℕ
u32 n = n % 2 ^ 32
