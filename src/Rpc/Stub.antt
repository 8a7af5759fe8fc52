-- ===== src/Rpc/Stub.antt =====
-- The templates of rpc/rpc.h that turn a method into an RPC: rpcs::reg on the server, and rpcc::call
-- and call_m on the client, for any number of arguments. Values are those of Rpc.Marshall.Wire.
pub mod EndToEnd
use cse_yet_another_file_sys.Base.{
  ℕ, ◌+◌, ◌^◌, Bool, true, false, Option, none, some, List, [], ◌∷◌, ◌++◌, Bytes, length,
  if◌then◌else◌, Map, lookup, insert,
}
use cse_yet_another_file_sys.Rpc.Marshall.{start, Unmarshall, okdone}
use cse_yet_another_file_sys.Rpc.Marshall.Wire.{Value, Kind, put, get, at}
use cse_yet_another_file_sys.Rpc.Marshall.RoundTrip.{put_all, get_all}
use cse_yet_another_file_sys.Rpc.Marshall.Header.{ReqHeader, pack_req_header, message}
use cse_yet_another_file_sys.Rpc.Dispatch.{Rpcs, reg1, unmarshal_args_failure, is_negative}

-- The kinds of a method's arguments, and what it does: its return value, its result and the new
-- state of the object.
pub record Service (W : Type 0) : Type 0 where
  pub kinds : List Kind
  pub meth : List Value → W → ℕ × Value × W

-- `overrun` is what a handler does when reading its arguments is undefined behaviour.
module _ {W : Type 0} (header : ℕ) (overrun : Unmarshall → W → ℕ × Bytes × W) where
  abbrev pub replied : ℕ × Value × W → ℕ × Bytes × W
  replied (b, r, w) = (b, (put header start r).content, w)

  -- The method is called if the arguments were all read, and nothing was left.
  abbrev pub on_args : Service W → Unmarshall → W → Option (List Value × Unmarshall) → ℕ × Bytes × W
  on_args sv args w none = overrun args w
  on_args sv args w (some (vs, u)) =
      if okdone u then replied (sv.meth vs w) else (unmarshal_args_failure, [], w)

  -- h1::fn: the return value and the content of the reply.
  unfoldable pub fn : Service W → Unmarshall → W → ℕ × Bytes × W
  fn sv args w = on_args sv args w (get_all sv.kinds args)

  abbrev pub fn_in : Option (Service W) → Unmarshall → W → ℕ × Bytes × W
  fn_in none args w = overrun args w
  fn_in (some sv) args w = fn sv args w

  -- The handler of that number, among those that were registered.
  unfoldable pub fn_of : Map (Service W) → ℕ → Unmarshall → W → ℕ × Bytes × W
  fn_of services f args w = fn_in (lookup f services) args w

-- A handler has the number of its procedure. `none` if there is one already.
unfoldable pub reg :
    {W : Type 0} → ℕ → Service W → Rpcs × Map (Service W) → Option (Rpcs × Map (Service W))
unfolding reg1
reg proc sv (s, services) = elim (reg1 proc proc s) [
  | none ↦ none
  | some s1 ↦ some (s1, insert proc sv services)
]

-- The message of a call: the header, which call1 packs, and the arguments. `pad` is the rest of
-- RPC_HEADER_SZ behind it.
unfoldable pub call_request : Bytes → Bytes → ReqHeader → List Value → Bytes
call_request front pad h args =
    let header = length front + 20 + length pad in
    message front pad (put_all header start args).content header (pack_req_header h)

abbrev pub read_reply : ℕ → Option (Value × Unmarshall) → Option (ℕ × Option Value)
read_reply intret none = none
read_reply intret (some (r, u)) = if okdone u then some (intret, some r) else none

-- call_m, when call1 has returned `intret` and the content of the reply: the return value, and the
-- result if it is read. `none` if a VERIFY fails, or reading is undefined.
unfoldable pub call_m : ℕ → Kind → ℕ → Bytes → Option (ℕ × Option Value)
call_m header k intret content =
    if is_negative intret
    then some (intret, none)
    else read_reply intret (get k (at header content))
