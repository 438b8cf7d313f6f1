-- ===== src/Grpc.antt =====
-- What walletGRPC/ and nodeGRPC/ use of google.golang.org/grpc, and the loop that both drain a stream with.
pub mod Stream
use go_tari_lib.Common.{ℕ, Option, some, none, List}
use go_tari_lib.Common.Result.{Result, ok, err}

-- The errors of a call, as `status.FromError` tells them apart: the clean end of a stream, an error that is
-- no status, and a status with its code.
pub data CallError : Type 0 where
  eof : CallError
  no_status : List ℕ → CallError
  status : ℕ → List ℕ → CallError

-- The code in the status that `status.FromError` finds.
abbrev pub from_error : CallError → Option ℕ
from_error eof = none
from_error (no_status m) = none
from_error (status code m) = some code

abbrev pub canceled : ℕ
canceled = 1

abbrev pub invalid_argument : ℕ
invalid_argument = 3

abbrev pub deadline_exceeded : ℕ
deadline_exceeded = 4

abbrev pub unavailable : ℕ
unavailable = 14

-- A message that this code hands on and does not look into, as it is on the wire. A pointer that may be nil
-- is an option.
abbrev pub Message : Type 0
Message = List ℕ

-- `grpc.DialOption`
pub data DialOption : Type 0 where
  insecure_credentials : DialOption
  other_option : List ℕ → DialOption

-- `grpc.NewClient`: a connection, nil beside an error; `Conn` is the type of the pointers.
pub record Dialer (Conn : Type 0) : Type 0 where
  pub new_client : List ℕ → List DialOption → Conn × Option CallError
