-- ===== src/Driver/Env.antt =====
-- What the driver takes from its environment: settings, the runtime, and libraries that are not part
-- of the repository. `status_text` is the text of a gRPC status error; `float_timestamp` is the chain
-- of `strconv.ParseFloat`, `math.Modf`, `time.Unix` and `ptypes.TimestampProto` on a snapshot's id.
use datera_csi.Base.{String, ℕ, Bool, List}
use datera_csi.Base.Int.{ℤ}
use datera_csi.Base.Go.{Code, Error, plain, status, Result}
use datera_csi.Client.Volume.{Volume}

pub record Env : Type 0 where
  pub uuid5 : String → String
  pub rune_cap : ℕ → ℕ
  pub fresh_id : String
  pub status_text : Code → String → String
  pub float_timestamp : String → Result ℕ
  pub schedule : List Volume → List Volume
  pub replica_override : Bool
  pub metadata_debug : Bool
  pub disable_multipath : Bool
  pub format_timeout : ℤ
  pub vol_per_node : ℤ
  pub nid : String

-- `err.Error()`
abbrev pub error_text : Env → Error → String
error_text env (plain s) = s
error_text env (status c s) = env.status_text c s

-- `status.Errorf(c, err.Error())`. A per cent sign in the text is taken to stand for itself.
abbrev pub as_code : Env → Code → Error → Error
as_code env c e = status c (error_text env e)
