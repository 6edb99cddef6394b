-- ===== src/Common/Errors.antt =====
-- `ErrTranslator` of pkg/common/util.go, and the answers of the Datera SDK.
use datera_csi.Base.{String, ◌<>◌, ℕ, Option, str_eq, if◌then◌else◌}
use datera_csi.Base.Go.{Error, status, unauthenticated, not_found, unknown}

-- The fields of `dsdk.ApiErrorResponse` that the program reads.
pub record ApiError : Type 0 where
  pub name : String
  pub code : ℕ
  pub message : String

unfoldable pub err_translator : ApiError → Error
err_translator e =
    if str_eq e.name "AuthFailedError"
    then status unauthenticated (e.name <> (": " <> e.message))
    else if str_eq e.name "NotFound"
    then status not_found (e.name <> (": " <> e.message))
    else status unknown (e.name <> (": " <> e.message))

-- The three values that every call of the SDK returns; a nil pointer is `none`.
pub record Reply {ℓ} (A : Type ℓ) : Type ℓ where
  pub value : Option A
  pub api_error : Option ApiError
  pub failure : Option Error
