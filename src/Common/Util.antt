-- ===== src/Common/Util.antt =====
-- The small helpers of pkg/common/util.go: `MustS`, `GetCode`, `IsGrpcErr` and `GetCaptureGroups`.
use datera_csi.Base.{
  String, ◌≡◌, Bool, true, false, not, Option, none, some, List, [], ◌∷◌, str_eq, if◌then◌else◌,
  ◌||◌, arith,
}
use datera_csi.Base.Dict.{Dict, insert}
use datera_csi.Base.Go.{Code, unknown, Error, plain, status, Result, ok, panic}
use datera_csi.Common.Errors.{ApiError, err_translator}

unfoldable pub must_s : String → Option Error → Result String
must_s s none = ok s
must_s s (some e) = panic

-- `GetCode`: an error without a code counts as unknown. `none` is `codes.OK`, that of no error.
unfoldable pub get_code : Option Error → Option Code
get_code none = none
get_code (some (plain _)) = some unknown
get_code (some (status c _)) = some c

is_unknown : Option Code → Bool
is_unknown (some unknown) = true
is_unknown _ = false

-- `IsGrpcErr`
unfoldable pub is_grpc_err : Option Error → Bool
unfolding get_code is_unknown
is_grpc_err e = not (is_unknown (get_code e))

-- The loop over the names of the groups, past the first, beside the text that each matched.
groups : List String → List String → Dict String → Result (Dict String)
groups [] _ acc = ok acc
groups (name ∷ names) [] acc =
    let rest = groups names [] acc in if str_eq name "" then rest else panic
groups (name ∷ names) (m ∷ ms) acc =
    groups names ms (if str_eq name "" then acc else insert name m acc)

past_first : List String → List String → Result (Dict String)
unfolding groups
past_first [] _ = ok []
past_first (_ ∷ names) [] = ok []
past_first (_ ∷ names) (_ ∷ ms) = groups names ms []

-- `GetCaptureGroups`, on `r.SubexpNames()` and `r.FindStringSubmatch(matchString)`: no match is an
-- empty list.
unfoldable pub get_capture_groups : List String → List String → Result (Dict String)
unfolding past_first
get_capture_groups names [] = ok []
get_capture_groups names (m ∷ ms) = past_first names (m ∷ ms)

-- An error of the backend counts as one with a code exactly if it is of the two kinds that are
-- translated.
pub is_grpc_err-err_translator :
    (e : ApiError)
    → is_grpc_err (some (err_translator e))
      ≡ (str_eq e.name "AuthFailedError" || str_eq e.name "NotFound")
unfolding is_grpc_err err_translator
is_grpc_err-err_translator e = ground arith
