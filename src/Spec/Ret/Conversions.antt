-- ===== src/Spec/Ret/Conversions.antt =====
-- `SbiRet` and `Result<usize, Error>` carry the same information.
use rustsbi.Base.{ℕ, ◌<◌, ◌≡◌, refl, ◌≢◌, ◌⊎◌, arith}
use rustsbi.Spec.Ret.{
  SbiRet, Error, Result, ok, err, custom, negative, success, from_error, to_error, into_result,
  failed,
}

-- `SbiRet` of a result: `success` of a value, `From` of an error.
abbrev pub from_result : Result ℕ → SbiRet
from_result (ok v) = success v
from_result (err e) = from_error e

error-from_error-to_error : (c : ℕ) → (from_error (to_error c)).error ≡ c
unfolding from_error to_error
error-from_error-to_error c = ground arith

value-from_error : (e : Error) → (from_error e).value ≡ 0
unfolding from_error
value-from_error failed = refl
value-from_error _ = refl

-- A standard error, or a custom code that neither is success nor names a standard error.
abbrev pub IsCanonical : Error → Type 0
IsCanonical (custom c) = (c ≢ 0) × (c < negative 14)
IsCanonical _ = Unit

-- A return value whose value field is 0 when it carries an error survives the trip through
-- `into_result` and back.
pub from_result-into_result :
    (r : SbiRet) → (r.error ≡ 0) ⊎ (r.value ≡ 0) → from_result (into_result r) ≡ r
unfolding into_result
from_result-into_result r h =
    ground (arith, error-from_error-to_error r.error, value-from_error (to_error r.error))

-- Every result survives the trip through `SbiRet`, if its error is canonical.
pub into_result-from_error : (e : Error) → IsCanonical e → into_result (from_error e) ≡ err e
unfolding into_result from_error to_error
into_result-from_error (custom c) h = ground arith
into_result-from_error _ h = refl
