-- ===== src/Backend/Error.antt =====
-- src/Backend/Error/Error.hpp, Error.cpp and Result.hpp: errors as values, and the result of a
-- fallible call. The source location and the system's text of a native code are left out.
use devilz_den.Prelude.{
  ℕ, String, Text, List, [], ◌∷◌, ◌++◌, ◌≡◌, refl, Option, some, Bool, true, false,
}

pub data ErrorCategory : Type 0 where
  none runtime service threading platform filesystem graphics network : ErrorCategory
  configuration scripting unknown : ErrorCategory

pub data ErrorCode : Type 0 where
  none runtime_failure invalid_argument not_found service_initialization_failed : ErrorCode
  service_dependency_missing thread_creation_failed task_execution_failed : ErrorCode
  executor_stopped window_failure directory_open_failed directory_create_failed : ErrorCode
  file_open_failed file_read_failed file_write_failed d3d12_failure : ErrorCode
  d3d12_device_creation_failed d3d12_device_removed network_failure unknown : ErrorCode

pub record ErrorContext : Type 0 where
  pub key : String
  pub value : Text

pub record Error : Type 0 where
  pub code : ErrorCode
  pub category : ErrorCategory
  pub message : String
  pub native_code : Option ℕ
  pub context : List ErrorContext

-- The constructor `Error(code, category, message)`.
abbrev pub make_error : ErrorCode → ErrorCategory → String → Error
make_error c k m = record {
  code = c;
  category = k;
  message = m;
  native_code = Option.none;
  context = [];
}

-- `Error::FromWin32`, with the native code that `GetLastError` gave.
abbrev pub from_win32 : ErrorCode → ErrorCategory → ℕ → String → Error
from_win32 c k n m = record {
  code = c;
  category = k;
  message = m;
  native_code = some n;
  context = [];
}

-- `Error::With`.
abbrev pub with_context : Error → String → Text → Error
with_context e k v = record e { context = e.context ++ record { key = k; value = v } ∷ [] }

pub data Result {ℓ} (A : Type ℓ) : Type ℓ where
  success : A → Result A
  failure : Error → Result A

module _ {ℓ} {A : Type ℓ} where
  -- `operator bool` of a result.
  abbrev pub has_value : Result A → Bool
  has_value (success a) = true
  has_value (failure e) = false

  abbrev pub fail_runtime : String → Result A
  fail_runtime m = failure (make_error ErrorCode.runtime_failure ErrorCategory.runtime m)

  -- `err.With(key, value)` on the error of a failed result.
  abbrev pub annotate : Result A → String → Text → Result A
  annotate (success a) k v = success a
  annotate (failure e) k v = failure (with_context e k v)

infixl 5 ◌>>=◌ ◌>>◌
abbrev pub ◌>>=◌ {ℓ κ} : {A : Type ℓ} {B : Type κ} → Result A → (A → Result B) → Result B
success a >>= f = f a
failure e >>= f = failure e

abbrev pub ◌>>◌ {ℓ} : {B : Type ℓ} → Result (Unit {0}) → Result B → Result B
m >> k = m >>= λ _. k

-- A successful chain, taken apart.
pub >>=-eq-success {ℓ κ} :
    {A : Type ℓ} {B : Type κ} (m : Result A) (f : A → Result B) {b : B}
    → (m >>= f) ≡ success b
    → (a : A) × (m ≡ success a) × (f a ≡ success b)
>>=-eq-success (success a) f h = (a, refl, h)
>>=-eq-success (failure e) f h = cc

pub success-inj {ℓ} : {A : Type ℓ} {a b : A} → success a ≡ success b → a ≡ b
success-inj h = cc
