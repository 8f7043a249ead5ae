-- ===== src/Backend/Process.antt =====
-- src/Backend/Process/Process_Memory_Reader.cpp (the entry points), Process_Module_Info.hpp and
-- Process_Pattern_Scanner.cpp: reading and searching another process. What the operating system
-- answers to a read is a parameter.
pub mod Search
use devilz_den.Prelude.{
  ℕ, zero, suc, ◌+◌, ◌-◌, ◌%◌, ◌^◌, List, [], ◌∷◌, ◌++◌, Bool, true, false, not, ◌&&◌, ◌||◌, ltb,
  ◌==◌, if◌then◌else◌, length, get_or, Text,
}
use devilz_den.Backend.Error.{Result, success, failure, make_error, ErrorCode, ErrorCategory}
use devilz_den.Backend.Pattern.{Token}

-- The bytes at an address of a process, so many of them, or an error: `ReadLocalMemory` for the
-- current process and `ReadProcessMemory` for any other.
abbrev pub SystemRead : Type 0
SystemRead = ℕ → ℕ → ℕ → Result (List ℕ)

-- `Process_Memory_Reader::Read` with the checks of `ReadInto`.
unfoldable pub read : SystemRead → ℕ → ℕ → ℕ → Result (List ℕ)
read system pid address size =
    if size == 0
    then failure (
        make_error ErrorCode.invalid_argument ErrorCategory.runtime
          "Process memory read size cannot be zero")
    else if pid == 0 || address == 0
    then failure (
        make_error ErrorCode.invalid_argument ErrorCategory.runtime
          "Invalid process memory read request")
    else system pid address size

pub record ModuleInfo : Type 0 where
  pub name : Text
  pub base_address : ℕ
  pub image_size : ℕ

-- `Process_Module_Info::Valid`.
abbrev pub is_valid_module : ModuleInfo → Bool
is_valid_module m = not (length m.name == 0) && not (m.base_address == 0) && not (m.image_size == 0)

pub record Match : Type 0 where
  pub address : ℕ
  pub offset : ℕ

-- The loop over `i`: the signature against the bytes that begin at `place`.
unfoldable pub bytes_match : List ℕ → ℕ → List Token → Bool
bytes_match bytes place [] = true
bytes_match bytes place (t ∷ ts) =
    if not t.wildcard && not (get_or bytes place 0 == t.value)
    then false
    else bytes_match bytes (suc place) ts

-- The loop over the offsets, of which `left` remain.
unfoldable pub match_loop : List ℕ → List Token → ℕ → ℕ → ℕ → ℕ → List Match → List Match
unfolding bytes_match
match_loop bytes signature base max zero offset found = found
match_loop bytes signature base max (suc left) offset found =
    let next = match_loop bytes signature base max left (suc offset) (
      if bytes_match bytes offset signature
      then found ++ (record { address = (base + offset) % 2 ^ 64; offset = offset }) ∷ []
      else found) in
    if ltb (length found) max then next else found

-- `Process_Pattern_Scanner::Scan`.
unfoldable pub scan : SystemRead → ℕ → ModuleInfo → List Token → ℕ → Result (List Match)
unfolding match_loop read
scan system pid m signature max =
    if not (is_valid_module m)
      || length signature == 0
      || ltb m.image_size (length signature)
      || max == 0
    then failure (
        make_error ErrorCode.invalid_argument ErrorCategory.runtime
          "Invalid external pattern scan request")
    else elim (read system pid m.base_address m.image_size) [
      | failure e ↦ failure e
      | success bytes ↦
          success (
            match_loop bytes signature m.base_address max (length bytes - length signature + 1) 0
              [])
    ]
