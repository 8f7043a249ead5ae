-- ===== src/Targets/Address.antt =====
-- Memory/GTA_Address_Resolver.hpp and GTA_Address_Resolver.cpp: from the address of a pattern match
-- to the address that it names. Signed overflow of the additions wraps.
pub mod Chains
use devilz_den.Prelude.{
  ℕ, zero, suc, ◌+◌, ◌*◌, ◌%◌, ◌^◌, List, [], ◌∷◌, Bool, true, false, ◌==◌, if◌then◌else◌,
}
use devilz_den.Prelude.Int.{ℤ, pos, negsuc, signed64, signed32, word64}
use devilz_den.Backend.Error.{
  Result, success, failure, make_error, ErrorCode, ErrorCategory, fail_runtime, ◌>>=◌,
}

pub data ResolveOp : Type 0 where
  add rip_relative32 : ℤ → ResolveOp

-- The reading of so many bytes at an address, by a reader that is bound to its process.
abbrev pub Reader : Type 0
Reader = ℕ → ℕ → Result (List ℕ)

-- `static_cast<std::intptr_t>(address) + offset`, as a word.
abbrev pub offset_by : ℕ → ℤ → ℕ
offset_by address offset = (address + word64 offset) % 2 ^ 64

-- The number is more than 0 as a signed number.
abbrev pub is_positive : ℤ → Bool
is_positive (pos zero) = false
is_positive (pos (suc n)) = true
is_positive (negsuc n) = false

-- The little-endian number of a `memcpy` of bytes.
unfoldable pub little_endian : List ℕ → ℕ
little_endian [] = 0
little_endian (b ∷ bs) = b + 256 * little_endian bs

-- `ResolveRipRelative32`.
unfoldable pub resolve_rip_relative32 : Reader → ℕ → ℤ → Result ℕ
resolve_rip_relative32 reader address offset =
    let place = offset_by address offset in
    if is_positive (signed64 place)
    then (reader place 4 >>= λ bytes.
        let resolved = offset_by (offset_by place (pos 4)) (signed32 (little_endian bytes)) in
        if is_positive (signed64 resolved)
        then success resolved
        else fail_runtime "RIP-relative address resolved outside the valid user address range")
    else fail_runtime "RIP-relative displacement address is outside the valid user address range"

-- The body of the loop of `GTA_Address_Resolver::Resolve`.
unfoldable pub resolve_op : Reader → ℕ → ResolveOp → Result ℕ
resolve_op reader address (add offset) =
    if is_positive (signed64 (offset_by address offset))
    then success (offset_by address offset)
    else fail_runtime "Address add operation resolved outside the valid user address range"
resolve_op reader address (rip_relative32 offset) = resolve_rip_relative32 reader address offset

unfoldable pub resolve_ops : Reader → ℕ → List ResolveOp → Result ℕ
resolve_ops reader address [] = success address
resolve_ops reader address (op ∷ ops) =
    resolve_op reader address op >>= λ next. resolve_ops reader next ops

-- `GTA_Address_Resolver::Resolve`.
unfoldable pub resolve : Reader → ℕ → List ResolveOp → Result ℕ
resolve reader match_address chain =
    if match_address == 0
    then failure (
        make_error ErrorCode.invalid_argument ErrorCategory.runtime
          "Cannot resolve a null pattern match")
    else resolve_ops reader match_address chain
