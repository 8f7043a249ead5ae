-- ===== src/Backend/Range.antt =====
-- src/Backend/Memory/Memory_Range.hpp, Pointer.hpp and Pointer.cpp: address ranges and pointers as
-- 64-bit words. The bytes of the process are a function of the address; a `memcpy` reads them in
-- little-endian order. Signed overflow of a pointer offset wraps.
pub mod Bounds
pub mod Chains
pub mod Writes
use devilz_den.Prelude.{
  ℕ, zero, suc, ◌+◌, ◌-◌, ◌*◌, ◌/◌, ◌%◌, ◌^◌, List, [], ◌∷◌, Option, none, some, Bool, not, ◌&&◌,
  ◌||◌, leb, ◌==◌, if◌then◌else◌, take,
}
use devilz_den.Prelude.Int.{ℤ, pos, negsuc, ◌+ℤ◌, signed64, signed32, word64}

abbrev pub Memory : Type 0
Memory = ℕ → ℕ

pub record MemoryRange : Type 0 where
  pub begin : ℕ
  pub size : ℕ

-- `Memory_Range::End`.
unfoldable pub end_of : MemoryRange → ℕ
end_of r = (r.begin + r.size) % 2 ^ 64

-- `Memory_Range::Empty`.
unfoldable pub is_empty : MemoryRange → Bool
is_empty r = r.begin == 0 || r.size == 0

-- `Memory_Range::Contains`.
unfoldable pub contains : MemoryRange → ℕ → ℕ → Bool
unfolding end_of is_empty
contains r address bytes =
    not (is_empty r)
    && leb r.begin address
    && leb bytes r.size
    && leb address ((end_of r + 2 ^ 64 - bytes) % 2 ^ 64)

pub record Pointer : Type 0 where
  pub address : ℕ

abbrev pub null : Pointer
null = record { address = 0 }

-- `Pointer::Valid` and `Pointer::IsNull`.
abbrev pub is_valid : Pointer → Bool
is_valid p = not (p.address == 0)

abbrev pub is_null : Pointer → Bool
is_null p = p.address == 0

-- `Pointer::Add`.
unfoldable pub add : Pointer → ℤ → Pointer
add p offset = record { address = (p.address + word64 offset) % 2 ^ 64 }

-- The negation of a `ptrdiff_t`.
abbrev pub negate : ℤ → ℤ
negate (pos zero) = pos zero
negate (pos (suc n)) = negsuc n
negate (negsuc n) = pos (suc n)

-- `Pointer::Sub`.
unfoldable pub sub : Pointer → ℤ → Pointer
unfolding add
sub p offset = add p (negate offset)

-- `Pointer::Distance`.
unfoldable pub distance : Pointer → Pointer → ℤ
distance p q = signed64 ((p.address + 2 ^ 64 - q.address) % 2 ^ 64)

-- `Pointer::InRange`.
unfoldable pub in_range : Pointer → MemoryRange → ℕ → Bool
unfolding contains
in_range p r bytes = contains r p.address bytes

-- `memcpy` of an unsigned number of so many bytes.
unfoldable pub read_bytes : Memory → ℕ → ℕ → ℕ
read_bytes m a zero = 0
read_bytes m a (suc n) = m a + 256 * read_bytes m (suc a) n

-- `memcpy` of so many bytes out of the memory, and of a list of bytes into it.
unfoldable pub bytes_at : Memory → ℕ → ℕ → List ℕ
bytes_at m a zero = []
bytes_at m a (suc n) = m a ∷ bytes_at m (suc a) n

unfoldable pub write_bytes : Memory → ℕ → List ℕ → Memory
write_bytes m a [] = m
write_bytes m a (b ∷ bytes) = write_bytes (λ x. if x == a then b else m x) (suc a) bytes

-- The little-endian bytes of a word, so many of them.
unfoldable pub little_endian : ℕ → ℕ → List ℕ
little_endian zero v = []
little_endian (suc n) v = v % 256 ∷ little_endian n (v / 256)

-- `Pointer::ResolveRelative32`.
unfoldable pub resolve_relative32 : Memory → Pointer → ℤ → ℕ → MemoryRange → Option Pointer
resolve_relative32 m p displacement_offset instruction_size range =
    let displacement_address = add p displacement_offset in
    if not (in_range displacement_address range 4)
    then none
    else (let displacement = signed32 (read_bytes m displacement_address.address 4) in
        let target = add p (signed64 instruction_size +ℤ displacement) in
        if is_valid target then some target else none)

-- The loop of `Pointer::Follow`.
unfoldable pub follow_loop : Memory → MemoryRange → List ℤ → Pointer → Option Pointer
follow_loop m range [] current = some current
follow_loop m range (offset ∷ offsets) current =
    let here = add current offset in
    let next : Pointer = record { address = read_bytes m here.address 8 } in
    let rest = follow_loop m range offsets next in
    if not (in_range here range 8) then none else if not (is_valid next) then none else rest

-- `Pointer::Follow`; `none` for a null array of offsets.
unfoldable pub follow : Memory → Pointer → Option (List ℤ) → ℕ → MemoryRange → Option Pointer
unfolding follow_loop
follow m p none count range = if not (count == 0) then none else some p
follow m p (some offsets) count range = follow_loop m range (take count offsets) p
