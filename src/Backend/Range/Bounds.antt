-- ===== src/Backend/Range/Bounds.antt =====
-- Containment in a range against plain arithmetic, and pointer offsets.
use devilz_den.Prelude.{ℕ, ◌+◌, ◌-◌, ◌^◌, ◌≤◌, ◌<◌, ◌≡◌, ◌↔◌, true, arith}
use devilz_den.Prelude.Int.{ℤ, pos, negsuc, ◌≤ℤ◌}
use devilz_den.Backend.Range.{MemoryRange, Pointer, contains, add, sub, distance}

-- The bytes of the range lie in the address space, which they may fill to its last byte.
pub record IsBounded (r : MemoryRange) : Type 0 where
  pub above_null : 0 < r.begin
  pub fits : r.begin + r.size ≤ 2 ^ 64

-- In a range that lies in the address space, a non-empty block of bytes is contained exactly if it
-- begins at or after the begin of the range and ends at or before its end.
contains_lem :
    (r : MemoryRange) (address bytes : ℕ)
    → IsBounded r
    → 0 < bytes
    → bytes ≤ 2 ^ 64
    → (contains r address bytes ≡ true)
      ↔ ((r.begin ≤ address) × (address + bytes ≤ r.begin + r.size))
unfolding contains
contains_lem r address bytes h lo hi = ground arith

sub-add : (p : Pointer) (offset : ℤ) → p.address < 2 ^ 64 → sub (add p offset) offset ≡ p
unfolding sub add
sub-add p offset h = ground arith

-- The distance from an address to that address plus an offset is the offset, for every offset of a
-- `ptrdiff_t` and also where the sum wraps.
distance-add :
    (p : Pointer) (offset : ℤ)
    → p.address < 2 ^ 64
    → negsuc (2 ^ 63 - 1) ≤ℤ offset
    → offset ≤ℤ pos (2 ^ 63 - 1)
    → distance (add p offset) p ≡ offset
unfolding distance add
distance-add p offset h lo hi = ground arith
