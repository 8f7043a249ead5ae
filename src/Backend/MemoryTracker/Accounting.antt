-- ===== src/Backend/MemoryTracker/Accounting.antt =====
-- The tracker's counters against the table of allocations that they count.
use devilz_den.Prelude.{
  ℕ, ◌+◌, ◌%◌, ◌^◌, ◌≡◌, refl, List, [], ◌∷◌, Bool, arith, Option, none, some, ℕ_discrete, length,
  inl, inr, Bool-cases, ◌==◌, ◌||◌, not,
}
use devilz_den.Prelude.Map.{
  Map, insert_or_assign, erase, find, HasUniqueKeys, insert_or_assign-HasUniqueKeys,
  erase-HasUniqueKeys, length-insert_or_assign, length-erase,
}
use devilz_den.Backend.MemoryTracker.Service.{set_tracking}
use devilz_den.Backend.MemoryTracker.{
  Tracker, AllocationRecord, Request, new_tracker, drop_existing, add_record, new_record,
  register_allocation, remove_record, register_deallocation, reset_statistics,
}

abbrev pub total_size : Map ℕ AllocationRecord → ℕ
total_size [] = 0
total_size ((a, r) ∷ m) = r.size + total_size m

abbrev size_of : Option AllocationRecord → ℕ
size_of none = 0
size_of (some r) = r.size

total_size-insert_or_assign :
    (a : ℕ) (r : AllocationRecord) (m : Map ℕ AllocationRecord)
    → total_size (insert_or_assign ℕ_discrete a r m) + size_of (find ℕ_discrete a m)
      ≡ total_size m + r.size
unfolding insert_or_assign find
total_size-insert_or_assign a r [] = ground arith
total_size-insert_or_assign a r ((b, q) ∷ m) = ground (arith, total_size-insert_or_assign a r m)

total_size-erase :
    (a : ℕ) (m : Map ℕ AllocationRecord)
    → total_size (erase ℕ_discrete a m) + size_of (find ℕ_discrete a m) ≡ total_size m
unfolding erase find
total_size-erase a [] = refl
total_size-erase a ((b, q) ∷ m) = ground (arith, total_size-erase a m)

-- The counters agree with the table, modulo the word size.
pub record IsValid (t : Tracker) : Type 0 where
  pub unique : HasUniqueKeys ℕ_discrete t.allocations
  pub counted : t.active_count ≡ length t.allocations % 2 ^ 64
  pub measured : t.bytes_in_use ≡ total_size t.allocations % 2 ^ 64

allocate-counted :
    (t : Tracker) (r : AllocationRecord) (o : Option AllocationRecord)
    → IsValid t
    → find ℕ_discrete r.address t.allocations ≡ o
    → (add_record (drop_existing t o) r).active_count
      ≡ length (add_record (drop_existing t o) r).allocations % 2 ^ 64
unfolding add_record drop_existing
allocate-counted t r none h e =
    ground (arith, h.counted, length-insert_or_assign ℕ_discrete r.address r t.allocations)
allocate-counted t r (some old) h e =
    ground (arith, h.counted, length-insert_or_assign ℕ_discrete r.address r t.allocations)

allocate-measured :
    (t : Tracker) (r : AllocationRecord) (o : Option AllocationRecord)
    → IsValid t
    → find ℕ_discrete r.address t.allocations ≡ o
    → (add_record (drop_existing t o) r).bytes_in_use
      ≡ total_size (add_record (drop_existing t o) r).allocations % 2 ^ 64
unfolding add_record drop_existing
allocate-measured t r none h e =
    ground (arith, h.measured, total_size-insert_or_assign r.address r t.allocations)
allocate-measured t r (some old) h e =
    ground (arith, h.measured, total_size-insert_or_assign r.address r t.allocations)

allocate_unique :
    (t : Tracker) (r : AllocationRecord) (o : Option AllocationRecord)
    → IsValid t
    → HasUniqueKeys ℕ_discrete (add_record (drop_existing t o) r).allocations
unfolding add_record drop_existing
allocate_unique t r none h =
    insert_or_assign-HasUniqueKeys ℕ_discrete r.address r t.allocations h.unique
allocate_unique t r (some old) h =
    insert_or_assign-HasUniqueKeys ℕ_discrete r.address r t.allocations h.unique

register_allocation-IsValid :
    (t : Tracker) (q : Request) → IsValid t → IsValid (register_allocation t q)
unfolding register_allocation
register_allocation-IsValid t q h =
    elim (Bool-cases (not t.tracking || q.address == 0 || q.size == 0)) [
      | inl e ↦ rw e h
      | inr e ↦ rw e (record {
        unique = allocate_unique t (new_record t q) known h;
        counted = allocate-counted t (new_record t q) known h refl;
        measured = allocate-measured t (new_record t q) known h refl;
      })
    ]
  where
    known : Option AllocationRecord
    known = find ℕ_discrete q.address t.allocations

remove_record-IsValid :
    (t : Tracker) (a : ℕ) (o : Option AllocationRecord)
    → IsValid t
    → find ℕ_discrete a t.allocations ≡ o
    → IsValid (remove_record t a o)
unfolding remove_record
remove_record-IsValid t a none h e = h
remove_record-IsValid t a (some r) h e = record {
  unique = erase-HasUniqueKeys ℕ_discrete a t.allocations h.unique;
  counted = ground (arith, h.counted, length-erase ℕ_discrete a t.allocations);
  measured = ground (arith, h.measured, total_size-erase a t.allocations);
}

register_deallocation-IsValid :
    (t : Tracker) (a : ℕ) → IsValid t → IsValid (register_deallocation t a)
unfolding register_deallocation
register_deallocation-IsValid t a h = elim (Bool-cases (not t.tracking || a == 0)) [
  | inl e ↦ rw e h
  | inr e ↦ rw e (remove_record-IsValid t a (find ℕ_discrete a t.allocations) h refl)
]

-- The calls of a client of the tracker.
pub data Operation : Type 0 where
  allocate : Request → Operation
  deallocate : ℕ → Operation
  enable_tracking : Bool → Operation
  reset : Operation

unfoldable pub apply : Tracker → Operation → Tracker
apply t (allocate q) = register_allocation t q
apply t (deallocate a) = register_deallocation t a
apply t (enable_tracking b) = set_tracking t b
apply t reset = reset_statistics t

unfoldable pub run : Tracker → List Operation → Tracker
run t [] = t
run t (o ∷ os) = run (apply t o) os

pub apply-IsValid : (t : Tracker) (o : Operation) → IsValid t → IsValid (apply t o)
unfolding apply reset_statistics
apply-IsValid t (allocate q) h = register_allocation-IsValid t q h
apply-IsValid t (deallocate a) h = register_deallocation-IsValid t a h
apply-IsValid t (enable_tracking b) h = record {
  unique = h.unique;
  counted = h.counted;
  measured = h.measured;
}
apply-IsValid t reset h = record { unique = tt; counted = refl; measured = refl }

run-IsValid_from : (t : Tracker) (os : List Operation) → IsValid t → IsValid (run t os)
unfolding run
run-IsValid_from t [] h = h
run-IsValid_from t (o ∷ os) h = run-IsValid_from (apply t o) os (apply-IsValid t o h)

-- After any sequence of calls on a new tracker, the number of active allocations and the bytes in
-- use are, as 64-bit words, the number and the summed sizes of the tracked allocations, and no
-- address is tracked twice.
pub run-IsAccounted : (os : List Operation) → IsValid (run new_tracker os)
run-IsAccounted os =
    run-IsValid_from new_tracker os (record { unique = tt; counted = refl; measured = refl })
