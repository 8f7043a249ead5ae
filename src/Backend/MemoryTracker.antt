-- ===== src/Backend/MemoryTracker.antt =====
-- src/Backend/Memory/Memory_Manager.hpp and Memory_Manager.cpp: the tracker of allocations. Its
-- counters are 64-bit words and wrap. Calls are taken one after another.
-- The log is left out, but the number that a warning names is returned.
pub mod Service
pub mod Accounting
pub mod Live
use devilz_den.Prelude.{
  ℕ, ◌+◌, ◌-◌, ◌%◌, ◌^◌, List, [], Bool, true, not, ◌||◌, Option, none, some, ◌==◌, leb, ltb,
  if◌then◌else◌, String, ℕ_discrete,
}
use devilz_den.Prelude.Map
use devilz_den.Prelude.Map.{Map, insert_or_assign, values}

-- `MemoryTag`, by its number.
abbrev pub MemoryTag : Type 0
MemoryTag = ℕ

pub record AllocationRecord : Type 0 where
  pub address : ℕ
  pub size : ℕ
  pub alignment : ℕ
  pub tag : MemoryTag
  pub owner : String
  pub thread_name : String
  pub allocation_id : ℕ
  pub source : String

pub record TagStatistics : Type 0 where
  pub tag : MemoryTag
  pub allocation_count : ℕ
  pub deallocation_count : ℕ
  pub bytes_in_use : ℕ
  pub peak_bytes_in_use : ℕ
  pub total_bytes_allocated : ℕ

-- The value that `m_tagStatistics[tag]` makes for a tag that it does not have.
abbrev pub no_statistics : TagStatistics
no_statistics = record {
  tag = 0;
  allocation_count = 0;
  deallocation_count = 0;
  bytes_in_use = 0;
  peak_bytes_in_use = 0;
  total_bytes_allocated = 0;
}

pub data ServiceState : Type 0 where
  created initializing running paused stopping stopped failed : ServiceState

pub record Tracker : Type 0 where
  pub state : ServiceState
  pub tracking : Bool
  pub leak_detection : Bool
  pub next_allocation_id : ℕ
  pub active_count : ℕ
  pub total_allocations : ℕ
  pub total_deallocations : ℕ
  pub bytes_in_use : ℕ
  pub peak_bytes : ℕ
  pub total_bytes : ℕ
  pub allocations : Map ℕ AllocationRecord
  pub tags : Map MemoryTag TagStatistics

abbrev pub new_tracker : Tracker
new_tracker = record {
  state = created;
  tracking = true;
  leak_detection = true;
  next_allocation_id = 0;
  active_count = 0;
  total_allocations = 0;
  total_deallocations = 0;
  bytes_in_use = 0;
  peak_bytes = 0;
  total_bytes = 0;
  allocations = [];
  tags = [];
}

-- `fetch_add` and `fetch_sub` of a 64-bit word.
abbrev pub plus64 : ℕ → ℕ → ℕ
plus64 a b = (a + b) % 2 ^ 64

abbrev pub minus64 : ℕ → ℕ → ℕ
minus64 a b = (a + (2 ^ 64 - b % 2 ^ 64)) % 2 ^ 64

abbrev pub max : ℕ → ℕ → ℕ
max a b = if ltb a b then b else a

abbrev pub clamped : ℕ → ℕ → ℕ
clamped a b = if leb b a then a - b else 0

abbrev pub tag_or_new : Option TagStatistics → TagStatistics
tag_or_new none = no_statistics
tag_or_new (some s) = s

-- The start of `RegisterAllocation` under the lock: an allocation of the same address is dropped
-- from the counters.
unfoldable pub drop_existing : Tracker → Option AllocationRecord → Tracker
drop_existing t none = t
drop_existing t (some old) =
    let stats = tag_or_new (Map.find ℕ_discrete old.tag t.tags) in
    record {
      state = t.state;
      tracking = t.tracking;
      leak_detection = t.leak_detection;
      next_allocation_id = t.next_allocation_id;
      active_count = minus64 t.active_count 1;
      total_allocations = t.total_allocations;
      total_deallocations = t.total_deallocations;
      bytes_in_use = minus64 t.bytes_in_use old.size;
      peak_bytes = t.peak_bytes;
      total_bytes = t.total_bytes;
      allocations = t.allocations;
      tags =
          insert_or_assign ℕ_discrete old.tag
            (record {
              tag = stats.tag;
              allocation_count = stats.allocation_count;
              deallocation_count = stats.deallocation_count;
              bytes_in_use = clamped stats.bytes_in_use old.size;
              peak_bytes_in_use = stats.peak_bytes_in_use;
              total_bytes_allocated = stats.total_bytes_allocated;
            })
            t.tags;
    }

-- The rest of it: the record is written and counted.
unfoldable pub add_record : Tracker → AllocationRecord → Tracker
add_record t r =
    let current = plus64 t.bytes_in_use r.size in
    let stats = tag_or_new (Map.find ℕ_discrete r.tag t.tags) in
    let tag_bytes = plus64 stats.bytes_in_use r.size in
    record {
      state = t.state;
      tracking = t.tracking;
      leak_detection = t.leak_detection;
      next_allocation_id = r.allocation_id;
      active_count = plus64 t.active_count 1;
      total_allocations = plus64 t.total_allocations 1;
      total_deallocations = t.total_deallocations;
      bytes_in_use = current;
      peak_bytes = max t.peak_bytes current;
      total_bytes = plus64 t.total_bytes r.size;
      allocations = insert_or_assign ℕ_discrete r.address r t.allocations;
      tags =
          insert_or_assign ℕ_discrete r.tag
            (record {
              tag = r.tag;
              allocation_count = plus64 stats.allocation_count 1;
              deallocation_count = stats.deallocation_count;
              bytes_in_use = tag_bytes;
              peak_bytes_in_use = max stats.peak_bytes_in_use tag_bytes;
              total_bytes_allocated = plus64 stats.total_bytes_allocated r.size;
            })
            t.tags;
    }

-- What the caller and the platform give a new allocation.
pub record Request : Type 0 where
  pub address : ℕ
  pub size : ℕ
  pub alignment : ℕ
  pub tag : MemoryTag
  pub owner : String
  pub thread_name : String
  pub source : String

abbrev pub new_record : Tracker → Request → AllocationRecord
new_record t q = record {
  address = q.address;
  size = q.size;
  alignment = q.alignment;
  tag = q.tag;
  owner = q.owner;
  thread_name = q.thread_name;
  allocation_id = plus64 t.next_allocation_id 1;
  source = q.source;
}

-- `Memory_Manager::RegisterAllocation`.
unfoldable pub register_allocation : Tracker → Request → Tracker
register_allocation t q =
    if not t.tracking || q.address == 0 || q.size == 0
    then t
    else add_record (drop_existing t (Map.find ℕ_discrete q.address t.allocations)) (new_record t q)

-- `Memory_Manager::RegisterDeallocation`, once the record is found.
unfoldable pub remove_record : Tracker → ℕ → Option AllocationRecord → Tracker
remove_record t address none = t
remove_record t address (some r) =
    let stats = tag_or_new (Map.find ℕ_discrete r.tag t.tags) in
    record {
      state = t.state;
      tracking = t.tracking;
      leak_detection = t.leak_detection;
      next_allocation_id = t.next_allocation_id;
      active_count = minus64 t.active_count 1;
      total_allocations = t.total_allocations;
      total_deallocations = plus64 t.total_deallocations 1;
      bytes_in_use = minus64 t.bytes_in_use r.size;
      peak_bytes = t.peak_bytes;
      total_bytes = t.total_bytes;
      allocations = Map.erase ℕ_discrete address t.allocations;
      tags =
          insert_or_assign ℕ_discrete r.tag
            (record {
              tag = r.tag;
              allocation_count = stats.allocation_count;
              deallocation_count = plus64 stats.deallocation_count 1;
              bytes_in_use = clamped stats.bytes_in_use r.size;
              peak_bytes_in_use = stats.peak_bytes_in_use;
              total_bytes_allocated = stats.total_bytes_allocated;
            })
            t.tags;
    }

unfoldable pub register_deallocation : Tracker → ℕ → Tracker
register_deallocation t address =
    if not t.tracking || address == 0
    then t
    else remove_record t address (Map.find ℕ_discrete address t.allocations)

-- `Memory_Manager::FindLeaks`.
abbrev pub find_leaks : Tracker → List AllocationRecord
find_leaks t = values t.allocations

pub record MemorySnapshot : Type 0 where
  pub active_count : ℕ
  pub total_allocations : ℕ
  pub total_deallocations : ℕ
  pub bytes_in_use : ℕ
  pub peak_bytes : ℕ
  pub total_bytes : ℕ
  pub tags : List TagStatistics
  pub active_allocations : List AllocationRecord

-- `Memory_Manager::Snapshot`.
unfoldable pub snapshot : Tracker → Bool → MemorySnapshot
snapshot t include_active = record {
  active_count = t.active_count;
  total_allocations = t.total_allocations;
  total_deallocations = t.total_deallocations;
  bytes_in_use = t.bytes_in_use;
  peak_bytes = t.peak_bytes;
  total_bytes = t.total_bytes;
  tags = values t.tags;
  active_allocations = if include_active then values t.allocations else [];
}

-- `Memory_Manager::ResetStatistics`.
unfoldable pub reset_statistics : Tracker → Tracker
reset_statistics t = record {
  state = t.state;
  tracking = t.tracking;
  leak_detection = t.leak_detection;
  next_allocation_id = 0;
  active_count = 0;
  total_allocations = 0;
  total_deallocations = 0;
  bytes_in_use = 0;
  peak_bytes = 0;
  total_bytes = 0;
  allocations = [];
  tags = [];
}
