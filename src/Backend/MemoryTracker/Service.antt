-- ===== src/Backend/MemoryTracker/Service.antt =====
-- src/Backend/Memory/Memory_Manager.cpp: the tracker as a service, and its two switches.
use devilz_den.Prelude.{ℕ, Bool, not, ◌&&◌, Option, none, some, ◌==◌, if◌then◌else◌, length}
use devilz_den.Backend.Error.{
  Result, success, failure, make_error, service_initialization_failed, service,
}
use devilz_den.Backend.MemoryTracker.{
  Tracker, ServiceState, created, initializing, running, paused, stopping, stopped, failed,
  reset_statistics, find_leaks,
}

-- The service's state written, all else kept.
abbrev pub with_state : ServiceState → Tracker → Tracker
with_state s t = record {
  state = s;
  tracking = t.tracking;
  leak_detection = t.leak_detection;
  next_allocation_id = t.next_allocation_id;
  active_count = t.active_count;
  total_allocations = t.total_allocations;
  total_deallocations = t.total_deallocations;
  bytes_in_use = t.bytes_in_use;
  peak_bytes = t.peak_bytes;
  total_bytes = t.total_bytes;
  allocations = t.allocations;
  tags = t.tags;
}

-- `SetTrackingEnabled` and `SetLeakDetectionEnabled`.
abbrev pub set_tracking : Tracker → Bool → Tracker
set_tracking t enabled = record {
  state = t.state;
  tracking = enabled;
  leak_detection = t.leak_detection;
  next_allocation_id = t.next_allocation_id;
  active_count = t.active_count;
  total_allocations = t.total_allocations;
  total_deallocations = t.total_deallocations;
  bytes_in_use = t.bytes_in_use;
  peak_bytes = t.peak_bytes;
  total_bytes = t.total_bytes;
  allocations = t.allocations;
  tags = t.tags;
}

abbrev pub set_leak_detection : Tracker → Bool → Tracker
set_leak_detection t enabled = record {
  state = t.state;
  tracking = t.tracking;
  leak_detection = enabled;
  next_allocation_id = t.next_allocation_id;
  active_count = t.active_count;
  total_allocations = t.total_allocations;
  total_deallocations = t.total_deallocations;
  bytes_in_use = t.bytes_in_use;
  peak_bytes = t.peak_bytes;
  total_bytes = t.total_bytes;
  allocations = t.allocations;
  tags = t.tags;
}

-- `Memory_Manager::Initialize` and `Memory_Manager::Start`.
unfoldable pub initialize : Tracker → Tracker × Result (Unit {0})
unfolding reset_statistics
initialize t = (with_state created (reset_statistics (with_state initializing t)), success tt)

unfoldable pub start : Tracker → Tracker × Result (Unit {0})
start t = elim t.state [
  | created ↦ (with_state running t, success tt)
  | initializing ↦ (with_state running t, success tt)
  | running ↦ (with_state running t, success tt)
  | paused ↦ (with_state running t, success tt)
  | stopping ↦ (with_state running t, success tt)
  | stopped ↦ (with_state running t, success tt)
  | failed ↦ (
    t,
    failure (
        make_error service_initialization_failed service
          "Memory_Manager cannot start from failed state"),
  )
]

-- The number that the warning of `Stop` and `Shutdown` names; no warning is written without leaks.
unfoldable pub leak_warning : Tracker → Option ℕ
leak_warning t =
    if t.leak_detection && not (length (find_leaks t) == 0)
    then some (length (find_leaks t))
    else none

-- `Memory_Manager::Stop` and `Memory_Manager::Shutdown`.
unfoldable pub stop : Tracker → Tracker × Option ℕ
unfolding leak_warning
stop t = (with_state stopped (with_state stopping t), leak_warning (with_state stopping t))

unfoldable pub shutdown : Tracker → Tracker × Option ℕ
unfolding leak_warning
shutdown t = (with_state stopped t, leak_warning t)
