-- ===== src/Backend/MemoryTracker/Live.antt =====
-- The tracker's table against the history of one address.
use devilz_den.Prelude.{
  ℕ, ◌≡◌, refl, sym, List, [], ◌∷◌, Bool, true, arith, Option, none, some, ℕ_discrete, ite, ◌==◌,
  ◌||◌, if◌then◌else◌,
}
use devilz_den.Prelude.Map.{find, find-insert_or_assign, find-erase}
use devilz_den.Backend.MemoryTracker.{
  Tracker, AllocationRecord, Request, new_tracker, drop_existing, add_record, new_record,
  register_allocation, remove_record, register_deallocation, reset_statistics,
}
use devilz_den.Backend.MemoryTracker.Accounting.{
  Operation, allocate, deallocate, enable_tracking, reset, apply, run, IsValid, apply-IsValid,
  run-IsAccounted,
}

-- What is known of one address: whether tracking is on, and the size of the live allocation there.
pub record View : Type 0 where
  pub tracking : Bool
  pub live : Option ℕ

-- The life of one address: a later allocation replaces an earlier one, a deallocation ends it, and
-- nothing is seen while tracking is off.
unfoldable pub observe : ℕ → View → Operation → View
observe a v (allocate q) =
    if v.tracking
    then ite (ℕ_discrete q.address a)
        (if a == 0 || q.size == 0 then v else record { tracking = v.tracking; live = some q.size })
        v
    else v
observe a v (deallocate b) =
    if v.tracking
    then ite (ℕ_discrete b a) (if a == 0 then v else record { tracking = v.tracking; live = none })
        v
    else v
observe a v (enable_tracking b) = record { tracking = b; live = v.live }
observe a v reset = record { tracking = v.tracking; live = none }

unfoldable pub observe_all : ℕ → View → List Operation → View
observe_all a v [] = v
observe_all a v (o ∷ os) = observe_all a (observe a v o) os

abbrev pub size_at : Option AllocationRecord → Option ℕ
size_at none = none
size_at (some r) = some r.size

abbrev pub view : Tracker → ℕ → View
view t a = record { tracking = t.tracking; live = size_at (find ℕ_discrete a t.allocations) }

drop_existing-kept :
    (t : Tracker) (o : Option AllocationRecord)
    → ((drop_existing t o).tracking ≡ t.tracking)
      × ((drop_existing t o).allocations ≡ t.allocations)
unfolding drop_existing
drop_existing-kept t none = (refl, refl)
drop_existing-kept t (some r) = (refl, refl)

view-allocate :
    (t : Tracker) (q : Request) (a : ℕ)
    → view (register_allocation t q) a ≡ observe a (view t a) (allocate q)
unfolding register_allocation observe add_record
view-allocate t q a = ground (
  arith,
  drop_existing-kept t (find ℕ_discrete q.address t.allocations),
  find-insert_or_assign ℕ_discrete a q.address (new_record t q) t.allocations,
)

remove_record-kept :
    (t : Tracker) (b : ℕ)
    → ((remove_record t b (find ℕ_discrete b t.allocations)).tracking ≡ t.tracking)
unfolding remove_record
remove_record-kept t b = ground arith

remove_record-find :
    (t : Tracker) (b a : ℕ)
    → IsValid t
    → find ℕ_discrete a (remove_record t b (find ℕ_discrete b t.allocations)).allocations
      ≡ ite (ℕ_discrete b a) none (find ℕ_discrete a t.allocations)
unfolding remove_record
remove_record-find t b a h = ground (arith, find-erase ℕ_discrete a b t.allocations h.unique)

view-deallocate :
    (t : Tracker) (b a : ℕ)
    → IsValid t
    → view (register_deallocation t b) a ≡ observe a (view t a) (deallocate b)
unfolding register_deallocation observe
view-deallocate t b a h = ground (arith, remove_record-kept t b, remove_record-find t b a h)

view-apply :
    (t : Tracker) (o : Operation) (a : ℕ) → IsValid t → view (apply t o) a ≡ observe a (view t a) o
unfolding apply
view-apply t (allocate q) a h = view-allocate t q a
view-apply t (deallocate b) a h = view-deallocate t b a h
view-apply t (enable_tracking b) a h = unfold observe in refl
view-apply t reset a h = unfold observe reset_statistics find in refl

view-run_from :
    (t : Tracker) (os : List Operation) (a : ℕ)
    → IsValid t
    → view (run t os) a ≡ observe_all a (view t a) os
unfolding run observe_all
view-run_from t [] a h = refl
view-run_from t (o ∷ os) a h =
    rw (sym (view-apply t o a h)) (view-run_from (apply t o) os a (apply-IsValid t o h))

-- After any sequence of calls on a new tracker, the table holds an allocation at an address exactly
-- if the calls that name this address leave one live there, and with the size of the last of them.
pub view-run :
    (os : List Operation) (a : ℕ)
    → view (run new_tracker os) a ≡ observe_all a (record { tracking = true; live = none }) os
unfolding find run
view-run os a = view-run_from new_tracker os a (run-IsAccounted [])
