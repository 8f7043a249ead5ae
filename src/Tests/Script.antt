-- ===== src/Tests/Script.antt =====
-- Runs of Integrations/GTA5_Enhanced/Script.
use devilz_den.Prelude.{
  ℕ, ◌+◌, ◌*◌, ◌-◌, ◌%◌, ◌^◌, ◌≡◌, refl, List, [], ◌∷◌, true, arith, inl, ℕ_discrete, if◌then◌else◌,
  ◌==◌,
}
use devilz_den.Prelude.Map
use devilz_den.Backend.Error.{success, has_value}
use devilz_den.Natives.Manager.{BuildInfo, no_build}
use devilz_den.Script.Globals.{
  Block, new_globals, configure, resolve, check_blocks, check_overlap, sort_blocks, insert_block,
}
use devilz_den.Script.Globals.Resolution.{resolve-configure}
use devilz_den.Script.Tables.{Thread, running, idle, register_thread}
use devilz_den.Script.Runtime.{new_runtime}
use devilz_den.Script.Runtime.Lifecycle
use devilz_den.Script.Runtime.Lifecycle.{
  Operation, initialize_runtime, shutdown_runtime, add_thread, remove_thread, run, run-IsValid,
}

abbrev block : ℕ → ℕ → ℕ → Block
block first slots base = record {
  first_index = first;
  slot_count = slots;
  base = record { address = base };
}

-- Two blocks, the later one first.
abbrev blocks : List Block
blocks = block 100 50 90000 ∷ block 0 100 40000 ∷ []

blocks-accepted : has_value (configure new_globals blocks 7).1 ≡ true
unfolding configure check_blocks check_overlap sort_blocks insert_block
blocks-accepted = refl

resolve-configure_example :
    resolve (configure new_globals blocks 7).0 103
    ≡ success (record { address = (90000 + (103 - 100) * 8) % 2 ^ 64 })
resolve-configure_example =
    resolve-configure new_globals blocks 7 (block 100 50 90000) 103 (omega arith, (omega arith, tt))
      blocks-accepted (inl refl) (omega arith) (omega arith)

-- Every address holds a thread whose id is the address; only the thread at 200 runs.
abbrev threads : ℕ → Thread
threads a = record {
  context = record {
    thread_id = a;
    script_hash = 1;
    instruction_pointer = 0;
    frame_pointer = 0;
    stack_pointer = 0;
    state = if a == 200 then running else idle;
  };
  stack = record { address = 0 };
}

accepted_thread : has_value (register_thread threads [] 100).1 ≡ true
unfolding register_thread
accepted_thread = refl

unique_ids : Map.HasUniqueKeys {V = ℕ} ℕ_discrete ((1, 100) ∷ (2, 200) ∷ [])
unfolding Map.find ℕ_discrete
unique_ids = (refl, (refl, tt))

abbrev build : BuildInfo
build = record no_build { fingerprint = 7 }

abbrev history : List Operation
history =
    initialize_runtime build
    ∷ add_thread threads 100
    ∷ add_thread threads 200
    ∷ add_thread threads 100
    ∷ initialize_runtime no_build
    ∷ []

run-IsValid_example : Lifecycle.IsValid (run new_runtime history)
run-IsValid_example = run-IsValid history
