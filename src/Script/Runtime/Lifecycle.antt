-- ===== src/Script/Runtime/Lifecycle.antt =====
-- The states of the script runtime over any sequence of calls.
use devilz_den.Prelude.{ℕ, ◌<◌, ◌≡◌, List, [], ◌∷◌, true, arith, ℕ_discrete}
use devilz_den.Prelude.Map.{HasUniqueKeys, insert_or_assign-HasUniqueKeys, erase-HasUniqueKeys}
use devilz_den.Natives.Manager.{BuildInfo}
use devilz_den.Script.Globals
use devilz_den.Script.Globals.{Block, configure}
use devilz_den.Script.Tables.{
  Threads, Programs, register_thread, unregister_thread, register_program, unregister_program,
}
use devilz_den.Script.Runtime.{ScriptRuntime, new_runtime, initialize, shutdown, is_ready}

-- The calls of a client of the runtime. The store of a registration is the one at its time.
pub data Operation : Type 0 where
  initialize_runtime : BuildInfo → Operation
  shutdown_runtime : Operation
  add_thread : Threads → ℕ → Operation
  remove_thread : ℕ → Operation
  add_program : Programs → ℕ → Operation
  remove_program : ℕ → Operation
  configure_globals : List Block → ℕ → Operation
  clear_globals : Operation

unfoldable pub apply : ScriptRuntime → Operation → ScriptRuntime
apply r (initialize_runtime build) = (initialize r build).0
apply r shutdown_runtime = shutdown r
apply r (add_thread heap t) = record {
  build = r.build;
  programs = r.programs;
  vm = (register_thread heap r.vm t).0;
  globals = r.globals;
  state = r.state;
}
apply r (remove_thread id) = record {
  build = r.build;
  programs = r.programs;
  vm = unregister_thread r.vm id;
  globals = r.globals;
  state = r.state;
}
apply r (add_program heap p) = record {
  build = r.build;
  programs = (register_program heap r.programs p).0;
  vm = r.vm;
  globals = r.globals;
  state = r.state;
}
apply r (remove_program hash) = record {
  build = r.build;
  programs = unregister_program r.programs hash;
  vm = r.vm;
  globals = r.globals;
  state = r.state;
}
apply r (configure_globals blocks fingerprint) = record {
  build = r.build;
  programs = r.programs;
  vm = r.vm;
  globals = (configure r.globals blocks fingerprint).0;
  state = r.state;
}
apply r clear_globals = record {
  build = r.build;
  programs = r.programs;
  vm = r.vm;
  globals = Globals.clear r.globals;
  state = r.state;
}

unfoldable pub run : ScriptRuntime → List Operation → ScriptRuntime
run r [] = r
run r (o ∷ os) = run (apply r o) os

-- A ready runtime has a build, and neither table has an id twice.
pub record IsValid (r : ScriptRuntime) : Type 0 where
  pub ready_build : is_ready r ≡ true → 0 < r.build.fingerprint
  pub unique_threads : HasUniqueKeys ℕ_discrete r.vm
  pub unique_programs : HasUniqueKeys ℕ_discrete r.programs

new_runtime-IsValid : IsValid new_runtime
unfolding is_ready
new_runtime-IsValid = record {
  ready_build = λ h. ground arith;
  unique_threads = tt;
  unique_programs = tt;
}

register_thread_unique :
    (heap : Threads) (r : ScriptRuntime) (t : ℕ)
    → IsValid r
    → HasUniqueKeys ℕ_discrete (register_thread heap r.vm t).0
unfolding register_thread
register_thread_unique heap r t h = ground (
  arith,
  h.unique_threads,
  insert_or_assign-HasUniqueKeys ℕ_discrete (heap t).context.thread_id t r.vm h.unique_threads,
)

register_program_unique :
    (heap : Programs) (r : ScriptRuntime) (p : ℕ)
    → IsValid r
    → HasUniqueKeys ℕ_discrete (register_program heap r.programs p).0
unfolding register_program
register_program_unique heap r p h = ground (
  arith,
  h.unique_programs,
  insert_or_assign-HasUniqueKeys ℕ_discrete (heap p).hash p r.programs h.unique_programs,
)

initialize-ready :
    (r : ScriptRuntime) (build : BuildInfo)
    → is_ready (initialize r build).0 ≡ true
    → 0 < (initialize r build).0.build.fingerprint
unfolding initialize is_ready
initialize-ready r build h = ground arith

initialize_unique :
    (r : ScriptRuntime) (build : BuildInfo)
    → IsValid r
    → HasUniqueKeys ℕ_discrete (initialize r build).0.vm
      × HasUniqueKeys ℕ_discrete (initialize r build).0.programs
unfolding initialize
initialize_unique r build h = ground (arith, h.unique_threads, h.unique_programs)

apply-IsValid : (r : ScriptRuntime) (o : Operation) → IsValid r → IsValid (apply r o)
unfolding apply is_ready shutdown
apply-IsValid r (initialize_runtime build) h = record {
  ready_build = initialize-ready r build;
  unique_threads = (initialize_unique r build h).0;
  unique_programs = (initialize_unique r build h).1;
}
apply-IsValid r shutdown_runtime h = record {
  ready_build = λ k. ground arith;
  unique_threads = tt;
  unique_programs = tt;
}
apply-IsValid r (add_thread heap t) h = record {
  ready_build = h.ready_build;
  unique_threads = register_thread_unique heap r t h;
  unique_programs = h.unique_programs;
}
apply-IsValid r (remove_thread id) h = record {
  ready_build = h.ready_build;
  unique_threads = erase-HasUniqueKeys ℕ_discrete id r.vm h.unique_threads;
  unique_programs = h.unique_programs;
}
apply-IsValid r (add_program heap p) h = record {
  ready_build = h.ready_build;
  unique_threads = h.unique_threads;
  unique_programs = register_program_unique heap r p h;
}
apply-IsValid r (remove_program hash) h = record {
  ready_build = h.ready_build;
  unique_threads = h.unique_threads;
  unique_programs = erase-HasUniqueKeys ℕ_discrete hash r.programs h.unique_programs;
}
apply-IsValid r (configure_globals blocks fingerprint) h = record {
  ready_build = h.ready_build;
  unique_threads = h.unique_threads;
  unique_programs = h.unique_programs;
}
apply-IsValid r clear_globals h = record {
  ready_build = h.ready_build;
  unique_threads = h.unique_threads;
  unique_programs = h.unique_programs;
}

run-IsValid_from : (r : ScriptRuntime) (os : List Operation) → IsValid r → IsValid (run r os)
unfolding run
run-IsValid_from r [] h = h
run-IsValid_from r (o ∷ os) h = run-IsValid_from (apply r o) os (apply-IsValid r o h)

-- After any sequence of calls on a new runtime, it reports ready only if its build has a
-- fingerprint, and its tables hold each thread id and each program hash at most once.
pub run-IsValid : (os : List Operation) → IsValid (run new_runtime os)
run-IsValid os = run-IsValid_from new_runtime os new_runtime-IsValid
