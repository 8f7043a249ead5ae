-- ===== src/Script/Tables/Threads.antt =====
-- What the thread table answers after a registration, and while the threads change.
use devilz_den.Prelude.{ℕ, ◌≡◌, ◌≢◌, ite, List, [], ◌∷◌, arith, ◌↔◌, ◌⊎◌, true, ℕ_discrete}
use devilz_den.Prelude.Map
use devilz_den.Prelude.Map.{
  Map, HasUniqueKeys, find-insert_or_assign, insert_or_assign-HasUniqueKeys,
}
use devilz_den.Backend.Error.{has_value}
use devilz_den.Script.Tables.{
  Threads, Vm, is_running, register_thread, find_thread, running_threads,
}

-- The address is one of the list.
abbrev pub Has : ℕ → List ℕ → Type 0
Has p [] = ⊥
Has p (q ∷ l) = (q ≡ p) ⊎ Has p l

-- An accepted thread is found under the id that it had then, whatever becomes of the thread
-- later, and every other id keeps its thread.
register_thread-find_thread :
    (heap : Threads) (vm : Vm) (thread id : ℕ)
    → has_value (register_thread heap vm thread).1 ≡ true
    → find_thread (register_thread heap vm thread).0 id
      ≡ ite (ℕ_discrete (heap thread).context.thread_id id) thread (find_thread vm id)
unfolding register_thread find_thread
register_thread-find_thread heap vm thread id h =
    ground (arith, find-insert_or_assign ℕ_discrete id (heap thread).context.thread_id thread vm)

-- The running threads are those that some id is registered for and that run at the time of
-- the query, whatever their states were when they were registered.
running_threads-Has :
    (heap : Threads) (vm : Vm) (thread : ℕ)
    → thread ≢ 0
    → HasUniqueKeys ℕ_discrete vm
    → Has thread (running_threads heap vm)
      ↔ ((is_running (heap thread) ≡ true) × Has thread (Map.values vm))
unfolding running_threads
running_threads-Has heap [] thread h u = ground arith
running_threads-Has heap ((i, t) ∷ vm) thread h u =
    ground (arith, running_threads-Has heap vm thread h u.1)
