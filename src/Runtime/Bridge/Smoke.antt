-- ===== src/Runtime/Bridge/Smoke.antt =====
-- The one native call of GTA_Run_Script_Threads_Bridge.cpp: the thread it is made as, and what it leaves
-- behind.
use devilz_den.Prelude.{
  ℕ, zero, suc, ◌+◌, ◌≡◌, ◌≢◌, ◌↔◌, ◌⊎◌, some-inj, none-some, inl, inr, sym, ap, ◌∙◌, true, false,
  not, ◌||◌, arith, Bool-cases, Option-cases, some, [], ◌∷◌, ◌==◌, false,
}
use devilz_den.Prelude.Map.{has_value}
use devilz_den.Backend.Range.{Memory, read_bytes, bytes_at, write_bytes, little_endian}
use devilz_den.Backend.Range.Writes.{in_block, write_bytes-restore}
use devilz_den.System.{SystemQuery, is_readable_address}
use devilz_den.Natives.Bootstrap.{Bootstrap, invoke, get_game_timer}
use devilz_den.Runtime.Bridge.{
  Bridge, find_slot, find_validated_script_thread, GameCode, call_as_thread, smoke_as,
  try_native_smoke,
}

-- An object that the memory shows to be a script thread: it can be read, and its first word is
-- the address of the dispatch table.
abbrev pub IsThread : SystemQuery → Memory → ℕ → ℕ → Type 0
IsThread query m dispatch candidate =
    (is_readable_address query candidate 8 ≡ true) × (read_bytes m candidate 8 ≡ dispatch)

find_slot-IsThread :
    (query : SystemQuery) (m : Memory) (slots dispatch i left candidate : ℕ)
    → find_slot query m slots dispatch i left ≡ some candidate
    → IsThread query m dispatch candidate
unfolding find_slot
find_slot-IsThread query m slots dispatch i zero candidate h = cc
find_slot-IsThread query m slots dispatch i (suc left) candidate h =
    ground (arith, h, find_slot-IsThread query m slots dispatch (suc i) left candidate)

find_validated_script_thread-IsThread :
    (query : SystemQuery) (m : Memory) (b : Bridge) (candidate : ℕ)
    → find_validated_script_thread query m b ≡ some candidate
    → IsThread query m b.dispatch_address candidate
unfolding find_validated_script_thread
find_validated_script_thread-IsThread query m b candidate h = ground (
  arith,
  h,
  find_slot-IsThread query m (read_bytes m b.storage_address 8) b.dispatch_address 0 8 candidate,
)

-- Two writes that put the bytes of two neighbouring blocks back.
call_as_thread-restores :
    (m : Memory) (game : Memory → Memory) (tls thread x : ℕ)
    → in_block (tls + 1952) 9 x ≡ true
    → call_as_thread m game tls thread x ≡ m x
unfolding call_as_thread
call_as_thread-restores m game tls thread x h =
    let entered =
      write_bytes (write_bytes m (tls + 1952) (little_endian 8 thread)) (tls + 1960) (1 ∷ []) in
    let first = write_bytes (game entered) (tls + 1960) (bytes_at m (tls + 1960) 1) in
    write_bytes-restore m first (tls + 1952) 8 x
      (λ o. write_bytes-restore m (game entered) (tls + 1960) 1 x (λ p. absurd (nowhere o p)))
  where
    nowhere : in_block (tls + 1952) 8 x ≡ false → in_block (tls + 1960) 1 x ≡ false → ⊥
    nowhere o p = ground (arith, h, o, p)

-- The memory in which a call is made as a thread: the fields of the thread-local context at `tls` say
-- that this thread runs.
abbrev pub entered_as : Memory → ℕ → ℕ → Memory
entered_as m tls thread =
    write_bytes (write_bytes m (tls + 1952) (little_endian 8 thread)) (tls + 1960) (1 ∷ [])

-- The native can be called as a thread: the thread-local context that the array at `tls_array` points
-- to can be read, and the call made there gives a result.
abbrev pub Answers : SystemQuery → GameCode → Bootstrap → Memory → ℕ → ℕ → Type 0
Answers query game natives m tls_array thread =
    let tls = read_bytes m tls_array 8 in
    (is_readable_address query tls_array 8 ≡ true)
    × (tls ≢ 0)
    × (is_readable_address query tls 1968 ≡ true)
    × (has_value
          (invoke (game.handlers (entered_as m tls thread)) natives game.vectors get_game_timer []
            4).1
        ≡ true)

-- A bridge that is attached, makes no other attempt and has a native manager that is ready calls the
-- native as the thread that it finds, which can be read and whose first word is the expected
-- dispatch table; the call gives a result.
abbrev pub CanCall : SystemQuery → GameCode → Bootstrap → Bridge → Memory → ℕ → ℕ → Type 0
CanCall query game natives b m tls_array thread =
    (b.smoke_attempting ≡ false)
    × (b.attached ≡ true)
    × (natives.ready ≡ true)
    × (find_validated_script_thread query m b ≡ some thread)
    × IsThread query m b.dispatch_address thread
    × Answers query game natives m tls_array thread

-- What the attempt leaves: the lock is released, the fields of the thread-local context hold what
-- they held, and the attempt counts as completed exactly if it did before or the call is made; and
-- where the call is made, the memory is the one that it leaves.
abbrev pub LeavesContext :
    SystemQuery → GameCode → Bootstrap → Bridge → Memory → ℕ → Bridge × Memory → Type 0
LeavesContext query game natives b m tls_array r =
    (r.0.smoke_attempting ≡ b.smoke_attempting)
    × ((x : ℕ) → in_block (read_bytes m tls_array 8 + 1952) 9 x ≡ true → r.1 x ≡ m x)
    × ((r.0.smoke_completed ≡ true) ↔ (
        (b.smoke_completed ≡ true)
        ⊎ ((thread : ℕ) × CanCall query game natives b m tls_array thread)))
    × ((thread : ℕ)
        → CanCall query game natives b m tls_array thread
        → r.1 ≡ call_as_thread m game.after (read_bytes m tls_array 8) thread)

-- The call of a thread is made, or the attempt counts as it did.
smoke_as-cases :
    (query : SystemQuery) (game : GameCode) (natives : Bootstrap) (b : Bridge) (m : Memory)
    (tls_array thread : ℕ)
    → let r = smoke_as query game natives b m tls_array thread in
      (Answers query game natives m tls_array thread
        × (r.0.smoke_completed ≡ true)
        × (r.1 ≡ call_as_thread m game.after (read_bytes m tls_array 8) thread))
      ⊎ ((Answers query game natives m tls_array thread → ⊥)
          × (r.0.smoke_completed ≡ b.smoke_completed))
unfolding smoke_as
smoke_as-cases query game natives b m tls_array thread =
    let tls = read_bytes m tls_array 8 in
    let ran =
      has_value
        (invoke (game.handlers (entered_as m tls thread)) natives game.vectors get_game_timer []
          4).1 in
    elim (Bool-cases (is_readable_address query tls_array 8)) [
      | inr n ↦ inr (λ a. ground (arith, n, a.0), ground (arith, n))
      | inl y ↦ elim (Bool-cases (tls == 0 || not (is_readable_address query tls 1968))) [
        | inl n ↦ inr (λ a. ground (arith, n, a.1, a.2), ground (arith, y, n))
        | inr n ↦ elim (Bool-cases ran) [
          | inr k ↦ inr (λ a. ground (arith, k, a.3), ground (arith, y, n, k))
          | inl k ↦ inl (
            (y, ground (arith, n), ground (arith, n), k),
            ground (arith, y, n, k),
            ground (arith, y, n, k),
          )
        ]
      ]
    ]

smoke_as-restores :
    (query : SystemQuery) (game : GameCode) (natives : Bootstrap) (b : Bridge) (m : Memory)
    (tls_array thread : ℕ)
    → ((smoke_as query game natives b m tls_array thread).0.smoke_attempting ≡ false)
      × ((x : ℕ)
          → in_block (read_bytes m tls_array 8 + 1952) 9 x ≡ true
          → (smoke_as query game natives b m tls_array thread).1 x ≡ m x)
unfolding smoke_as
smoke_as-restores query game natives b m tls_array thread = (
  ground arith,
  λ x h.
      let tls = read_bytes m tls_array 8 in
      ground (
        arith,
        call_as_thread-restores m game.after tls thread x h,
        call_as_thread-restores m (λ k. k) tls thread x h,
      ),
)

-- The bridge and the memory that a call of `TryNativeSmoke` works on.
abbrev attempt : SystemQuery → GameCode → Bootstrap → Bridge → Memory → ℕ → Bridge × Memory
attempt query game natives b m tls_array = try_native_smoke query game natives b m tls_array

-- The attempt does nothing, and no call is possible.
IsIdle : SystemQuery → GameCode → Bootstrap → Bridge → Memory → ℕ → Type 0
IsIdle query game natives b m tls_array =
    ((attempt query game natives b m tls_array).0.smoke_attempting ≡ b.smoke_attempting)
    × ((attempt query game natives b m tls_array).0.smoke_completed ≡ b.smoke_completed)
    × ((attempt query game natives b m tls_array).1 ≡ m)
    × ((thread : ℕ) → CanCall query game natives b m tls_array thread → ⊥)

-- An attempt does nothing, or it is made as a thread that was found.
attempt-cases :
    (query : SystemQuery) (game : GameCode) (natives : Bootstrap) (b : Bridge) (m : Memory)
    (tls_array : ℕ)
    → IsIdle query game natives b m tls_array
      ⊎ ((thread : ℕ) × (b.smoke_attempting ≡ false)
          × (b.attached ≡ true)
          × (natives.ready ≡ true)
          × (find_validated_script_thread query m b ≡ some thread)
          × (attempt query game natives b m tls_array
              ≡ smoke_as query game natives
                  (record b { smoke_attempting = true })
                  m
                  tls_array
                  thread))
unfolding try_native_smoke IsIdle
attempt-cases query game natives b m tls_array = elim (Bool-cases b.smoke_attempting) [
  | inl a ↦
      inl (ground (arith, a), ground (arith, a), ground (arith, a), λ t k. ground (arith, a, k.0))
  | inr n ↦ elim (Bool-cases (not b.attached || not natives.ready)) [
    | inl r ↦ inl (
      ground (arith, n, r),
      ground (arith, n, r),
      ground (arith, n, r),
      λ t k. ground (arith, r, k.1, k.2),
    )
    | inr k ↦ elim (Option-cases (find_validated_script_thread query m b)) [
      | inl o ↦ inl (
        ground (arith, n, k, o),
        ground (arith, n, k, o),
        ground (arith, n, k, o),
        λ t c. absurd (none-some (sym o ∙ c.3)),
      )
      | inr (thread, f) ↦
          inr (thread, n, ground (arith, k), ground (arith, k), f, ground (arith, n, k, f))
    ]
  ]
]

-- An attempt as a thread that was found counts as completed exactly if the call can be made.
smoke_as-called :
    (query : SystemQuery) (game : GameCode) (natives : Bootstrap) (b : Bridge) (m : Memory)
    (tls_array thread : ℕ)
    → b.smoke_attempting ≡ false
    → b.attached ≡ true
    → natives.ready ≡ true
    → find_validated_script_thread query m b ≡ some thread
    → let r =
        smoke_as query game natives (record b { smoke_attempting = true }) m tls_array thread in
      ((r.0.smoke_completed ≡ true)
        ↔ ((b.smoke_completed ≡ true) ⊎ ((t : ℕ) × CanCall query game natives b m tls_array t)))
      × ((t : ℕ)
          → CanCall query game natives b m tls_array t
          → r.1 ≡ call_as_thread m game.after (read_bytes m tls_array 8) t)
smoke_as-called query game natives b m tls_array thread n attached ready f =
    elim (smoke_as-cases query game natives (record b { smoke_attempting = true }) m tls_array
      thread) [
        | inl (answers, done, memory) ↦ (
          (
            λ _. inr (
              thread,
              (
                n,
                attached,
                ready,
                f,
                find_validated_script_thread-IsThread query m b thread f,
                answers,
              ),
            ),
            λ _. done,
          ),
          λ t k.
              memory
              ∙ ap (call_as_thread m game.after (read_bytes m tls_array 8))
                  (some-inj (sym f ∙ k.3)),
        )
        | inr (stuck, same) ↦ (
          (
            λ h. inl (sym same ∙ h),
            λ h. elim h [ inl d ↦ same ∙ d | inr (t, k) ↦ absurd (stuck (answering t k)) ],
          ),
          λ t k. absurd (stuck (answering t k)),
        )
      ]
  where
    answering :
        (t : ℕ)
        → CanCall query game natives b m tls_array t
        → Answers query game natives m tls_array thread
    answering t k = rw (some-inj (sym f ∙ k.3)) k.5

-- An attempt at the native call leaves no trace of itself. The flag of the attempt is as before, and
-- the nine bytes of the thread-local context that were set for the call hold what they held, whatever
-- the game's code did. The attempt counts as completed exactly if it did before, or if the bridge
-- is attached and makes no other attempt, the natives are ready, a thread was found that can be read and whose first word is the expected dispatch table, and
-- the native, called in a memory whose thread-local context names that thread, gives a result; then
-- the memory is what that call leaves.
pub try_native_smoke-LeavesContext :
    (query : SystemQuery) (game : GameCode) (natives : Bootstrap) (b : Bridge) (m : Memory)
    (tls_array : ℕ)
    → LeavesContext query game natives b m tls_array
        (try_native_smoke query game natives b m tls_array)
unfolding IsIdle
try_native_smoke-LeavesContext query game natives b m tls_array =
    elim (attempt-cases query game natives b m tls_array) [
      | inl (a, c, e, stuck) ↦ (
        a,
        λ x h. ap (λ k. k x) e,
        (
          λ h. inl (sym c ∙ h),
          λ h. elim h [ inl d ↦ c ∙ d | inr (thread, k) ↦ absurd (stuck thread k) ],
        ),
        λ thread k. absurd (stuck thread k),
      )
      | inr (thread, n, attached, ready, f, e) ↦
          let trying = record b { smoke_attempting = true } in
          let (released, restored) =
            smoke_as-restores query game natives trying m tls_array thread in
          let (completed, memory) =
            smoke_as-called query game natives b m tls_array thread n attached ready f in
          rw e (released ∙ sym n, restored, completed, memory)
    ]
