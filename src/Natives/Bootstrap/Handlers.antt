-- ===== src/Natives/Bootstrap/Handlers.antt =====
-- The handlers that the bootstrap of GTA_Native_Manager.cpp keeps, and when it keeps them.
use devilz_den.Prelude.{
  ℕ, suc, ◌≡◌, ◌≢◌, ◌↔◌, inl, inr, refl, sym, ◌∙◌, List, [], ◌∷◌, ◌++◌, Bool, true, false, some,
  length, get_or, ℕ_discrete, ite, arith, Bool-cases, none-some, some-inj,
}
use devilz_den.Prelude.Map
use devilz_den.Prelude.Map.{Map, insert_or_assign, find-insert_or_assign, find-nil}
use devilz_den.System.{SystemQuery, is_executable_image_address}
use devilz_den.Natives.Bootstrap.{
  NativeId, get_game_timer, get_hash_key, unnamed, timer_definition, hash_key_definition,
  supported_fingerprint, find_definition, Bootstrap, BootstrapStatus, new_bootstrap, probe_hashes,
  load_handlers, finish, load_definitions, initialize, find_hash, find_native,
}

-- A handler that may be called: it is not null and passes the test.
abbrev pub IsCallable : (ℕ → Bool) → ℕ → Type 0
IsCallable executable handler = (handler ≢ 0) × (executable handler ≡ true)

-- Every handler of a map may be called.
abbrev pub AreCallable : (ℕ → Bool) → Map ℕ ℕ → Type 0
AreCallable executable m =
    (hash handler : ℕ) → Map.find ℕ_discrete hash m ≡ some handler → IsCallable executable handler

-- For each hash, the entry that the game gave for it may be called.
abbrev pub EntriesCallable : (ℕ → Bool) → List ℕ → List ℕ → ℕ → Type 0
EntriesCallable executable entries [] i = Unit
EntriesCallable executable entries (hash ∷ hashes) i =
    IsCallable executable (get_or entries i 0) × EntriesCallable executable entries hashes (suc i)

-- The map that a complete loop leaves.
abbrev store_all : List ℕ → List ℕ → ℕ → Map ℕ ℕ → Map ℕ ℕ
store_all entries [] i m = m
store_all entries (hash ∷ hashes) i m =
    store_all entries hashes (suc i) (insert_or_assign ℕ_discrete hash (get_or entries i 0) m)

insert_or_assign-AreCallable :
    (executable : ℕ → Bool) (hash handler : ℕ) (m : Map ℕ ℕ)
    → IsCallable executable handler
    → AreCallable executable m
    → AreCallable executable (insert_or_assign ℕ_discrete hash handler m)
insert_or_assign-AreCallable executable hash handler m c a q v e =
    entry (ℕ_discrete hash q) (sym (find-insert_or_assign ℕ_discrete q hash handler m) ∙ e)
  where
    entry :
        (d : Dec (hash ≡ q))
        → ite d (some handler) (Map.find ℕ_discrete q m) ≡ some v
        → IsCallable executable v
    entry (yes d) h = rw (sym (some-inj h)) c
    entry (no d) h = a q v h

store_all-AreCallable :
    (executable : ℕ → Bool) (entries hashes : List ℕ) (i : ℕ) (m : Map ℕ ℕ)
    → AreCallable executable m
    → EntriesCallable executable entries hashes i
    → AreCallable executable (store_all entries hashes i m)
store_all-AreCallable executable entries [] i m a c = a
store_all-AreCallable executable entries (hash ∷ hashes) i m a c =
    store_all-AreCallable executable entries hashes (suc i)
      (insert_or_assign ℕ_discrete hash (get_or entries i 0) m)
      (insert_or_assign-AreCallable executable hash (get_or entries i 0) m c.0 a) c.1

-- The loop completes exactly if every entry may be called.
load_handlers_iff :
    (executable : ℕ → Bool) (entries hashes : List ℕ) (i : ℕ) (m : Map ℕ ℕ)
    → ((load_handlers executable entries hashes i m).1 ≡ true)
      ↔ EntriesCallable executable entries hashes i
unfolding load_handlers
load_handlers_iff executable entries [] i m = ground arith
load_handlers_iff executable entries (hash ∷ hashes) i m = ground (
  arith,
  load_handlers_iff executable entries hashes (suc i)
      (insert_or_assign ℕ_discrete hash (get_or entries i 0) m),
)

load_handlers_complete :
    (executable : ℕ → Bool) (entries hashes : List ℕ) (i : ℕ) (m : Map ℕ ℕ)
    → (load_handlers executable entries hashes i m).1 ≡ true
    → load_handlers executable entries hashes i m ≡ (store_all entries hashes i m, true)
unfolding load_handlers
load_handlers_complete executable entries [] i m e = refl
load_handlers_complete executable entries (hash ∷ hashes) i m e = ground (
  arith,
  load_handlers_complete executable entries hashes (suc i)
      (insert_or_assign ℕ_discrete hash (get_or entries i 0) m),
)

-- The hashes that a bootstrap of the supported build asks for.
abbrev pub requested_hashes : List ℕ
requested_hashes =
    probe_hashes ++ (timer_definition.enhanced_hash ∷ hash_key_definition.enhanced_hash ∷ [])

store_all-length : (entries : List ℕ) → length (store_all entries requested_hashes 0 []) ≡ 6
unfolding insert_or_assign ℕ_discrete
store_all-length entries = refl

store_all-timer :
    (entries : List ℕ)
    → Map.find ℕ_discrete timer_definition.enhanced_hash (store_all entries requested_hashes 0 [])
      ≡ some (get_or entries 4 0)
unfolding insert_or_assign ℕ_discrete Map.find
store_all-timer entries = refl

store_all-hash_key :
    (entries : List ℕ)
    → Map.find ℕ_discrete hash_key_definition.enhanced_hash
        (store_all entries requested_hashes 0 [])
      ≡ some (get_or entries 5 0)
unfolding insert_or_assign ℕ_discrete Map.find
store_all-hash_key entries = refl

-- The ids that have a name.
abbrev pub is_named : NativeId → Bool
is_named get_game_timer = true
is_named get_hash_key = true
is_named (unnamed value) = false

-- A manager between calls: all its handlers may be called, a ready manager has a handler for each
-- named native of the supported build, and a manager that is not ready is empty.
pub record IsBootstrapped (executable : ℕ → Bool) (b : Bootstrap) : Type 0 where
  pub callable : AreCallable executable b.handlers
  pub complete :
      b.ready ≡ true
      → (b.fingerprint ≡ supported_fingerprint)
        × ((id : NativeId) → is_named id ≡ true → IsCallable executable (find_native b id))
  pub empty : b.ready ≡ false → b ≡ new_bootstrap

new_bootstrap-IsBootstrapped : (executable : ℕ → Bool) → IsBootstrapped executable new_bootstrap
new_bootstrap-IsBootstrapped executable = record {
  callable = λ hash handler e. absurd (none-some (sym (find-nil {V = ℕ} ℕ_discrete hash) ∙ e));
  complete = λ e. absurd (refuted e);
  empty = λ _. refl;
}
  where
    refuted : false ≡ true → ⊥
    refuted e = cc

-- A manager that holds the handlers of all the requested hashes.
filled : List ℕ → Bootstrap
filled entries = record {
  ready = true;
  fingerprint = supported_fingerprint;
  handlers = store_all entries requested_hashes 0 [];
}

filled-IsBootstrapped :
    (executable : ℕ → Bool) (entries : List ℕ)
    → EntriesCallable executable entries requested_hashes 0
    → IsBootstrapped executable (filled entries)
unfolding filled find_native find_definition find_hash
filled-IsBootstrapped executable entries c = record {
  callable =
      store_all-AreCallable executable entries requested_hashes 0 []
        (new_bootstrap-IsBootstrapped executable).callable c;
  complete = λ _. (refl, found);
  empty = λ e. absurd (refuted e);
}
  where
    refuted : true ≡ false → ⊥
    refuted e = cc

    found :
        (id : NativeId)
        → is_named id ≡ true
        → IsCallable executable (find_native (filled entries) id)
    found get_game_timer n = rw (store_all-timer entries) c.1.1.1.1.0
    found get_hash_key n = rw (store_all-hash_key entries) c.1.1.1.1.1.0
    found (unnamed value) n = absurd (refuted (sym n))

-- What `Initialize` makes of the entries that the game filled in.
abbrev Loaded : (ℕ → Bool) → List ℕ → Bootstrap × BootstrapStatus → Type 0
Loaded executable entries r =
    IsBootstrapped executable r.0
    × (r.1.ready ≡ r.0.ready)
    × ((r.1.ready ≡ true) ↔ EntriesCallable executable entries requested_hashes 0)

finish-refused :
    (executable : ℕ → Bool) (fingerprint requested : ℕ) (x : Map ℕ ℕ × Bool)
    → x.1 ≡ false
    → IsBootstrapped executable (finish fingerprint requested x).0
      × ((finish fingerprint requested x).1.ready ≡ (finish fingerprint requested x).0.ready)
      × ((finish fingerprint requested x).1.ready ≡ false)
unfolding finish
finish-refused executable fingerprint requested (handlers, false) e =
    (new_bootstrap-IsBootstrapped executable, refl, refl)
finish-refused executable fingerprint requested (handlers, true) e = cc

finish-Loaded :
    (executable : ℕ → Bool) (entries : List ℕ)
    → Loaded executable entries
        (finish supported_fingerprint 6 (load_handlers executable entries requested_hashes 0 []))
unfolding finish filled
finish-Loaded executable entries =
    let iff = load_handlers_iff executable entries requested_hashes 0 [] in
    elim (Bool-cases (load_handlers executable entries requested_hashes 0 []).1) [
      | inl h ↦ rw (load_handlers_complete executable entries requested_hashes 0 [] h) (
          rw (store_all-length entries)
            (filled-IsBootstrapped executable entries (iff.0 h), refl, (λ _. iff.0 h, λ _. refl)))
      | inr h ↦
          let (valid, same, unready) =
            finish-refused executable supported_fingerprint 6
              (load_handlers executable entries requested_hashes 0 []) h in
          (
            valid,
            same,
            (λ e. absurd (apart (sym unready ∙ e)), λ c. absurd (apart (sym h ∙ iff.1 c))),
          )
    ]
  where
    apart : false ≡ true → ⊥
    apart e = cc

-- What `Initialize` asks for before it calls into the game.
abbrev pub MayBootstrap : SystemQuery → ℕ → ℕ → ℕ → ℕ → Type 0
MayBootstrap query init_native_tables module_base module_size fingerprint =
    (init_native_tables ≢ 0)
    × (module_base ≢ 0)
    × (module_size ≢ 0)
    × (fingerprint ≡ supported_fingerprint)
    × (is_executable_image_address query module_base module_size init_native_tables ≡ true)

-- `Initialize`, on every branch and from every manager. It leaves a manager whose handlers are all
-- executable addresses of the game's image and that is complete if it is ready and empty if it is
-- not; the status that it returns agrees with the manager. It gets ready exactly if the
-- prerequisites hold, the build is the supported one, and each of the six entries that the game
-- filled in is an executable address of the image.
pub initialize-IsBootstrapped :
    (query : SystemQuery) (game : ℕ → List ℕ → List ℕ) (b : Bootstrap)
    (init_native_tables module_base module_size fingerprint : ℕ)
    → let executable = is_executable_image_address query module_base module_size in
      let r = initialize query game b init_native_tables module_base module_size fingerprint in
      IsBootstrapped executable r.0
      × (r.1.ready ≡ r.0.ready)
      × ((r.1.ready ≡ true) ↔ (
          MayBootstrap query init_native_tables module_base module_size fingerprint
          × EntriesCallable executable
              (game init_native_tables requested_hashes)
              requested_hashes
              0))
unfolding initialize load_definitions find_definition
initialize-IsBootstrapped query game b init_native_tables module_base module_size fingerprint =
    let executable = is_executable_image_address query module_base module_size in
    let loaded = finish-Loaded executable (game init_native_tables requested_hashes) in
    ground (arith, loaded, new_bootstrap-IsBootstrapped executable)
