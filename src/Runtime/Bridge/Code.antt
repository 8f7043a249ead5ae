-- ===== src/Runtime/Bridge/Code.antt =====
-- The code of the game under `Install` and `Uninstall` of GTA_Run_Script_Threads_Bridge.cpp.
use devilz_den.Prelude.{
  ℕ, ◌+◌, ◌%◌, ◌^◌, ◌≡◌, ◌≢◌, ◌⊎◌, inl, inr, refl, sym, ap, ◌∙◌, Bool, true, false, length, arith,
  Bool-cases, List,
}
use devilz_den.Backend.Range.{Memory, bytes_at, write_bytes, little_endian}
use devilz_den.Backend.Range.Writes.{
  in_block, write_bytes-outside, write_bytes-restore, length-bytes_at,
}
use devilz_den.Runtime.Bridge.{
  Bridge, Machine, CodeSystem, absolute_jump, write_executable, fill_trampoline, patch,
  finish_install, install_code, may_install, install, uninstall,
}

-- The block of the trampoline and the block of the patch.
abbrev pub in_trampoline : CodeSystem → ℕ → Bool
in_trampoline y x = in_block y.allocated 29 x

abbrev pub in_patch : ℕ → ℕ → Bool
in_patch address x = in_block address 15 x

fill_trampoline-outside :
    (y : CodeSystem) (m : Memory) (address x : ℕ)
    → in_trampoline y x ≡ false
    → fill_trampoline m y.allocated address x ≡ m x
unfolding fill_trampoline absolute_jump little_endian
fill_trampoline-outside y m address x o =
    write_bytes-outside (write_bytes m y.allocated (bytes_at m address 15)) (y.allocated + 15)
      (absolute_jump ((address + 15) % 2 ^ 64)) x (ground (arith, o))
    ∙ write_bytes-outside m y.allocated (bytes_at m address 15) x
        (ground (arith, o, length-bytes_at m address 15))

-- `Install` hands back what it was given, or it goes on to the code.
install-cases :
    (y : CodeSystem) (self : ℕ) (ready : Bool) (b : Bridge) (w : Machine)
    (address storage dispatch : ℕ)
    → (install y self ready b w address storage dispatch ≡ ((b, w), b.installed))
      ⊎ ((b.installed ≡ false)
          × (may_install y ready w address storage dispatch ≡ true)
          × (install y self ready b w address storage dispatch
              ≡ install_code y self b w address storage dispatch))
unfolding install
install-cases y self ready b w address storage dispatch = elim (Bool-cases b.installed) [
  | inl i ↦ inl (ground (arith, i))
  | inr n ↦ elim (Bool-cases (may_install y ready w address storage dispatch)) [
    | inl m ↦ inr (n, m, ground (arith, n, m))
    | inr m ↦ inl (ground (arith, n, m))
  ]
]

may_install-tests :
    (y : CodeSystem) (ready : Bool) (w : Machine) (address storage dispatch : ℕ)
    → may_install y ready w address storage dispatch ≡ true
    → (address ≢ 0) × (w.active ≡ 0)
unfolding may_install
may_install-tests y ready w address storage dispatch h = ground (arith, h)

write_executable-outside :
    (y : CodeSystem) (m : Memory) (address : ℕ) (bytes : List ℕ) (x : ℕ)
    → in_block address (length bytes) x ≡ false
    → (write_executable y m address bytes).0 x ≡ m x
unfolding write_executable
write_executable-outside y m address bytes x o =
    ground (arith, write_bytes-outside m address bytes x o)

write_executable-refused :
    (y : CodeSystem) (m : Memory) (address : ℕ) (bytes : List ℕ)
    → (y.unlocks ≡ true → y.locks ≡ true)
    → (write_executable y m address bytes).1 ≡ false
    → (write_executable y m address bytes).0 ≡ m
unfolding write_executable
write_executable-refused y m address bytes locks h = ground (arith, locks, h)

finish_install-refused :
    (self : ℕ) (b : Bridge) (x : Memory × Bool)
    → (finish_install self b x).1 ≡ false
    → (x.1 ≡ false)
      × ((finish_install self b x).0.0.installed ≡ b.installed)
      × ((finish_install self b x).0.1.active ≡ 0)
      × ((finish_install self b x).0.1.memory ≡ x.0)
unfolding finish_install
finish_install-refused self b (m, true) h = cc
finish_install-refused self b (m, false) h = (refl, refl, refl, refl)

-- A refused installation: the bridge is not installed, the active bridge is the same, and so is
-- the memory outside the block of the trampoline.
abbrev pub LeavesCode : CodeSystem → Machine → Bridge × Machine → Type 0
LeavesCode y w r =
    (r.0.installed ≡ false)
    × (r.1.active ≡ w.active)
    × ((x : ℕ) → in_trampoline y x ≡ false → r.1.memory x ≡ w.memory x)

install_code-refused :
    (y : CodeSystem) (self : ℕ) (b : Bridge) (w : Machine) (address storage dispatch : ℕ)
    → (y.unlocks ≡ true → y.locks ≡ true)
    → b.installed ≡ false
    → w.active ≡ 0
    → (install_code y self b w address storage dispatch).1 ≡ false
    → LeavesCode y w (install_code y self b w address storage dispatch).0
unfolding install_code
install_code-refused y self b w address storage dispatch locks n i h =
    let filled = fill_trampoline w.memory y.allocated address in
    let (refused, installed, active, memory) =
      finish_install-refused self _ (write_executable y filled address (patch y)) h in
    (
      installed ∙ n,
      active ∙ sym i,
      λ x o.
          ap (λ m. m x) (memory ∙ write_executable-refused y filled address (patch y) locks refused)
          ∙ fill_trampoline-outside y w.memory address x o,
    )

-- If `Install` says false, it has left the code of the game as it was: the bridge is not installed,
-- the active bridge is the same, and so is the memory outside the block of the trampoline. The
-- hypothesis is that the system locks the code again whenever it has unlocked it.
pub install-refused :
    (y : CodeSystem) (self : ℕ) (ready : Bool) (b : Bridge) (w : Machine)
    (address storage dispatch : ℕ)
    → (y.unlocks ≡ true → y.locks ≡ true)
    → (install y self ready b w address storage dispatch).1 ≡ false
    → LeavesCode y w (install y self ready b w address storage dispatch).0
install-refused y self ready b w address storage dispatch locks h =
    elim (install-cases y self ready b w address storage dispatch) [
      | inl e ↦ rw e (sym (ap (λ r. r.1) e) ∙ h, refl, λ x o. refl)
      | inr (n, m, e) ↦ rw e (
          install_code-refused y self b w address storage dispatch locks n
            (may_install-tests y ready w address storage dispatch m).1 (sym (ap (λ r. r.1) e) ∙ h))
    ]

-- An installation that went through.
finish_install-installed :
    (self : ℕ) (b : Bridge) (x : Memory × Bool)
    → (finish_install self b x).1 ≡ true
    → (x.1 ≡ true)
      × (finish_install self b x
          ≡ ((record b { installed = true }, record { memory = x.0; active = self }), true))
unfolding finish_install
finish_install-installed self b (m, true) h = (refl, refl)
finish_install-installed self b (m, false) h = cc

-- The jump that stands at the address after an installation.
write_executable-written :
    (y : CodeSystem) (m : Memory) (address : ℕ) (bytes : List ℕ)
    → (write_executable y m address bytes).1 ≡ true
    → (write_executable y m address bytes).0 ≡ write_bytes m address bytes
unfolding write_executable
write_executable-written y m address bytes h = ground (arith, h)

write_executable-original :
    (z : CodeSystem) (m k : Memory) (address : ℕ)
    → address ≢ 0
    → z.unlocks ≡ true
    → (write_executable z k address (bytes_at m address 15)).0
      ≡ write_bytes k address (bytes_at m address 15)
unfolding write_executable
write_executable-original z m k address n u = ground (arith, n, u, length-bytes_at m address 15)

patch-length : (y : CodeSystem) → length (patch y) ≡ 15
unfolding patch absolute_jump little_endian
patch-length y = refl

-- The memory between an installation and its end.
patched-outside :
    (y : CodeSystem) (m : Memory) (address x : ℕ)
    → in_trampoline y x ≡ false
    → in_patch address x ≡ false
    → write_bytes (fill_trampoline m y.allocated address) address (patch y) x ≡ m x
patched-outside y m address x o p =
    write_bytes-outside (fill_trampoline m y.allocated address) address (patch y) x
      (rw (patch-length y) p)
    ∙ fill_trampoline-outside y m address x o

-- What `Uninstall` does to an installed bridge.
uninstall-installed :
    (z : CodeSystem) (self : ℕ) (b : Bridge) (w : Machine)
    → b.installed ≡ true
    → b.target_address ≢ 0
    → w.active ≡ self
    → ((uninstall z self b w).0.installed ≡ false)
      × ((uninstall z self b w).1.active ≡ 0)
      × ((uninstall z self b w).1.memory
          ≡ (write_executable z w.memory b.target_address b.original_bytes).0)
unfolding uninstall
uninstall-installed z self b w i t a = ground (arith, i, t, a)

uninstall-install_code :
    (y z : CodeSystem) (self : ℕ) (b : Bridge) (w : Machine) (address storage dispatch : ℕ)
    → address ≢ 0
    → w.active ≡ 0
    → z.unlocks ≡ true
    → (install_code y self b w address storage dispatch).1 ≡ true
    → let (b', w') = (install_code y self b w address storage dispatch).0 in
      LeavesCode y w (uninstall z self b' w')
unfolding install_code
uninstall-install_code y z self b w address storage dispatch n i u h =
    let filled = fill_trampoline w.memory y.allocated address in
    let patched = write_bytes filled address (patch y) in
    let (written, done) =
      finish_install-installed self _ (write_executable y filled address (patch y)) h in
    let memory = write_executable-written y filled address (patch y) written in
    rw done (
      let (installed, active, restored) = uninstall-installed z self _ _ refl n refl in
      (
        installed,
        active ∙ sym i,
        λ x o.
            ap (λ m. m x) restored
            ∙ ap (λ m. (write_executable z m address (bytes_at w.memory address 15)).0 x) memory
            ∙ ap (λ m. m x) (write_executable-original z w.memory patched address n u)
            ∙ write_bytes-restore w.memory patched address 15 x
                (λ p. patched-outside y w.memory address x o p),
      ))

-- `Uninstall` undoes `Install`. If a bridge was installed, and the system unlocks the code when it is
-- uninstalled, then the memory outside the block of the trampoline is as it was before the
-- installation, the bridge is not installed and no bridge is active.
pub uninstall-install :
    (y z : CodeSystem) (self : ℕ) (ready : Bool) (b : Bridge) (w : Machine)
    (address storage dispatch : ℕ)
    → b.installed ≡ false
    → (install y self ready b w address storage dispatch).1 ≡ true
    → z.unlocks ≡ true
    → let (b', w') = (install y self ready b w address storage dispatch).0 in
      LeavesCode y w (uninstall z self b' w')
uninstall-install y z self ready b w address storage dispatch n h u =
    elim (install-cases y self ready b w address storage dispatch) [
      | inl e ↦ absurd (apart (sym n ∙ sym (ap (λ r. r.1) e) ∙ h))
      | inr (k, m, e) ↦
          let (present, idle) = may_install-tests y ready w address storage dispatch m in
          rw e (
            uninstall-install_code y z self b w address storage dispatch present idle u
              (sym (ap (λ r. r.1) e) ∙ h))
    ]
  where
    apart : false ≡ true → ⊥
    apart e = cc
