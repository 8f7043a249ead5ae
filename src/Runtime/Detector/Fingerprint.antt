-- ===== src/Runtime/Detector/Fingerprint.antt =====
-- The fingerprint that Runtime/Build_Info_Detector.cpp gives a build.
use devilz_den.Prelude.{
  ℕ, zero, suc, ◌+◌, ◌/◌, ◌%◌, ◌^◌, ◌<◌, ◌≡◌, ◌≢◌, ◌⊎◌, refl, ap, subst, ◌∙◌, List, Option, none,
  some, arith, Bool-cases, inl, inr, All, false, Text, ◌==◌, [], ◌∷◌,
}
use devilz_den.Backend.Error.{success}
use devilz_den.Backend.Range.{Memory, read_bytes}
use devilz_den.Natives.Manager.{BuildInfo}
use devilz_den.Runtime.Detector.{
  ProcessInfo, ImageSystem, make_build_info, detect_loaded_image, detect_file, detect, file_memory,
}

-- Each byte is below 256.
abbrev pub IsBytes : Memory → Type 0
IsBytes memory = (a : ℕ) → memory a < 256

-- The headers of a portable executable at an address and, from `nt` on, at another: the first
-- begins with "MZ", the second with "PE"; the file header behind the four bytes of that signature has
-- the time stamp at its byte 4, and the optional header behind the 20 bytes of the file header
-- has the size of the image at its byte 56.
pub record HasHeaders (memory : Memory) (base nt timestamp image_size : ℕ) : Type 0 where
  pub dos : read_bytes memory base 2 ≡ 23117
  pub new : read_bytes memory nt 4 ≡ 17744
  pub stamped : read_bytes memory (nt + 4 + 4) 4 ≡ timestamp
  pub sized : read_bytes memory (nt + 4 + 20 + 56) 4 ≡ image_size

-- A build is that of the headers there: its fingerprint holds their time stamp and image size.
pub record IsIdentified (build : BuildInfo) (memory : Memory) (base nt : ℕ) : Type 0 where
  pub headers : HasHeaders memory base nt (build.fingerprint / 2 ^ 32) (build.fingerprint % 2 ^ 32)
  pub timestamp : build.fingerprint / 2 ^ 32 ≡ build.pe_timestamp
  pub size : build.fingerprint % 2 ^ 32 ≡ build.image_size
  pub identified : build.fingerprint ≢ 0

-- The build of the loaded image of the current process, or of the file of another process.
abbrev pub IsDetected : ImageSystem → ProcessInfo → BuildInfo → Type 0
IsDetected s p build =
    ((p.pid ≡ s.current_process_id)
      × IsIdentified build s.memory s.module_handle
          ((s.module_handle + read_bytes s.memory (s.module_handle + 60) 4) % 2 ^ 64))
    ⊎ ((p.pid ≢ s.current_process_id)
        × ((bytes : List ℕ) × (s.open_file p.executable_path ≡ some bytes)
            × IsIdentified build (file_memory bytes) 0 (read_bytes (file_memory bytes) 60 4)))

read_bytes4_bound : (m : Memory) (a : ℕ) → IsBytes m → read_bytes m a 4 < 2 ^ 32
unfolding read_bytes
read_bytes4_bound m a h = omega (arith, h a, h (suc a), h (suc (suc a)), h (suc (suc (suc a))))

-- A build that was made of two fields of 32 bits, the second not 0, of headers.
abbrev IsBuilt : BuildInfo → ProcessInfo → Memory → ℕ → ℕ → Type 0
IsBuilt build p memory base nt =
    (timestamp : ℕ) × (image_size : ℕ) × HasHeaders memory base nt timestamp image_size
    × (make_build_info p timestamp image_size ≡ build)
    × (image_size ≢ 0)

make_build_info-IsIdentified :
    (p : ProcessInfo) (memory : Memory) (base nt timestamp image_size : ℕ)
    → timestamp < 2 ^ 32
    → image_size < 2 ^ 32
    → image_size ≢ 0
    → HasHeaders memory base nt timestamp image_size
    → IsIdentified (make_build_info p timestamp image_size) memory base nt
unfolding make_build_info
make_build_info-IsIdentified p memory base nt timestamp image_size t s n h = record {
  headers = record {
    dos = h.dos;
    new = h.new;
    stamped = h.stamped ∙ omega (arith, t, s);
    sized = h.sized ∙ omega (arith, t, s);
  };
  timestamp = omega (arith, t, s);
  size = omega (arith, t, s);
  identified = λ e. n (omega (arith, e));
}

file_memory-IsBytes : (bytes : List ℕ) → All (λ b. b < 256) bytes → IsBytes (file_memory bytes)
file_memory-IsBytes [] h a = omega arith
file_memory-IsBytes (b ∷ bytes) h zero = h.0
file_memory-IsBytes (b ∷ bytes) h (suc a) = file_memory-IsBytes bytes h.1 a

detect_loaded_image-IsBuilt :
    (s : ImageSystem) (p : ProcessInfo) (build : BuildInfo)
    → detect_loaded_image s p ≡ success build
    → IsBuilt build p s.memory s.module_handle
        ((s.module_handle + read_bytes s.memory (s.module_handle + 60) 4) % 2 ^ 64)
unfolding detect_loaded_image
detect_loaded_image-IsBuilt s p build e =
    let nt = (s.module_handle + read_bytes s.memory (s.module_handle + 60) 4) % 2 ^ 64 in
    (
      read_bytes s.memory (nt + 8) 4,
      read_bytes s.memory (nt + 80) 4,
      record {
        dos = ground (arith, e);
        new = ground (arith, e);
        stamped = ap (λ a. read_bytes s.memory a 4) {x = nt + 4 + 4} {y = nt + 8} (omega arith);
        sized =
            ap (λ a. read_bytes s.memory a 4) {x = nt + 4 + 20 + 56} {y = nt + 80} (omega arith);
      },
      ground (arith, e),
      ground (arith, e),
    )

detect_file-IsBuilt :
    (p : ProcessInfo) (bytes : List ℕ) (build : BuildInfo)
    → detect_file p bytes ≡ success build
    → IsBuilt build p (file_memory bytes) 0 (read_bytes (file_memory bytes) 60 4)
unfolding detect_file
detect_file-IsBuilt p bytes build e =
    let memory = file_memory bytes in
    let nt = read_bytes memory 60 4 in
    (
      read_bytes memory (nt + 8) 4,
      read_bytes memory (nt + 80) 4,
      record {
        dos = ground (arith, e);
        new = ground (arith, e);
        stamped = ap (λ a. read_bytes memory a 4) {x = nt + 4 + 4} {y = nt + 8} (omega arith);
        sized = ap (λ a. read_bytes memory a 4) {x = nt + 4 + 20 + 56} {y = nt + 80} (omega arith);
      },
      ground (arith, e),
      ground (arith, e),
    )

IsBuilt-IsIdentified :
    (memory : Memory) (p : ProcessInfo) (build : BuildInfo) (base nt : ℕ)
    → IsBytes memory
    → IsBuilt build p memory base nt
    → IsIdentified build memory base nt
IsBuilt-IsIdentified memory p build base nt h (t, i, k, e, n) =
    subst (λ b. IsIdentified b memory base nt) e
      (make_build_info-IsIdentified p memory base nt t i (bounded _ k.stamped) (bounded _ k.sized) n
        k)
  where
    bounded : (a : ℕ) {x : ℕ} → read_bytes memory a 4 ≡ x → x < 2 ^ 32
    bounded a q = subst (λ y. y < 2 ^ 32) q (read_bytes4_bound memory a h)

detect-source :
    (s : ImageSystem) (p : ProcessInfo) (build : BuildInfo)
    → detect s p ≡ success build
    → ((p.pid ≡ s.current_process_id) × (detect_loaded_image s p ≡ success build))
      ⊎ ((p.pid ≢ s.current_process_id)
          × ((bytes : List ℕ) × (s.open_file p.executable_path ≡ some bytes)
              × (detect_file p bytes ≡ success build)))
unfolding detect
detect-source s p build e = elim (Bool-cases (p.pid == s.current_process_id)) [
  | inl h ↦ inl (ground (arith, h), ground (arith, e, h))
  | inr h ↦ inr (ground (arith, h), source (s.open_file p.executable_path) refl h)
]
  where
    source :
        (o : Option (List ℕ))
        → s.open_file p.executable_path ≡ o
        → (p.pid == s.current_process_id) ≡ false
        → (bytes : List ℕ) × (s.open_file p.executable_path ≡ some bytes)
          × (detect_file p bytes ≡ success build)
    source none q h = absurd (ground (arith, e, q, h))
    source (some bytes) q h = (bytes, q, ground (arith, e, q, h))

-- A detected build is that of the loaded image for the current process, and of its file for another
-- one: there stand the headers of a portable executable, the fingerprint is not 0, and it gives back
-- their time stamp and image size, which are also the fields of the build. The hypotheses say that
-- the bytes of the memory and of the files are below 256.
pub detect-IsIdentified :
    (s : ImageSystem) (p : ProcessInfo) (build : BuildInfo)
    → IsBytes s.memory
    → ((path : Text) (bytes : List ℕ) → s.open_file path ≡ some bytes → All (λ b. b < 256) bytes)
    → detect s p ≡ success build
    → IsDetected s p build
detect-IsIdentified s p build h files e = elim (detect-source s p build e) [
  | inl (c, k) ↦
      inl (c, IsBuilt-IsIdentified s.memory p build _ _ h (detect_loaded_image-IsBuilt s p build k))
  | inr (c, (bytes, q, k)) ↦ inr (
    c,
    (
      bytes,
      q,
      IsBuilt-IsIdentified (file_memory bytes) p build _ _
          (file_memory-IsBytes bytes (files p.executable_path bytes q))
          (detect_file-IsBuilt p bytes build k),
    ),
  )
]
