-- ===== src/Runtime/Detector.antt =====
-- Runtime/Build_Info_Detector.cpp and the record of Backend/Process/Process_Info.hpp: the build of a game
-- executable, from the headers of its loaded image or of its file. The memory of the process, the
-- handle of its module and the bytes of a file are parameters.
pub mod Fingerprint
use devilz_den.Prelude.{
  ℕ, ◌+◌, ◌*◌, ◌%◌, ◌^◌, List, ◌++◌, Bool, not, ◌&&◌, ◌||◌, Option, none, some, ◌==◌, if◌then◌else◌,
  length, leb, ltb, get_or, Text, codes,
}
use devilz_den.Prelude.Numbers.{to_string}
use devilz_den.Backend.Error.{
  Result, success, failure, make_error, from_win32, with_context, fail_runtime, ErrorCode,
  ErrorCategory,
}
use devilz_den.Backend.Range.{Memory, read_bytes}
use devilz_den.Natives.Manager.{BuildInfo}

pub data ProcessArchitecture : Type 0 where
  unknown x86 x64 arm64 : ProcessArchitecture

pub record ProcessInfo : Type 0 where
  pub pid : ℕ
  pub executable_name : Text
  pub executable_path : Text
  pub architecture : ProcessArchitecture
  pub running : Bool

-- `Process_Info::Valid`.
abbrev pub is_valid_process : ProcessInfo → Bool
is_valid_process p = not (p.pid == 0) && p.running && not (length p.executable_name == 0)

-- What the operating system answers: the id of the current process, the address of its image (or
-- the code of the error), its memory, and the bytes of a file that can be opened.
pub record ImageSystem : Type 0 where
  pub current_process_id : ℕ
  pub module_handle : ℕ
  pub last_error : ℕ
  pub memory : Memory
  pub open_file : Text → Option (List ℕ)

-- `MakeBuildInfo`.
unfoldable pub make_build_info : ProcessInfo → ℕ → ℕ → BuildInfo
make_build_info p timestamp image_size = record {
  version = codes "PE-" ++ to_string timestamp ++ codes "-" ++ to_string image_size;
  pe_timestamp = timestamp;
  image_size = image_size;
  text_hash = 0;
  rdata_hash = 0;
  fingerprint = timestamp * 2 ^ 32 + image_size;
  executable_path = p.executable_path;
}

-- IMAGE_DOS_SIGNATURE, IMAGE_NT_SIGNATURE and the magics of the optional headers.
abbrev pub dos_signature : ℕ
dos_signature = 23117

abbrev pub nt_signature : ℕ
nt_signature = 17744

abbrev pub pe32_plus_magic : ℕ
pe32_plus_magic = 523

abbrev pub pe32_magic : ℕ
pe32_magic = 267

-- `e_lfanew <= 0` of a signed 32-bit field.
abbrev pub is_not_positive : ℕ → Bool
is_not_positive lfanew = lfanew == 0 || leb (2 ^ 31) lfanew

-- `DetectLoadedImage`: the headers at the base of the image.
unfoldable pub detect_loaded_image : ImageSystem → ProcessInfo → Result BuildInfo
unfolding make_build_info
detect_loaded_image s p =
    let base = s.module_handle in
    let lfanew = read_bytes s.memory (base + 60) 4 in
    let nt = (base + lfanew) % 2 ^ 64 in
    let magic = read_bytes s.memory (nt + 24) 2 in
    let image_size = read_bytes s.memory (nt + 80) 4 in
    if base == 0
    then failure (
        from_win32 ErrorCode.runtime_failure ErrorCategory.runtime s.last_error
          "Unable to resolve current process image module")
    else if not (read_bytes s.memory base 2 == dos_signature) || is_not_positive lfanew
    then fail_runtime "Loaded GTA image has an invalid DOS header"
    else if not (read_bytes s.memory nt 4 == nt_signature)
    then fail_runtime "Loaded GTA image has an invalid PE signature"
    else if not (magic == pe32_plus_magic || magic == pe32_magic)
    then fail_runtime "Loaded GTA image uses an unsupported PE optional header"
    else if image_size == 0
    then fail_runtime "Loaded GTA image reported an invalid image size"
    else success (make_build_info p (read_bytes s.memory (nt + 8) 4) image_size)

-- The bytes of a file as a memory of their own.
abbrev pub file_memory : List ℕ → Memory
file_memory bytes place = get_or bytes place 0

-- The size of the optional header that a magic announces.
abbrev pub optional_header_size : ℕ → ℕ
optional_header_size magic = if magic == pe32_plus_magic then 240 else 224

-- The part of `Build_Info_Detector::Detect` that reads a file. A read beyond the end of the file
-- fails the stream.
unfoldable pub detect_file : ProcessInfo → List ℕ → Result BuildInfo
unfolding make_build_info
detect_file p bytes =
    let memory = file_memory bytes in
    let lfanew = read_bytes memory 60 4 in
    let magic = read_bytes memory (lfanew + 24) 2 in
    let image_size = read_bytes memory (lfanew + 80) 4 in
    if ltb (length bytes) 64
      || not (read_bytes memory 0 2 == dos_signature)
      || is_not_positive lfanew
    then fail_runtime "GTA executable has an invalid DOS/PE header"
    else if ltb (length bytes) (lfanew + 24) || not (read_bytes memory lfanew 4 == nt_signature)
    then fail_runtime "GTA executable does not contain a valid PE signature"
    else if ltb (length bytes) (lfanew + 26)
    then fail_runtime "Unable to read GTA optional-header magic"
    else if not (magic == pe32_plus_magic || magic == pe32_magic)
    then fail_runtime "GTA executable uses an unsupported PE optional header"
    else if ltb (length bytes) (lfanew + 24 + optional_header_size magic) || image_size == 0
    then fail_runtime "Unable to determine GTA image size"
    else success (make_build_info p (read_bytes memory (lfanew + 8) 4) image_size)

-- `Build_Info_Detector::Detect`.
unfoldable pub detect : ImageSystem → ProcessInfo → Result BuildInfo
unfolding detect_loaded_image detect_file
detect s p =
    if not (is_valid_process p) || length p.executable_path == 0
    then fail_runtime "Cannot detect GTA build from invalid process information"
    else if p.pid == s.current_process_id
    then detect_loaded_image s p
    else elim (s.open_file p.executable_path) [
      | none ↦ failure (
          with_context
            (make_error ErrorCode.file_open_failed ErrorCategory.filesystem
              "Unable to open GTA executable for build inspection")
            "Path" p.executable_path)
      | some bytes ↦ detect_file p bytes
    ]
