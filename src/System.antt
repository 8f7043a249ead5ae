-- ===== src/System.antt =====
-- What the operating system says of the memory at an address (`VirtualQuery`), and the tests that
-- Memory/GTA_Target_Evidence.cpp, Natives/GTA_Native_Manager.cpp and
-- Runtime/GTA_Run_Script_Threads_Bridge.cpp make of the answer. The answer itself is a parameter of
-- the definitions that ask for it.
use devilz_den.Prelude.{
  ℕ, ◌+◌, ◌-◌, ◌/◌, ◌%◌, ◌^◌, List, [], ◌∷◌, Bool, false, not, ◌&&◌, ◌||◌, Option, none, some, ◌==◌,
  leb, ltb,
}

-- `MEMORY_BASIC_INFORMATION`.
pub record MemoryInfo : Type 0 where
  pub base_address : ℕ
  pub region_size : ℕ
  pub state : ℕ
  pub protect : ℕ
  pub memory_type : ℕ

-- `VirtualQuery`; `none` where it returns 0.
abbrev pub SystemQuery : Type 0
SystemQuery = ℕ → Option MemoryInfo

abbrev pub mem_commit : ℕ
mem_commit = 4096

abbrev pub mem_image : ℕ
mem_image = 16777216

-- A bit of a protection, by its number: PAGE_NOACCESS is bit 0, PAGE_READONLY 1,
-- PAGE_READWRITE 2, PAGE_WRITECOPY 3, PAGE_EXECUTE 4, PAGE_EXECUTE_READ 5,
-- PAGE_EXECUTE_READWRITE 6, PAGE_EXECUTE_WRITECOPY 7 and PAGE_GUARD 8.
abbrev pub has_bit : ℕ → ℕ → Bool
has_bit value bit = (value / 2 ^ bit) % 2 == 1

-- `HasAny`, with the numbers of the mask's bits.
unfoldable pub has_any : ℕ → List ℕ → Bool
has_any value [] = false
has_any value (bit ∷ bits) = has_bit value bit || has_any value bits

-- `IsExecutableProtection` of GTA_Native_Manager.cpp.
unfoldable pub is_executable_protection : ℕ → Bool
is_executable_protection protect =
    protect % 256 == 16 || protect % 256 == 32 || protect % 256 == 64 || protect % 256 == 128

-- The end of `GTA_Native_Manager::IsExecutableImageAddress`, on the answer of the system.
unfoldable pub is_executable_image : Option MemoryInfo → Bool
unfolding is_executable_protection
is_executable_image none = false
is_executable_image (some m) =
    m.state == mem_commit
    && m.memory_type == mem_image
    && not (has_bit m.protect 8)
    && not (has_bit m.protect 0)
    && is_executable_protection m.protect

-- `GTA_Native_Manager::IsExecutableImageAddress`.
unfoldable pub is_executable_image_address : SystemQuery → ℕ → ℕ → ℕ → Bool
unfolding is_executable_image
is_executable_image_address query module_base module_size address =
    not (
      ltb address module_base
      || ltb (2 ^ 64 - 1 - module_size) module_base
      || leb (module_base + module_size) address)
    && is_executable_image (query address)

-- The protections that `IsReadableAddress` of GTA_Run_Script_Threads_Bridge.cpp takes.
unfoldable pub is_readable_protection : ℕ → Bool
is_readable_protection protect =
    protect % 256 == 2
    || protect % 256 == 4
    || protect % 256 == 8
    || protect % 256 == 32
    || protect % 256 == 64
    || protect % 256 == 128

-- The end of `IsReadableAddress`, on the answer of the system.
unfoldable pub is_readable_region : Option MemoryInfo → ℕ → ℕ → Bool
unfolding is_readable_protection
is_readable_region none address size = false
is_readable_region (some m) address size =
    m.state == mem_commit
    && not (has_bit m.protect 8 || has_bit m.protect 0)
    && is_readable_protection m.protect
    && not (ltb (2 ^ 64 - 1 - m.region_size) m.base_address)
    && leb m.base_address address
    && leb address (m.base_address + m.region_size)
    && leb size (m.base_address + m.region_size - address)

-- `IsReadableAddress` of GTA_Run_Script_Threads_Bridge.cpp.
unfoldable pub is_readable_address : SystemQuery → ℕ → ℕ → Bool
unfolding is_readable_region
is_readable_address query address size =
    not (address == 0 || size == 0) && is_readable_region (query address) address size
