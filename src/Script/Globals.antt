-- ===== src/Script/Globals.antt =====
-- Script/Globals/Script_Global.hpp, Script_Global_Manager.hpp and Script_Global_Manager.cpp: blocks
-- of 8-byte slots by a 32-bit index. `std::sort` is an insertion sort.
pub mod Resolution
use devilz_den.Prelude.{
  ℕ, ◌+◌, ◌-◌, ◌*◌, ◌%◌, ◌^◌, List, [], ◌∷◌, Bool, true, false, not, ◌&&◌, ◌||◌, Option, none, some,
  ltb, leb, ◌==◌, if◌then◌else◌,
}
use devilz_den.Prelude.Int.{ℤ, pos, negsuc, signed64}
use devilz_den.Prelude.Numbers.{to_string}
use devilz_den.Backend.Error.{Result, success, failure, fail_runtime, annotate}
use devilz_den.Backend.Range.{Pointer, is_null, add, Memory, read_bytes}

pub record Block : Type 0 where
  pub first_index : ℕ
  pub slot_count : ℕ
  pub base : Pointer

-- `Block::Contains`; the subtraction is guarded by the first test.
unfoldable pub contains : Block → ℕ → Bool
contains b index = leb b.first_index index && ltb (index - b.first_index) b.slot_count

pub record GlobalManager : Type 0 where
  pub blocks : List Block
  pub build_fingerprint : ℕ

abbrev pub new_globals : GlobalManager
new_globals = record { blocks = []; build_fingerprint = 0 }

-- The first loop of `Configure`: each block has slots, a base and an index range that fits.
unfoldable pub check_blocks : List Block → Result (Unit {0})
check_blocks [] = success tt
check_blocks (b ∷ bs) =
    if b.slot_count == 0 || is_null b.base
    then fail_runtime "Script global block is invalid"
    else if ltb (2 ^ 32 - 1 - b.slot_count) b.first_index
    then fail_runtime "Script global block index range overflows"
    else check_blocks bs

-- `std::sort` by the first index.
unfoldable pub insert_block : Block → List Block → List Block
insert_block b [] = b ∷ []
insert_block b (c ∷ cs) =
    if leb b.first_index c.first_index then b ∷ c ∷ cs else c ∷ insert_block b cs

unfoldable pub sort_blocks : List Block → List Block
sort_blocks [] = []
sort_blocks (b ∷ bs) = insert_block b (sort_blocks bs)

-- The second loop: no block runs into the next one.
unfoldable pub check_overlap : List Block → Result (Unit {0})
check_overlap [] = success tt
check_overlap (b ∷ []) = success tt
check_overlap (b ∷ c ∷ cs) =
    if ltb c.first_index ((b.first_index + b.slot_count) % 2 ^ 32)
    then fail_runtime "Script global blocks overlap"
    else check_overlap (c ∷ cs)

-- `Script_Global_Manager::Configure`.
unfoldable pub configure : GlobalManager → List Block → ℕ → GlobalManager × Result (Unit {0})
configure g blocks fingerprint =
    if fingerprint == 0
    then (g, fail_runtime "Script globals require a valid build fingerprint")
    else elim (check_blocks blocks) [
      | failure e ↦ (g, failure e)
      | success _ ↦ elim (check_overlap (sort_blocks blocks)) [
        | failure e ↦ (g, failure e)
        | success _ ↦
            (record { blocks = sort_blocks blocks; build_fingerprint = fingerprint }, success tt)
      ]
    ]

-- `Script_Global_Manager::Clear` and `Ready`.
unfoldable pub clear : GlobalManager → GlobalManager
clear g = record { blocks = []; build_fingerprint = 0 }

unfoldable pub ready : GlobalManager → Bool
ready g = not (g.build_fingerprint == 0) && elim g.blocks [ [] ↦ false | _ ∷ _ ↦ true ]

-- `std::find_if` over the blocks.
unfoldable pub find_block : List Block → ℕ → Option Block
find_block [] index = none
find_block (b ∷ bs) index = if contains b index then some b else find_block bs index

-- `Script_Global_Manager::Resolve`.
unfoldable pub resolve : GlobalManager → ℕ → Result Pointer
resolve g index =
    if g.build_fingerprint == 0
    then fail_runtime "Script global manager is not configured"
    else elim (find_block g.blocks index) [
      | none ↦
          annotate (fail_runtime "Script global index is outside configured blocks") "Index"
            (to_string index)
      | some b ↦ success (add b.base (signed64 ((index - b.first_index) * 8 % 2 ^ 64)))
    ]

-- `Script_Global`: whether it has a manager, and its index. All handles share one manager.
pub record ScriptGlobal : Type 0 where
  pub has_manager : Bool
  pub index : ℕ

-- `Script_Global_Manager::Get`.
abbrev pub get : ℕ → ScriptGlobal
get index = record { has_manager = true; index = index }

-- `Script_Global::At`.
unfoldable pub at : ScriptGlobal → ℤ → ScriptGlobal
at s (pos n) = record { has_manager = s.has_manager; index = (s.index + n) % 2 ^ 32 }
at s (negsuc n) =
    if ltb s.index (n + 1)
    then record { has_manager = false; index = 0 }
    else record { has_manager = s.has_manager; index = s.index - (n + 1) }

-- `Script_Global::Resolve`.
unfoldable pub resolve_global : GlobalManager → ScriptGlobal → Result Pointer
resolve_global g s =
    if not s.has_manager then fail_runtime "Script global has no manager" else resolve g s.index

-- `Script_Global::Read` at a type of so many bytes.
unfoldable pub read : Memory → GlobalManager → ScriptGlobal → ℕ → Result ℕ
read m g s bytes = elim (resolve_global g s) [
  | failure e ↦ failure e
  | success p ↦ success (read_bytes m p.address bytes)
]
