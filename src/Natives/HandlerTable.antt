-- ===== src/Natives/HandlerTable.antt =====
-- Natives/Native_Handler_Table.hpp and Native_Index.hpp: handlers by index, in three vectors.
pub mod Slots
use devilz_den.Prelude.{
  ℕ, List, [], Bool, true, false, not, ◌||◌, Option, none, some, leb, if◌then◌else◌, length, get_or,
  set, replicate,
}
use devilz_den.Backend.Range.{Pointer, null, is_null}

pub record HandlerTable : Type 0 where
  pub hashes : List ℕ
  pub handlers : List Pointer
  pub validated : List Bool

-- `Native_Handler_Table::Reset`.
unfoldable pub reset : HandlerTable → ℕ → HandlerTable
reset t count = record {
  hashes = replicate count 0;
  handlers = replicate count null;
  validated = replicate count false;
}

-- `Native_Handler_Table::Clear` and `Size`.
unfoldable pub clear : HandlerTable → HandlerTable
clear t = record { hashes = []; handlers = []; validated = [] }

unfoldable pub size : HandlerTable → ℕ
size t = length t.handlers

-- `Native_Handler_Table::Set`.
unfoldable pub set_handler : HandlerTable → ℕ → ℕ → Pointer → Bool → HandlerTable × Bool
set_handler t index runtime_hash handler valid =
    if leb (length t.handlers) index then (t, false) else (
      record {
        hashes = set t.hashes index runtime_hash;
        handlers = set t.handlers index handler;
        validated = set t.validated index valid;
      },
      true,
    )

-- `Native_Handler_Table::Get`.
unfoldable pub get : HandlerTable → ℕ → Option Pointer
get t index =
    if leb (length t.handlers) index
      || not (get_or t.validated index false)
      || is_null (get_or t.handlers index null)
    then none
    else some (get_or t.handlers index null)

-- `Native_Handler_Table::RuntimeHash`.
unfoldable pub runtime_hash : HandlerTable → ℕ → Option ℕ
runtime_hash t index = if leb (length t.hashes) index then none else some (get_or t.hashes index 0)
