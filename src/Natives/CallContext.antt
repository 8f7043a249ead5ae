-- ===== src/Natives/CallContext.antt =====
-- Natives/Native_Call_Context.hpp: the argument and return slots of a native call. A value of a
-- trivially copyable type of `bytes` bytes (at most 8) is its bits, a number below 256 ^ bytes.
pub mod Slots
use devilz_den.Prelude.{ℕ, suc, ◌%◌, ◌^◌, List, if◌then◌else◌, leb, get_or, set, replicate}
use devilz_den.Backend.Error.{Result, success, fail_runtime}

abbrev pub max_arguments : ℕ
max_arguments = 32

abbrev pub max_return_slots : ℕ
max_return_slots = 4

pub record CallContext : Type 0 where
  pub arguments : List ℕ
  pub returns : List ℕ
  pub argument_count : ℕ
  pub return_count : ℕ

-- A new context, and `Native_Call_Context::Reset`.
unfoldable pub fresh : CallContext
fresh = record {
  arguments = replicate max_arguments 0;
  returns = replicate max_return_slots 0;
  argument_count = 0;
  return_count = 0;
}

unfoldable pub reset : CallContext → CallContext
unfolding fresh
reset c = fresh

-- `Native_Call_Context::Push`.
unfoldable pub push : CallContext → ℕ → CallContext × Result (Unit {0})
push c value =
    if leb max_arguments c.argument_count
    then (c, fail_runtime "Native call argument capacity exceeded")
    else (
      record c {
        arguments = set c.arguments c.argument_count value;
        argument_count = suc c.argument_count;
      },
      success tt,
    )

-- `Native_Call_Context::GetArgument` at a type of so many bytes: the low bytes of the slot.
unfoldable pub get_argument : CallContext → ℕ → ℕ → ℕ
get_argument c bytes index =
    if leb c.argument_count index then 0 else get_or c.arguments index 0 % 256 ^ bytes

-- `Native_Call_Context::SetReturn` and `GetReturn`.
unfoldable pub set_return : CallContext → ℕ → ℕ → CallContext
set_return c value index = if leb max_return_slots index then c else record c {
  returns = set c.returns index value;
  return_count = if leb c.return_count index then suc index else c.return_count;
}

unfoldable pub get_return : CallContext → ℕ → ℕ → ℕ
get_return c bytes index =
    if leb c.return_count index then 0 else get_or c.returns index 0 % 256 ^ bytes
