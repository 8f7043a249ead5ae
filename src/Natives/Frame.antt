-- ===== src/Natives/Frame.antt =====
-- Natives/GTA_Native_Call_Context.hpp: the frame of a call that the game's own handlers read. Floats
-- are their bits, pointers are addresses (0 is the null pointer), and the vectors that the targets
-- point to are a store by address.
pub mod Arguments
use devilz_den.Prelude.{
  ℕ, zero, suc, ◌+◌, ◌*◌, ◌/◌, ◌%◌, ◌^◌, List, [], ◌∷◌, Bool, true, false, ◌==◌, if◌then◌else◌, leb,
  ltb, get_or, set, replicate, ℕ_discrete,
}
use devilz_den.Prelude.Int.{ℤ, pos, negsuc}
use devilz_den.Prelude.Map.{Map, insert_or_assign}

-- `GTA_Native_Script_Vector` and `GTA_Native_Vector3`.
pub record Vector3 : Type 0 where
  pub x : ℕ
  pub y : ℕ
  pub z : ℕ

abbrev pub VectorStore : Type 0
VectorStore = Map ℕ Vector3

abbrev pub max_arguments : ℕ
max_arguments = 40

abbrev pub return_slots : ℕ
return_slots = 10

abbrev pub max_vector_references : ℕ
max_vector_references = 4

pub record Frame : Type 0 where
  pub argument_count : ℕ
  pub vector_reference_count : ℤ
  pub vector_reference_targets : List ℕ
  pub vector_reference_sources : List Vector3
  pub returns : List ℕ
  pub arguments : List ℕ

abbrev no_vector : Vector3
no_vector = record { x = 0; y = 0; z = 0 }

-- `GTA_Native_Call_Frame::Reset`, which the constructor ends with.
unfoldable pub new_frame : Frame
new_frame = record {
  argument_count = 0;
  vector_reference_count = pos 0;
  vector_reference_targets = replicate max_vector_references 0;
  vector_reference_sources = replicate max_vector_references no_vector;
  returns = replicate return_slots 0;
  arguments = replicate max_arguments 0;
}

-- A value of a trivially copyable type: its size in bytes (at most 8) and its bits.
pub record Argument : Type 0 where
  pub bytes : ℕ
  pub bits : ℕ

-- `GTA_Native_Call_Frame::Push`: `memcpy` overwrites the low bytes of the slot.
unfoldable pub push : Frame → Argument → Frame × Bool
push f a = if leb max_arguments f.argument_count then (f, false) else (
  record f {
    arguments =
        set f.arguments f.argument_count
          (get_or f.arguments f.argument_count 0 / 256 ^ a.bytes * 256 ^ a.bytes + a.bits);
    argument_count = suc f.argument_count;
  },
  true,
)

-- The fold over the arguments of a call, which stops at the first that does not fit.
unfoldable pub push_all : Frame → List Argument → Frame × Bool
push_all f [] = (f, true)
push_all f (a ∷ rest) =
    let (f', pushed) = push f a in
    let more = push_all f' rest in if pushed then more else (f', false)

-- `GTA_Native_Call_Frame::Return` at a type of so many bytes.
unfoldable pub return_value : Frame → ℕ → ℕ
return_value f bytes = get_or f.returns 0 0 % 256 ^ bytes

-- The number of vectors that `FixVectors` writes: the count of the context, cut to 0 .. 4.
unfoldable pub vector_count : ℤ → ℕ
vector_count (pos n) = if ltb max_vector_references n then max_vector_references else n
vector_count (negsuc n) = 0

-- The loop of `FixVectors` from the index `i` on, with so many vectors left.
unfoldable pub copy_vectors : VectorStore → Frame → ℕ → ℕ → VectorStore
copy_vectors store f i zero = store
copy_vectors store f i (suc left) =
    let target = get_or f.vector_reference_targets i 0 in
    copy_vectors
      (if target == 0
        then store
        else insert_or_assign ℕ_discrete target (get_or f.vector_reference_sources i no_vector)
            store)
      f (suc i) left

-- `GTA_Native_Call_Frame::FixVectors`.
unfoldable pub fix_vectors : VectorStore → Frame → VectorStore × Frame
unfolding vector_count copy_vectors
fix_vectors store f = (
  copy_vectors store f 0 (vector_count f.vector_reference_count),
  record f { vector_reference_count = pos 0 },
)
