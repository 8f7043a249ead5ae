-- ===== src/Natives/CallContext/Slots.antt =====
-- The slots of a call: what is pushed or returned, and what is read back.
use devilz_den.Prelude.{
  ℕ, ◌%◌, ◌^◌, ◌≤◌, ◌≡◌, refl, arith, if◌then◌else◌, ◌==◌, ltb, ◌&&◌, length, get_or, length-set,
  get_or-set, get_or-replicate,
}
use devilz_den.Backend.Error.{has_value}
use devilz_den.Natives.CallContext.{
  CallContext, max_arguments, max_return_slots, fresh, push, get_argument, set_return, get_return,
}

pub record IsValid (c : CallContext) : Type 0 where
  pub argument_slots : length c.arguments ≡ max_arguments
  pub return_slots : length c.returns ≡ max_return_slots
  pub arguments_fit : c.argument_count ≤ max_arguments
  pub returns_fit : c.return_count ≤ max_return_slots
  pub rest_cleared : (j : ℕ) → c.return_count ≤ j → get_or c.returns j 0 ≡ 0

fresh-IsValid : IsValid fresh
unfolding fresh
fresh-IsValid = record {
  argument_slots = refl;
  return_slots = refl;
  arguments_fit = omega arith;
  returns_fit = omega arith;
  rest_cleared = λ j h. get_or-replicate 4 j 0;
}

push-IsValid : (c : CallContext) (v : ℕ) → IsValid c → IsValid (push c v).0
unfolding push
push-IsValid c v h = ground (arith, length-set c.arguments c.argument_count v, h.rest_cleared)

set_return-IsValid : (c : CallContext) (v i : ℕ) → IsValid c → IsValid (set_return c v i)
unfolding set_return
set_return-IsValid c v i h = record {
  argument_slots = ground arith;
  return_slots = ground (arith, length-set c.returns i v);
  arguments_fit = ground arith;
  returns_fit = ground arith;
  rest_cleared = λ j k. ground (arith, get_or-set c.returns i j v 0, h.rest_cleared j);
}

-- `Push` fails exactly on a full context, which it leaves as it was. Otherwise the new argument is
-- the last one, and the arguments before it read as before.
get_argument-push :
    (c : CallContext) (v bytes j : ℕ)
    → IsValid c
    → (has_value (push c v).1 ≡ ltb c.argument_count max_arguments)
      × (get_argument (push c v).0 bytes j ≡ (
          if j == c.argument_count && ltb j max_arguments
          then v % 256 ^ bytes
          else get_argument c bytes j))
unfolding push get_argument
get_argument-push c v bytes j h = ground (arith, get_or-set c.arguments c.argument_count j v 0)

get_return_lem :
    (c : CallContext) (bytes j : ℕ)
    → IsValid c
    → get_return c bytes j ≡ get_or c.returns j 0 % 256 ^ bytes
unfolding get_return
get_return_lem c bytes j h = ground (arith, h.rest_cleared j)

-- `SetReturn` writes the slot if the index is below 4, and changes no other slot's reading.
get_return-set_return :
    (c : CallContext) (v i bytes j : ℕ)
    → IsValid c
    → get_return (set_return c v i) bytes j
      ≡ (if i == j && ltb i max_return_slots then v % 256 ^ bytes else get_return c bytes j)
get_return-set_return c v i bytes j h =
    rw
      (
        get_return_lem (set_return c v i) bytes j (set_return-IsValid c v i h),
        get_return_lem c bytes j h,
      )
      (unfold set_return in ground (arith, get_or-set c.returns i j v 0))
