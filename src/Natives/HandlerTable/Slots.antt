-- ===== src/Natives/HandlerTable/Slots.antt =====
-- The three vectors of the handler table, and what a slot answers.
use devilz_den.Prelude.{
  ℕ, ◌≡◌, sym, ◌∙◌, Bool, false, not, arith, none, some, if◌then◌else◌, ◌==◌, ltb, ◌&&◌, length,
  length-set, length-replicate, get_or-set, get_or-replicate,
}
use devilz_den.Backend.Range.{Pointer, null, is_null}
use devilz_den.Natives.HandlerTable.{HandlerTable, reset, size, set_handler, get}

pub record IsValid (t : HandlerTable) : Type 0 where
  pub as_many_hashes : length t.hashes ≡ length t.handlers
  pub as_many_flags : length t.validated ≡ length t.handlers

reset-IsValid : (t : HandlerTable) (n : ℕ) → IsValid (reset t n)
unfolding reset
reset-IsValid t n = record {
  as_many_hashes = length-replicate n 0 ∙ sym (length-replicate n null);
  as_many_flags = length-replicate n false ∙ sym (length-replicate n null);
}

set_handler-IsValid :
    (t : HandlerTable) (i h : ℕ) (p : Pointer) (ok : Bool)
    → IsValid t
    → IsValid (set_handler t i h p ok).0
unfolding set_handler
set_handler-IsValid t i h p ok v =
    ground (arith, length-set t.hashes i h, length-set t.handlers i p, length-set t.validated i ok)

get-reset : (t : HandlerTable) (n i : ℕ) → get (reset t n) i ≡ none
unfolding get reset
get-reset t n i = ground (arith, get_or-replicate n i false)

-- What is read after `Set`: in range, the slot answers with the handler exactly if it is validated
-- and not null; out of range nothing is written; the other slots answer as before.
get-set_handler :
    (t : HandlerTable) (i j h : ℕ) (p : Pointer) (ok : Bool)
    → IsValid t
    → ((set_handler t i h p ok).1 ≡ ltb i (size t))
      × (get (set_handler t i h p ok).0 j ≡ (
          if i == j && ltb i (size t)
          then (if ok && not (is_null p) then some p else none)
          else get t j))
unfolding set_handler get size
get-set_handler t i j h p ok v = ground (
  arith,
  length-set t.handlers i p,
  get_or-set t.handlers i j p null,
  get_or-set t.validated i j ok false,
)
