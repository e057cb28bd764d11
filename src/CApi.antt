-- ===== src/CApi.antt =====
-- src/c_api.cpp: the count of calls in progress, starting and ending the library, and handles.
pub mod Calls
pub mod Handles
mod Tests
use mathlib.Core.Option
use synthizer.Base.{
  ℕ, zero, suc, ◌+◌, ◌-◌, Bool, true, false, not, ◌&&◌, ◌||◌, Option, none, some, List, [], ◌∷◌,
  ◌==◌, if◌then◌else◌,
}
use synthizer.Float.{Float}
use synthizer.Memory.{Exposable, Store, put, is_permanently_dead, inc_ref, dec_ref}
use synthizer.PriorityQueue.{HeapAlgorithms}
use synthizer.Context.{Context, Engine, DeleteBehaviorConfig, with_store, do_linger}

-- `is_initialized`: -1 before the library is initialized, then the calls in progress; -2 is meant
-- for a library that has been shut down. `negsuc n` is -(n + 1).
pub data ℤ : Type 0 where
  pos negsuc : ℕ → ℤ

abbrev pub equal : ℤ → ℤ → Bool
equal (pos m) (pos n) = m == n
equal (negsuc m) (negsuc n) = m == n
equal x y = false

abbrev pub is_negative : ℤ → Bool
is_negative (pos n) = false
is_negative (negsuc n) = true

abbrev pub add_one : ℤ → ℤ
add_one (pos n) = pos (suc n)
add_one (negsuc zero) = pos 0
add_one (negsuc (suc n)) = negsuc n

abbrev pub sub_one : ℤ → ℤ
sub_one (pos zero) = negsuc 0
sub_one (pos (suc n)) = pos n
sub_one (negsuc n) = negsuc (suc n)

pub data ErrorKind : Type 0 where
  uninitialized already_initialized range_error invalid_handle failed_assertion : ErrorKind

pub data Result (A : Type 0) : Type 0 where
  ok : A → Result A
  throws : ErrorKind → Result A

-- The exchange is atomic: of calls that compete, each runs alone at some time.
unfoldable pub begin_initialized_call : Bool → ℤ → Result ℤ
begin_initialized_call require_init count =
    if not require_init
    then ok count
    else if is_negative count
    then throws uninitialized
    else ok (add_one count)

unfoldable pub end_initialized_call : Bool → ℤ → ℤ
end_initialized_call require_init count = if not require_init then count else sub_one count

-- The switch over the logging backends; everything that is started after it starts.
unfoldable pub initialize_with_config : Bool → ℤ → Result ℤ
initialize_with_config backend_is_known count =
    if not (equal count (negsuc 0))
    then throws already_initialized
    else if not backend_is_known
    then throws range_error
    else ok (pos 0)

-- The loop of `syz_shutdown` at a count and at what it expects, its fuel first. It goes round again
-- where the exchange has succeeded, and what is expected after a failure is what was found. `none`
-- means that the fuel ran out.
unfoldable pub shutdown_loop : ℕ → ℤ → ℤ → Option (Result ℤ)
shutdown_loop zero count expected = none
shutdown_loop (suc fuel) count expected =
    let again =
      if is_negative expected
      then some (throws uninitialized)
      else shutdown_loop fuel (negsuc 1) (pos 0) in
    if equal count expected then again else some (ok count)

-- The count left, and what is thrown, the fuel of the loop first: clearing up throws where there is
-- no output device, which is after the count has been stored.
unfoldable pub shutdown_library : ℕ → Bool → ℤ → Option (ℤ × Option ErrorKind)
unfolding shutdown_loop
shutdown_library fuel has_output_device count = elim (shutdown_loop fuel count (pos 0)) [
  | none ↦ none
  | some (throws e) ↦ some (negsuc 1, some e)
  | some (ok left) ↦ some (pos 0, if has_output_device then none else some uninitialized)
]

-- getExposableFromHandle; a handle is an address.
unfoldable pub get_exposable_from_handle : ℕ → Store → Result Exposable
get_exposable_from_handle handle s =
    let exposable = s handle in
    if not exposable.internal_reference || is_permanently_dead exposable
    then throws invalid_handle
    else ok exposable

-- A call while the library is not initialized does nothing, and does not fail.
unfoldable pub handle_inc_ref : ℤ → ℕ → Store → Result Store
unfolding get_exposable_from_handle
handle_inc_ref count handle s =
    if is_negative count then ok s else elim (get_exposable_from_handle handle s) [
      | throws e ↦ throws e
      | ok exposable ↦ elim (inc_ref exposable) [
        | none ↦ ok s
        | some exposable' ↦ ok (put handle exposable' s)
      ]
    ]

-- What an object says of itself: whether it is a BaseObject of a context, and whether it wants to
-- linger and as it is configured.
pub record Lingering (fl : Float) : Type 0 where
  pub is_base_object : Bool
  pub wants_linger : Bool
  pub config : DeleteBehaviorConfig fl

module _ {fl : Float} {World : Type 0} (heaps : HeapAlgorithms ℕ) (engine : Engine fl World)
    (lingering : ℕ → Lingering fl) where
  -- `decRef` has given the new count of the object.
  unfoldable pub after_dec_ref : ℕ → Option Exposable → Context fl World → Result (Context fl World)
  after_dec_ref handle none ctx = throws failed_assertion
  after_dec_ref handle (some exposable) ctx =
      let object = lingering handle in
      let ctx' = with_store (put handle exposable ctx.shared.store) ctx in
      if exposable.reference_count == 0 && object.is_base_object
      then ok (do_linger heaps engine handle object.wants_linger object.config ctx')
      else ok ctx'

  unfoldable pub handle_dec_ref : ℤ → ℕ → Context fl World → Result (Context fl World)
  unfolding get_exposable_from_handle after_dec_ref
  handle_dec_ref count handle ctx =
      if is_negative count || handle == 0
      then ok ctx
      else elim (get_exposable_from_handle handle ctx.shared.store) [
        | throws e ↦ throws e
        | ok exposable ↦ after_dec_ref handle (dec_ref exposable) ctx
      ]
