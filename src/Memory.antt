-- ===== src/Memory.antt =====
-- include/synthizer/memory.hpp and src/memory.cpp: reference counts of the objects that the C API
-- hands out, and the registry of their handles.
pub mod Registry
mod Tests
use synthizer.Base.{
  ℕ, ◌+◌, ◌-◌, Bool, true, false, ◌||◌, Option, none, some, List, [], ◌∷◌, ◌++◌, ◌==◌,
  if◌then◌else◌,
}
use synthizer.Fader.{add32}
use synthizer.VectorHelpers.{filter}

-- A CExposable: `held` says whether anything but the two stashed references keeps it alive.
pub record Exposable : Type 0 where
  pub reference_count : ℕ
  pub internal_reference : Bool
  pub linger_reference : Bool
  pub held : Bool

-- The objects by their addresses.
abbrev pub Store : Type 0
Store = ℕ → Exposable

abbrev pub put : ℕ → Exposable → Store → Store
put a x s b = if b == a then x else s b

-- Whether locking a weak pointer to the object gives a strong one.
abbrev pub lock : Exposable → Bool
lock x = x.internal_reference || x.linger_reference || x.held

abbrev pub is_permanently_dead : Exposable → Bool
is_permanently_dead x = x.reference_count == 0

abbrev pub stash_internal_reference : Exposable → Exposable
stash_internal_reference x = record x { internal_reference = true; reference_count = 1 }

-- `none` is false: the count is 0 and stays so.
abbrev pub inc_ref : Exposable → Option Exposable
inc_ref x =
    if x.reference_count == 0
    then none
    else some (record x { reference_count = add32 x.reference_count 1 })

-- `none` is the failed assertion.
abbrev pub dec_ref : Exposable → Option Exposable
dec_ref x =
    if x.reference_count == 0
    then none
    else some (record x {
      reference_count = x.reference_count - 1;
      internal_reference = if x.reference_count == 1 then false else x.internal_reference;
    })

abbrev pub die_now : Exposable → Exposable
die_now x = record x { internal_reference = false; linger_reference = false }

-- purgeDeadRegisteredHandles
unfoldable pub purge_dead_registered_handles : Store → List ℕ → Option (List ℕ)
purge_dead_registered_handles s handles = filter (λ a. lock (s a)) handles

-- clearAllCHandles
unfoldable pub clear_all_c_handles : List ℕ → Store → Store
clear_all_c_handles [] s = s
clear_all_c_handles (a ∷ handles) s =
    clear_all_c_handles handles (if lock (s a) then put a (die_now (s a)) s else s)
