-- ===== src/Memory/Tests.antt =====
-- Runs of the registry with a living object at the address 1.
use mathlib.Core.List.{Perm}
use synthizer.Base.{
  ℕ, ◌≡◌, refl, false, not, none, some, List, [], ◌∷◌, select, ◌==◌, if◌then◌else◌,
}
use synthizer.Memory.{
  Exposable, Store, lock, inc_ref, dec_ref, stash_internal_reference, purge_dead_registered_handles,
  clear_all_c_handles,
}
use synthizer.Memory.Registry.{purge_dead_registered_handles-leaves_dead}

abbrev gone : Exposable
gone = record {
  reference_count = 0;
  internal_reference = false;
  linger_reference = false;
  held = false;
}

abbrev objects : Store
objects a = if a == 1 then stash_internal_reference gone else gone

inc_ref_dead : inc_ref gone ≡ none
inc_ref_dead = refl

dec_ref_last : dec_ref (objects 1) ≡ some gone
dec_ref_last = refl

clear_run : (clear_all_c_handles (1 ∷ []) objects 1).internal_reference ≡ false
unfolding clear_all_c_handles
clear_run = refl

purge_dead_registered_handles-leaves_dead_example :
    (left : List ℕ) × (purge_dead_registered_handles objects (1 ∷ 2 ∷ []) ≡ some left)
    × Perm left (select (λ a. not (lock (objects a))) (1 ∷ 2 ∷ []))
purge_dead_registered_handles-leaves_dead_example =
    purge_dead_registered_handles-leaves_dead objects (1 ∷ 2 ∷ [])
