-- ===== src/Memory/Registry.antt =====
-- What the registry of src/memory.cpp keeps of its handles.
use synthizer.Base.{ℕ, ◌≡◌, not, some, List, select}
use synthizer.VectorHelpers.Unordered.{filter-perm-select}
use synthizer.Memory.{Store, lock, purge_dead_registered_handles}
use mathlib.Core.List.{Perm}

-- Purging ends without a fault, and leaves in the registry exactly the handles whose object is
-- gone, each as often as before, in some order: no object that is still alive keeps its handle.
pub purge_dead_registered_handles-leaves_dead :
    (s : Store) (handles : List ℕ)
    → (left : List ℕ) × (purge_dead_registered_handles s handles ≡ some left)
      × Perm left (select (λ a. not (lock (s a))) handles)
unfolding purge_dead_registered_handles
purge_dead_registered_handles-leaves_dead s handles = filter-perm-select (λ a. lock (s a)) handles
