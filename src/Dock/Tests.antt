-- ===== src/Dock/Tests.antt =====
-- Runs of the dock with every object alive, at the address that is its number.
use synthizer.Base.{ℕ, ◌≤◌, ◌≡◌, refl, Bool, true, some, List, [], occurrences}
use synthizer.Dock.{
  DockNode, dock, disable, walk, has_docked, take_node, add_page, call_on_node_for,
}
use synthizer.Dock.Calls.{Reach, start, next, docks, walk-once}

abbrev number : ℕ → ℕ
number a = a

abbrev all_alive : ℕ → Bool
all_alive a = true

abbrev one_docked : List DockNode
one_docked = dock number all_alive (some 5) []

one_docked-Reach : Reach number one_docked
one_docked-Reach = next start (docks all_alive 5 refl)

disabled_unseen : walk number all_alive (disable number all_alive 5 one_docked) ≡ []
unfolding dock disable walk has_docked take_node add_page call_on_node_for
disabled_unseen = refl

walk-once_example : occurrences 5 (walk number all_alive one_docked) ≤ 1
walk-once_example = walk-once number all_alive 5 one_docked one_docked-Reach
