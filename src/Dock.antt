-- ===== src/Dock.antt =====
-- include/synthizer/dock.hpp: the container that one thread walks while others dock and undock.
pub mod Once
pub mod Calls
mod Tests
use synthizer.Base.{
  ℕ, zero, suc, Bool, true, false, ◌&&◌, Option, none, some, List, [], ◌∷◌, ◌++◌, replicate, ◌==◌,
  if◌then◌else◌,
}

-- A node; `item` is the object behind its weak pointer and `item_raw` the address stored with it.
pub record DockNode : Type 0 where
  pub item : Option ℕ
  pub item_raw : Option ℕ
  pub enabled : Bool
  pub docked : Bool

abbrev pub fresh_node : DockNode
fresh_node = record { item = none; item_raw = none; enabled = true; docked = false }

-- The nodes of the dock from its head on. A new page of 32 nodes goes before them.
unfoldable pub add_page : List DockNode → List DockNode
add_page nodes = replicate 32 fresh_node ++ nodes

abbrev pub is_some_of : ℕ → Option ℕ → Bool
is_some_of a none = false
is_some_of a (some b) = b == a

-- `address` gives each object's address, `alive` whether a weak pointer to it can be locked.
module _ (address : ℕ → ℕ) (alive : ℕ → Bool) where
  -- The test of callOnNodeFor and of the first walk of `dock`.
  abbrev pub is_node_for : ℕ → DockNode → Bool
  is_node_for ptr n = is_some_of (address ptr) n.item_raw && (alive ptr && is_some_of ptr n.item)

  -- callOnNodeFor: the first node for the object.
  unfoldable pub call_on_node_for : ℕ → (DockNode → DockNode) → List DockNode → List DockNode
  call_on_node_for ptr func [] = []
  call_on_node_for ptr func (n ∷ nodes) =
      if is_node_for ptr n then func n ∷ nodes else n ∷ call_on_node_for ptr func nodes

  -- Whether the first node for the object is docked.
  unfoldable pub has_docked : ℕ → List DockNode → Bool
  has_docked ptr [] = false
  has_docked ptr (n ∷ nodes) = if is_node_for ptr n then n.docked else has_docked ptr nodes

  abbrev pub node_of : ℕ → DockNode
  node_of ptr = record {
    item = some ptr;
    item_raw = some (address ptr);
    enabled = true;
    docked = true;
  }

  -- The second walk of `dock`: the first node that is not docked takes the object.
  unfoldable pub take_node : ℕ → List DockNode → Option (List DockNode)
  take_node ptr [] = none
  take_node ptr (n ∷ nodes) =
      let rest = take_node ptr nodes in
      if n.docked
      then (elim rest [ none ↦ none | some nodes' ↦ some (n ∷ nodes') ])
      else some (node_of ptr ∷ nodes)

  -- A null pointer is `none`. The loop makes at most two rounds, since a new page has room.
  unfoldable pub dock : Option ℕ → List DockNode → List DockNode
  dock none nodes = nodes
  dock (some ptr) nodes = if has_docked ptr nodes then nodes else elim (take_node ptr nodes) [
    | some nodes' ↦ nodes'
    | none ↦ elim (take_node ptr (add_page nodes)) [ none ↦ nodes | some nodes' ↦ nodes' ]
  ]

  unfoldable pub undock : ℕ → List DockNode → List DockNode
  undock ptr nodes = call_on_node_for ptr (λ n. record n { docked = false }) nodes

  unfoldable pub enable : ℕ → List DockNode → List DockNode
  enable ptr nodes = call_on_node_for ptr (λ n. record n { enabled = true }) nodes

  unfoldable pub disable : ℕ → List DockNode → List DockNode
  disable ptr nodes = call_on_node_for ptr (λ n. record n { enabled = false }) nodes

  -- What a node gives `walk` to call its closure on: the object of a docked, enabled node.
  abbrev pub walked : Bool → Bool → Option ℕ → List ℕ
  walked true true (some a) = if alive a then a ∷ [] else []
  walked docked enabled item = []

  -- The objects that `walk` calls its closure on, in order.
  unfoldable pub walk : List DockNode → List ℕ
  walk [] = []
  walk (n ∷ nodes) = walked n.docked n.enabled n.item ++ walk nodes
