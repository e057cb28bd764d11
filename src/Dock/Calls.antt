-- ===== src/Dock/Calls.antt =====
-- Sequences of calls of the dock of include/synthizer/dock.hpp.
use synthizer.Base.{
  occurrences, ℕ, zero, suc, ◌≤◌, ◌≡◌, refl, ap, sym, subst, ◌∙◌, inl, inr, Bool, true, false, some,
  List, [], ◌∷◌, ◌++◌, replicate, if◌then◌else◌, arith, Bool-cases,
}
use synthizer.Dock.{
  DockNode, fresh_node, add_page, is_some_of, is_node_for, call_on_node_for, has_docked, dock,
  undock, enable, disable, walk,
}
use synthizer.Dock.Once.{
  NoneDocked, FirstOnly, Addressed, first_of, others_of, FirstOnly-from, not_has-NoneDocked, took,
  has_room, dock-eq, took_cases, took-FirstOnly, walk-FirstOnly,
}

page-FirstOnly :
    (a k : ℕ) (nodes : List DockNode)
    → FirstOnly a nodes
    → FirstOnly a (replicate k fresh_node ++ nodes)
unfolding FirstOnly
page-FirstOnly a zero nodes f = f
page-FirstOnly a (suc k) nodes f = page-FirstOnly a k nodes f

page-NoneDocked :
    (a k : ℕ) (nodes : List DockNode)
    → NoneDocked a nodes
    → NoneDocked a (replicate k fresh_node ++ nodes)
unfolding NoneDocked
page-NoneDocked a zero nodes f = f
page-NoneDocked a (suc k) nodes f = ((λ held. refl), page-NoneDocked a k nodes f)

module _ (address : ℕ → ℕ) where
  page-Addressed :
      (k : ℕ) (nodes : List DockNode)
      → Addressed address nodes
      → Addressed address (replicate k fresh_node ++ nodes)
  unfolding Addressed
  page-Addressed zero nodes f = f
  page-Addressed (suc k) nodes f = ((λ a held. cc), page-Addressed k nodes f)

  took-Addressed :
      (alive : ℕ → Bool) (p : ℕ) (nodes : List DockNode)
      → Addressed address nodes
      → Addressed address (took address alive p nodes)
  unfolding Addressed
  took-Addressed alive p [] h = h
  took-Addressed alive p (n ∷ nodes) h =
      took_cases address alive (Addressed address) p n nodes
        (λ d. (h.0, took-Addressed alive p nodes h.1))
        (λ d. ((λ a held. ap (λ k. some (address k)) (ground arith)), h.1))

  abbrev Keeps : (DockNode → DockNode) → Type 0
  Keeps func =
      (n : DockNode)
      → ((func n).item ≡ n.item)
        × ((func n).item_raw ≡ n.item_raw)
        × (n.docked ≡ false → (func n).docked ≡ false)

  module _ (alive : ℕ → Bool) (func : DockNode → DockNode) (k : Keeps func) where
    call_cases :
        (P : List DockNode → Type 0) (p : ℕ) (n : DockNode) (nodes : List DockNode)
        → (is_node_for address alive p n ≡ true → P (func n ∷ nodes))
        → (is_node_for address alive p n ≡ false
            → P (n ∷ call_on_node_for address alive p func nodes))
        → P (call_on_node_for address alive p func (n ∷ nodes))
    unfolding call_on_node_for
    call_cases P p n nodes yes_ no_ = elim (Bool-cases (is_node_for address alive p n)) [
      | inl e ↦
          subst
            (λ b. P (if b then func n ∷ nodes else n ∷ call_on_node_for address alive p func nodes))
            (sym e) (yes_ e)
      | inr e ↦
          subst
            (λ b. P (if b then func n ∷ nodes else n ∷ call_on_node_for address alive p func nodes))
            (sym e) (no_ e)
    ]

    call-Addressed :
        (p : ℕ) (nodes : List DockNode)
        → Addressed address nodes
        → Addressed address (call_on_node_for address alive p func nodes)
    unfolding Addressed call_on_node_for
    call-Addressed p [] h = h
    call-Addressed p (n ∷ nodes) h =
        call_cases (Addressed address) p n nodes
          (λ e.
            ((λ a held. (k n).1 ∙ h.0 a (subst (λ i. is_some_of a i ≡ true) (k n).0 held)), h.1))
          (λ e. (h.0, call-Addressed p nodes h.1))

    call-NoneDocked :
        (p a : ℕ) (nodes : List DockNode)
        → NoneDocked a nodes
        → NoneDocked a (call_on_node_for address alive p func nodes)
    unfolding NoneDocked call_on_node_for
    call-NoneDocked p a [] h = h
    call-NoneDocked p a (n ∷ nodes) h =
        call_cases (NoneDocked a) p n nodes
          (λ e. ((λ held. (k n).2 (h.0 (subst (λ i. is_some_of a i ≡ true) (k n).0 held))), h.1))
          (λ e. (h.0, call-NoneDocked p a nodes h.1))

    call-FirstOnly :
        (p a : ℕ) (nodes : List DockNode)
        → FirstOnly a nodes
        → FirstOnly a (call_on_node_for address alive p func nodes)
    unfolding call_on_node_for
    call-FirstOnly p a [] f = f
    call-FirstOnly p a (n ∷ nodes) f =
        call_cases (FirstOnly a) p n nodes
          (λ e.
            FirstOnly-from a (func n) nodes
              (λ held. first_of a n nodes (subst (λ i. is_some_of a i ≡ true) (k n).0 held) f)
              (others_of a n nodes f))
          (λ e.
            FirstOnly-from a n _ (λ held. call-NoneDocked p a nodes (first_of a n nodes held f))
              (call-FirstOnly p a nodes (others_of a n nodes f)))

  -- A call of any thread on an object that the caller keeps alive. What else is alive may be
  -- different at every call.
  pub data Step (nodes : List DockNode) : List DockNode → Type 0 where
    docks :
        (alive : ℕ → Bool) (p : ℕ) → alive p ≡ true → Step nodes (dock address alive (some p) nodes)
    undocks : (alive : ℕ → Bool) (p : ℕ) → Step nodes (undock address alive p nodes)
    enables : (alive : ℕ → Bool) (p : ℕ) → Step nodes (enable address alive p nodes)
    disables : (alive : ℕ → Bool) (p : ℕ) → Step nodes (disable address alive p nodes)

  pub data Reach : List DockNode → Type 0 where
    start : Reach []
    next : {nodes nodes' : List DockNode} → Reach nodes → Step nodes nodes' → Reach nodes'

  abbrev Good : List DockNode → Type 0
  Good nodes = Addressed address nodes × ((a : ℕ) → FirstOnly a nodes)

  dock-Good :
      (alive : ℕ → Bool) (p : ℕ) (nodes : List DockNode)
      → alive p ≡ true
      → Good nodes
      → Good (dock address alive (some p) nodes)
  unfolding add_page
  dock-Good alive p nodes living g =
      subst Good (sym (dock-eq address alive p nodes))
        (elim (Bool-cases (has_docked address alive p nodes)) [
          | inl has ↦ rw has g
          | inr missing ↦
              let free = not_has-NoneDocked address alive p nodes living g.0 (g.1 p) missing in
              rw missing (elim (Bool-cases (has_room address alive nodes)) [
                | inl room ↦ rw room (
                  took-Addressed alive p nodes g.0,
                  λ a. took-FirstOnly address alive p a nodes free (g.1 a),
                )
                | inr full ↦ rw full (
                  took-Addressed alive p _ (page-Addressed 32 nodes g.0),
                  λ a.
                      took-FirstOnly address alive p a _ (page-NoneDocked p 32 nodes free)
                        (page-FirstOnly a 32 nodes (g.1 a)),
                )
              ])
        ])

  call-Good :
      (alive : ℕ → Bool) (func : DockNode → DockNode) (p : ℕ) (nodes : List DockNode)
      → Keeps func
      → Good nodes
      → Good (call_on_node_for address alive p func nodes)
  call-Good alive func p nodes k g =
      (call-Addressed alive func k p nodes g.0, λ a. call-FirstOnly alive func k p a nodes (g.1 a))

  Step-Good : {nodes nodes' : List DockNode} → Step nodes nodes' → Good nodes → Good nodes'
  unfolding undock enable disable
  Step-Good {nodes} (docks alive p living) g = dock-Good alive p nodes living g
  Step-Good {nodes} (undocks alive p) g =
      call-Good alive (λ m. record m { docked = false }) p nodes (λ m. (refl, refl, λ d. refl)) g
  Step-Good {nodes} (enables alive p) g =
      call-Good alive (λ m. record m { enabled = true }) p nodes (λ m. (refl, refl, λ d. d)) g
  Step-Good {nodes} (disables alive p) g =
      call-Good alive (λ m. record m { enabled = false }) p nodes (λ m. (refl, refl, λ d. d)) g

  Reach-Good : {nodes : List DockNode} → Reach nodes → Good nodes
  unfolding Addressed FirstOnly
  Reach-Good start = (tt, λ a. tt)
  Reach-Good (next r s) = Step-Good s (Reach-Good r)

  -- Whatever sequence of calls is made on an empty dock, a walk calls its closure at most once on
  -- each object, whatever is still alive at the walk.
  pub walk-once :
      (alive : ℕ → Bool) (a : ℕ) (nodes : List DockNode)
      → Reach nodes
      → occurrences a (walk address alive nodes) ≤ 1
  walk-once alive a nodes r = walk-FirstOnly address alive a nodes ((Reach-Good r).1 a)
