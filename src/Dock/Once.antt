-- ===== src/Dock/Once.antt =====
-- A walk of the dock of include/synthizer/dock.hpp meets no object twice.
use synthizer.Base.{
  occurrences, occurrences-of_append, ℕ, ◌≤◌, ◌≡◌, refl, sym, subst, ◌∙◌, inl, inr, Bool, true,
  false, Option, none, some, List, [], ◌∷◌, ◌==◌, if◌then◌else◌, arith, Bool-cases,
}
use synthizer.Dock.{
  DockNode, add_page, is_some_of, is_node_for, has_docked, node_of, take_node, dock, walked, walk,
}

-- No node of the object is docked.
unfoldable pub NoneDocked : ℕ → List DockNode → Type 0
NoneDocked a [] = Unit
NoneDocked a (n ∷ nodes) = (is_some_of a n.item ≡ true → n.docked ≡ false) × NoneDocked a nodes

-- Only the first node of the object may be docked.
unfoldable pub FirstOnly : ℕ → List DockNode → Type 0
FirstOnly a [] = Unit
FirstOnly a (n ∷ nodes) = if is_some_of a n.item then NoneDocked a nodes else FirstOnly a nodes

-- Every node stores the address of its object.
unfoldable pub Addressed : (ℕ → ℕ) → List DockNode → Type 0
Addressed address [] = Unit
Addressed address (n ∷ nodes) =
    ((a : ℕ) → is_some_of a n.item ≡ true → n.item_raw ≡ some (address a)) × Addressed address nodes

NoneDocked-FirstOnly : (a : ℕ) (nodes : List DockNode) → NoneDocked a nodes → FirstOnly a nodes
unfolding NoneDocked FirstOnly
NoneDocked-FirstOnly a [] h = tt
NoneDocked-FirstOnly a (n ∷ nodes) h = elim (Bool-cases (is_some_of a n.item)) [
  | inl e ↦ rw e h.1
  | inr e ↦ rw e (NoneDocked-FirstOnly a nodes h.1)
]

pub first_of :
    (a : ℕ) (n : DockNode) (nodes : List DockNode)
    → is_some_of a n.item ≡ true
    → FirstOnly a (n ∷ nodes)
    → NoneDocked a nodes
unfolding FirstOnly
first_of a n nodes e f = subst (λ b. if b then NoneDocked a nodes else FirstOnly a nodes) e f

pub others_of :
    (a : ℕ) (n : DockNode) (nodes : List DockNode) → FirstOnly a (n ∷ nodes) → FirstOnly a nodes
unfolding FirstOnly
others_of a n nodes f = elim (Bool-cases (is_some_of a n.item)) [
  | inl e ↦ NoneDocked-FirstOnly a nodes (first_of a n nodes e f)
  | inr e ↦ subst (λ b. if b then NoneDocked a nodes else FirstOnly a nodes) e f
]

pub FirstOnly-from :
    (a : ℕ) (n : DockNode) (nodes : List DockNode)
    → (is_some_of a n.item ≡ true → NoneDocked a nodes)
    → FirstOnly a nodes
    → FirstOnly a (n ∷ nodes)
unfolding FirstOnly
FirstOnly-from a n nodes h f = elim (Bool-cases (is_some_of a n.item)) [
  | inl e ↦ subst (λ b. if b then NoneDocked a nodes else FirstOnly a nodes) (sym e) (h e)
  | inr e ↦ subst (λ b. if b then NoneDocked a nodes else FirstOnly a nodes) (sym e) f
]

module _ (address : ℕ → ℕ) (alive : ℕ → Bool) where
  -- In an addressed dock, the nodes for a living object are those that hold it.
  pub node_for :
      (a : ℕ) (n : DockNode)
      → alive a ≡ true
      → (is_some_of a n.item ≡ true → n.item_raw ≡ some (address a))
      → is_node_for address alive a n ≡ is_some_of a n.item
  node_for a n living h = elim (Bool-cases (is_some_of a n.item)) [
    | inl e ↦ rw (h e) (ground (arith, living, e))
    | inr e ↦ ground (arith, living, e)
  ]

  pub not_has-NoneDocked :
      (a : ℕ) (nodes : List DockNode)
      → alive a ≡ true
      → Addressed address nodes
      → FirstOnly a nodes
      → has_docked address alive a nodes ≡ false
      → NoneDocked a nodes
  unfolding NoneDocked Addressed has_docked
  not_has-NoneDocked a [] living ad f h = tt
  not_has-NoneDocked a (n ∷ nodes) living ad f h =
      let unfolds : has_docked address alive a (n ∷ nodes)
          ≡ (if is_some_of a n.item then n.docked else has_docked address alive a nodes) =
        rw (node_for a n living (ad.0 a), has_docked) refl in
      elim (Bool-cases (is_some_of a n.item)) [
        | inl e ↦ (λ held. sym (unfolds ∙ rw e refl) ∙ h, first_of a n nodes e f)
        | inr e ↦ (
          λ held. cc,
          not_has-NoneDocked a nodes living ad.1 (others_of a n nodes f)
              (sym (unfolds ∙ rw e refl) ∙ h),
        )
      ]

  -- The nodes with the first that is not docked taken, and whether there is one.
  abbrev pub took : ℕ → List DockNode → List DockNode
  took p [] = []
  took p (n ∷ nodes) = if n.docked then n ∷ took p nodes else node_of address alive p ∷ nodes

  abbrev pub has_room : List DockNode → Bool
  has_room [] = false
  has_room (n ∷ nodes) = if n.docked then has_room nodes else true

  take_node-eq :
      (p : ℕ) (nodes : List DockNode)
      → take_node address alive p nodes ≡ (if has_room nodes then some (took p nodes) else none)
  unfolding take_node
  take_node-eq p [] = refl
  take_node-eq p (n ∷ nodes) =
      let rest = take_node-eq p nodes in
      elim (Bool-cases n.docked) [
        | inl d ↦ elim (Bool-cases (has_room nodes)) [
          | inl r ↦ simp (d, rest, r)
          | inr r ↦ simp (d, rest, r)
        ]
        | inr d ↦ simp d
      ]

  pub dock-eq :
      (p : ℕ) (nodes : List DockNode)
      → dock address alive (some p) nodes ≡ (
          if has_docked address alive p nodes
          then nodes
          else if has_room nodes
          then took p nodes
          else took p (add_page nodes))
  unfolding dock add_page take_node
  dock-eq p nodes = elim (Bool-cases (has_room nodes)) [
    | inl r ↦ rw (take_node-eq p nodes) (rw r refl)
    | inr r ↦ rw (take_node-eq p nodes) (rw r refl)
  ]

  -- A predicate of the nodes after one was taken, by whether the first is docked.
  pub took_cases :
      (P : List DockNode → Type 0) (p : ℕ) (n : DockNode) (nodes : List DockNode)
      → (n.docked ≡ true → P (n ∷ took p nodes))
      → (n.docked ≡ false → P (node_of address alive p ∷ nodes))
      → P (took p (n ∷ nodes))
  took_cases P p n nodes stays takes = elim (Bool-cases n.docked) [
    | inl d ↦
        subst (λ b. P (if b then n ∷ took p nodes else node_of address alive p ∷ nodes)) (sym d)
          (stays d)
    | inr d ↦
        subst (λ b. P (if b then n ∷ took p nodes else node_of address alive p ∷ nodes)) (sym d)
          (takes d)
  ]

  took-NoneDocked :
      (p a : ℕ) (nodes : List DockNode)
      → (p == a) ≡ false
      → NoneDocked a nodes
      → NoneDocked a (took p nodes)
  unfolding NoneDocked
  took-NoneDocked p a [] other h = tt
  took-NoneDocked p a (n ∷ nodes) other h =
      took_cases (NoneDocked a) p n nodes (λ d. (h.0, took-NoneDocked p a nodes other h.1))
        (λ d. ((λ held. cc), h.1))

  pub took-FirstOnly :
      (p a : ℕ) (nodes : List DockNode)
      → NoneDocked p nodes
      → FirstOnly a nodes
      → FirstOnly a (took p nodes)
  unfolding NoneDocked
  took-FirstOnly p a [] h f = f
  took-FirstOnly p a (n ∷ nodes) h f =
      took_cases (FirstOnly a) p n nodes
        (λ d.
          FirstOnly-from a n (took p nodes)
            (λ e. elim (Bool-cases (p == a)) [
              | inl same ↦
                  let at : a ≡ p = ground arith in
                  let off = h.0 (subst (λ k. is_some_of k n.item ≡ true) at e) in cc
              | inr other ↦ took-NoneDocked p a nodes other (first_of a n nodes e f)
            ])
            (took-FirstOnly p a nodes h.1 (others_of a n nodes f)))
        (λ d.
          FirstOnly-from a (node_of address alive p) nodes
            (λ e. subst (λ k. NoneDocked k nodes) (ground arith) h.1) (others_of a n nodes f))

  walked-bound :
      (a : ℕ) (docked enabled : Bool) (item : Option ℕ)
      → occurrences a (walked address alive docked enabled item) ≤ 1
  walked-bound a true true (some b) = ground arith
  walked-bound a true true none = omega arith
  walked-bound a true false item = omega arith
  walked-bound a false enabled item = omega arith

  pub walked-absent :
      (a : ℕ) (docked enabled : Bool) (item : Option ℕ)
      → (is_some_of a item ≡ true → docked ≡ false)
      → occurrences a (walked address alive docked enabled item) ≡ 0
  walked-absent a true true (some b) h = ground arith
  walked-absent a true true none h = refl
  walked-absent a true false item h = refl
  walked-absent a false enabled item h = refl

  pub walk-NoneDocked :
      (a : ℕ) (nodes : List DockNode)
      → NoneDocked a nodes
      → occurrences a (walk address alive nodes) ≡ 0
  unfolding NoneDocked walk
  walk-NoneDocked a [] h = refl
  walk-NoneDocked a (n ∷ nodes) h = omega (
    arith,
    occurrences-of_append a (walked address alive n.docked n.enabled n.item)
        (walk address alive nodes),
    walked-absent a n.docked n.enabled n.item h.0,
    walk-NoneDocked a nodes h.1,
  )

  pub walk-FirstOnly :
      (a : ℕ) (nodes : List DockNode)
      → FirstOnly a nodes
      → occurrences a (walk address alive nodes) ≤ 1
  unfolding walk
  walk-FirstOnly a [] f = omega arith
  walk-FirstOnly a (n ∷ nodes) f =
      let both =
        occurrences-of_append a (walked address alive n.docked n.enabled n.item)
          (walk address alive nodes) in
      elim (Bool-cases (is_some_of a n.item)) [
        | inl e ↦ omega (
          arith,
          both,
          walked-bound a n.docked n.enabled n.item,
          walk-NoneDocked a nodes (first_of a n nodes e f),
        )
        | inr e ↦ omega (
          arith,
          both,
          walked-absent a n.docked n.enabled n.item (λ t. cc),
          walk-FirstOnly a nodes (others_of a n nodes f),
        )
      ]
