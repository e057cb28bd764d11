-- ===== src/Events/Extract.antt =====
-- The extraction of an event of src/events.cpp takes a reference to every object or to none.
use synthizer.Base.{
  occurrences, ℕ, ◌+◌, ◌-◌, ◌^◌, ◌<◌, ◌≤◌, ◌≡◌, refl, ap, sym, subst, ◌∙◌, ◌⊎◌, inl, inr, true,
  false, none, some, List, [], ◌∷◌, ◌++◌, length, ◌==◌, if◌then◌else◌, All, arith, Bool-cases,
  append_assoc, append-nil, ℕ_discrete, length-append,
}
use synthizer.Fader.{add32}
use synthizer.Memory.{Exposable, Store, put, lock, inc_ref, dec_ref}
use synthizer.Events.{Event, invalid_event, PendingEvent, dec_all, revive, extract}

-- The object with `n` references more.
abbrev pub with_more : ℕ → Exposable → Exposable
with_more n x = record x { reference_count = x.reference_count + n }

-- An object that a handle can be revived to.
abbrev pub Revivable : Store → ℕ → Type 0
Revivable s a = (lock (s a) ≡ true) × (0 < (s a).reference_count)

occurrences-append :
    (a b : ℕ) (xs : List ℕ)
    → occurrences a (xs ++ (b ∷ [])) ≡ occurrences a xs + (if a == b then 1 else 0)
occurrences-append a b [] = omega arith
occurrences-append a b (x ∷ xs) = omega (arith, occurrences-append a b xs)

occurrences-le : (a : ℕ) (xs : List ℕ) → occurrences a xs ≤ length xs
occurrences-le a [] = omega arith
occurrences-le a (x ∷ xs) = ground (arith, occurrences-le a xs)

dec_ref-with_more :
    (n : ℕ) (x y : Exposable)
    → y ≡ with_more (1 + n) x
    → 0 < x.reference_count
    → dec_ref y ≡ some (with_more n x)
dec_ref-with_more n x y e pos =
    let many : (x.reference_count + (1 + n) == 0) ≡ false = ground arith in
    let kept : (x.reference_count + (1 + n) == 1) ≡ false = ground arith in
    let back : x.reference_count + (1 + n) - 1 ≡ x.reference_count + n = omega arith in
    ap dec_ref e ∙ rw (many, kept) (ap (λ k. some (record x { reference_count = k })) back)

inc_ref-with_more :
    (n : ℕ) (x y : Exposable)
    → y ≡ with_more n x
    → 0 < x.reference_count
    → x.reference_count + n + 1 < 2 ^ 32
    → inc_ref y ≡ some (with_more (n + 1) x)
inc_ref-with_more n x y e pos small =
    let many : (x.reference_count + n == 0) ≡ false = ground arith in
    let more : add32 (x.reference_count + n) 1 ≡ x.reference_count + (n + 1) = omega arith in
    ap inc_ref e ∙ rw many (ap (λ k. some (record x { reference_count = k })) more)

-- Putting an object whose count went to that of a list of handles.
put-counts :
    (b : ℕ) (s₀ s : Store) (now then_ : ℕ → ℕ)
    → ((a : ℕ) → s a ≡ with_more (now a) (s₀ a))
    → ((a : ℕ) → (a == b) ≡ false → now a ≡ then_ a)
    → (a : ℕ) → put b (with_more (then_ b) (s₀ b)) s a ≡ with_more (then_ a) (s₀ a)
put-counts b s₀ s now then_ e same a = elim (Bool-cases (a == b)) [
  | inl at ↦ let here : b ≡ a = ground arith in rw at (ap (λ k. with_more (then_ k) (s₀ k)) here)
  | inr off ↦ rw off (e a ∙ ap (λ n. with_more n (s₀ a)) (same a off))
]

-- Giving back one reference for each handle undoes taking them.
dec_all-undoes :
    (done : List ℕ) (s₀ s : Store)
    → All (λ a. 0 < (s₀ a).reference_count) done
    → ((a : ℕ) → s a ≡ with_more (occurrences a done) (s₀ a))
    → (s' : Store) × (dec_all done s ≡ some s') × ((a : ℕ) → s' a ≡ s₀ a)
unfolding dec_all
dec_all-undoes [] s₀ s counts e =
    (s, refl, λ a. e a ∙ ap (λ n. record (s₀ a) { reference_count = n }) (omega arith))
dec_all-undoes (b ∷ done) s₀ s counts e =
    let first : occurrences b (b ∷ done) ≡ 1 + occurrences b done = ground arith in
    let drops =
      dec_ref-with_more (occurrences b done) (s₀ b) (s b) (e b ∙ ap (λ n. with_more n (s₀ b)) first)
        counts.0 in
    let rest = dec_all-undoes done s₀ (put b (with_more (occurrences b done) (s₀ b)) s) counts.1 (
      put-counts b s₀ s (λ a. occurrences a (b ∷ done)) (λ a. occurrences a done) e
        (λ a off. rw off (omega arith))) in
    (rest.0, rw (drops, dec_all) rest.1, rest.2)

-- Extraction in one of its two outcomes.
pub data Extracted (s₀ : Store) (handles : List ℕ) (event : Event) : Event × Store → Type 0 where
  all_revived :
      (s' : Store)
      → All (Revivable s₀) handles
      → ((a : ℕ) → s' a ≡ with_more (occurrences a handles) (s₀ a))
      → Extracted s₀ handles event (event, s')
  none_revived :
      (s' : Store) (a : ℕ)
      → 0 < occurrences a handles
      → (lock (s₀ a) ≡ false) ⊎ ((s₀ a).reference_count ≡ 0)
      → ((b : ℕ) → s' b ≡ s₀ b)
      → Extracted s₀ handles event (invalid_event, s')

counts_of :
    (s₀ : Store) (xs : List ℕ) → All (Revivable s₀) xs → All (λ a. 0 < (s₀ a).reference_count) xs
counts_of s₀ [] h = tt
counts_of s₀ (x ∷ xs) h = (h.0.1, counts_of s₀ xs h.1)

dead-not_done :
    (s₀ : Store) (b : ℕ) (xs : List ℕ)
    → All (Revivable s₀) xs
    → (s₀ b).reference_count ≡ 0
    → occurrences b xs ≡ 0
dead-not_done s₀ b [] h dead = refl
dead-not_done s₀ b (x ∷ xs) h dead = elim (Bool-cases (b == x)) [
  | inl at ↦
      let same : x ≡ b = ground arith in
      absurd (omega (arith, dead, subst (λ k. 0 < (s₀ k).reference_count) same h.0.1))
  | inr off ↦ rw off (omega (arith, dead-not_done s₀ b xs h.1 dead))
]

All-append :
    (s₀ : Store) (xs : List ℕ) (b : ℕ)
    → All (Revivable s₀) xs
    → Revivable s₀ b
    → All (Revivable s₀) (xs ++ (b ∷ []))
All-append s₀ [] b h last = (last, tt)
All-append s₀ (x ∷ xs) b h last = (h.0, All-append s₀ xs b h.1 last)

occurs : (done rest : List ℕ) (b : ℕ) → 0 < occurrences b (done ++ (b ∷ rest))
occurs [] rest b = let same : (b == b) ≡ true = ground arith in rw same (omega arith)
occurs (x ∷ done) rest b = omega (arith, occurs done rest b)

gives_back :
    (done rest : List ℕ) (b : ℕ) (event : Event) (s₀ s : Store)
    → All (Revivable s₀) done
    → ((a : ℕ) → s a ≡ with_more (occurrences a done) (s₀ a))
    → (if lock (s b) then inc_ref (s b) else none) ≡ none
    → (lock (s₀ b) ≡ false) ⊎ ((s₀ b).reference_count ≡ 0)
    → (r : Event × Store) × (revive done (b ∷ rest) event s ≡ some r)
      × Extracted s₀ (done ++ (b ∷ rest)) event r
unfolding revive
gives_back done rest b event s₀ s ok e fails why =
    let undone = dec_all-undoes done s₀ s (counts_of s₀ done ok) e in
    (
      (invalid_event, undone.0),
      rw (fails, revive) (rw undone.1 refl),
      none_revived undone.0 b (occurs done rest b) why undone.2,
    )

revive-Extracted :
    (done rest : List ℕ) (event : Event) (s₀ s : Store)
    → All (Revivable s₀) done
    → ((a : ℕ) → s a ≡ with_more (occurrences a done) (s₀ a))
    → ((a : ℕ) → (s₀ a).reference_count + length (done ++ rest) < 2 ^ 32)
    → (r : Event × Store) × (revive done rest event s ≡ some r)
      × Extracted s₀ (done ++ rest) event r
unfolding revive
revive-Extracted done [] event s₀ s ok e small = (
  (event, s),
  refl,
  subst (λ l. Extracted s₀ l event (event, s)) (sym (append-nil done)) (all_revived s ok e),
)
revive-Extracted done (b ∷ rest) event s₀ s ok e small = elim (Bool-cases (lock (s₀ b))) [
  | inr gone ↦
      let off : lock (s b) ≡ false = ap lock (e b) ∙ gone in
      gives_back done rest b event s₀ s ok e (rw off refl) (inl gone)
  | inl alive ↦
      let on : lock (s b) ≡ true = ap lock (e b) ∙ alive in
      elim (ℕ_discrete (s₀ b).reference_count 0) [
        | yes dead ↦
            let zero_count : (s b).reference_count ≡ 0 =
              ap (λ x. x.reference_count) (e b)
              ∙ omega (arith, dead, dead-not_done s₀ b done ok dead) in
            gives_back done rest b event s₀ s ok e (rw on (rw zero_count refl)) (inr dead)
        | no counted ↦
            let pos : 0 < (s₀ b).reference_count = omega (arith, counted) in
            let all = done ++ (b ∷ []) in
            let last : occurrences b done + 1 ≡ occurrences b all =
              ground (arith, occurrences-append b b done) in
            let taken : inc_ref (s b) ≡ some (with_more (occurrences b all) (s₀ b)) =
              inc_ref-with_more (occurrences b done) (s₀ b) (s b) (e b) pos
                (omega (arith, small b, occurrences-le b done, length-append done (b ∷ rest)))
              ∙ ap (λ n. some (with_more n (s₀ b))) last in
            let assoc = append_assoc done (b ∷ []) rest in
            let next =
              revive-Extracted all rest event s₀ (put b (with_more (occurrences b all) (s₀ b)) s)
                (All-append s₀ done b ok (alive, pos))
                (put-counts b s₀ s (λ a. occurrences a done) (λ a. occurrences a all) e
                  (λ a off. ground (arith, occurrences-append a b done)))
                (λ a.
                  subst (λ l. (s₀ a).reference_count + length l < 2 ^ 32) (sym assoc) (small a)) in
            (
              next.0,
              rw (on, revive) (rw taken next.1),
              subst (λ l. Extracted s₀ l event next.0) assoc next.2,
            )
      ]
]

-- Extraction of an event never fails its assertion, and has one of two outcomes: the event itself,
-- where every object that it refers to can be revived, and then each has one reference more for
-- every time that the event refers to it and nothing else is changed; or the invalid event, where
-- one of them cannot, and then every object is as it was. The counts do not reach 2^32.
pub extract-all_or_none :
    (p : PendingEvent) (s : Store)
    → ((a : ℕ) → (s a).reference_count + length p.referenced_handles < 2 ^ 32)
    → (r : Event × Store) × (extract p s ≡ some r) × Extracted s p.referenced_handles p.event r
unfolding extract
extract-all_or_none p s small =
    revive-Extracted [] p.referenced_handles p.event s s tt
      (λ a. ap (λ n. record (s a) { reference_count = n }) (omega arith)) small
