-- ===== src/AutomationBatch/Commands.antt =====
-- src/automation_batch.cpp: what adding one command to a batch changes in its execution.
use synthizer.Base.{
  ℕ, ◌≡◌, refl, ap, ◌∙◌, sym, Bool, true, false, ◌&&◌, ◌||◌, Option, none, some, List, [], ◌∷◌,
  ◌++◌, ◌==◌, if◌then◌else◌, append_assoc,
}
use synthizer.Float.{Float}
use synthizer.Context.{sample_rate}
use synthizer.AutomationBatch.{
  BatchError, UserEvent, AutomationBatch, AutomationCommand, append_property,
  clear_property_command, clear_all_properties_command, send_user_event_command,
  clear_events_command, unknown_command, Timelines, points_of, empty_if_found, push_point,
  drop_points, clear_all_properties_of, send_user_event, clear_events_of, execute_on_context_thread,
  unless,
}

module _ {Point : Type 0} where
  -- What executing a batch leaves of one property or of the events of a living object.
  left_of : Bool → Bool → Option (List Point) → List Point → List Point
  left_of all one added before = (if one then [] else if all then [] else before) ++ points_of added

  -- One field at a time: adding a command to the batch is applying it after the batch.
  left_of-push :
      (here all one : Bool) (added : Option (List Point)) (before : List Point) (x : Point)
      → left_of all one (if here then some (points_of added ++ (x ∷ [])) else added) before
        ≡ (if here then left_of all one added before ++ (x ∷ []) else left_of all one added before)
  unfolding left_of
  left_of-push false all one added before x = refl
  left_of-push true all one added before x =
      sym (append_assoc (if one then [] else if all then [] else before) (points_of added) (x ∷ []))

  left_of-drop :
      (here all one : Bool) (added : Option (List Point)) (before : List Point)
      → left_of all (here || one) (if here then empty_if_found added else added) before
        ≡ (if here then [] else left_of all one added before)
  unfolding left_of
  left_of-drop false all one added before = refl
  left_of-drop true all one none before = refl
  left_of-drop true all one (some ps) before = refl

  left_of-all :
      (here all one : Bool) (added : Option (List Point)) (before : List Point)
      → left_of (here || all) (if here then false else one) (if here then none else added) before
        ≡ (if here then [] else left_of all one added before)
  unfolding left_of
  left_of-all false all one added before = refl
  left_of-all true all one added before = refl

module _ {E : Type 0} where
  events-push :
      (here : Bool) (before added : List E) (x : E)
      → before ++ (if here then added ++ (x ∷ []) else added)
        ≡ (if here then (before ++ added) ++ (x ∷ []) else before ++ added)
  events-push false before added x = refl
  events-push true before added x = sym (append_assoc before added (x ∷ []))

  events-clear :
      (here clears : Bool) (before added : List E)
      → (if here || clears then [] else before) ++ (if here then [] else added)
        ≡ (if here then [] else (if clears then [] else before) ++ added)
  events-clear false clears before added = refl
  events-clear true clears before added = refl

module _ {fl : Float} {Point : Type 0} where
  -- One command applied to the timelines of the objects at once.
  abbrev pub apply : AutomationCommand fl Point → Timelines fl Point → Timelines fl Point
  apply (append_property obj property x) t = record t {
    points =
        λ o p. if (o == obj) && (p == property) then t.points o p ++ (x ∷ []) else t.points o p;
  }
  apply (clear_property_command obj property) t = record t {
    points = λ o p. if (o == obj) && (p == property) then [] else t.points o p;
  }
  apply (clear_all_properties_command obj) t = record t {
    points = λ o p. if o == obj then [] else t.points o p;
  }
  apply (send_user_event_command obj time param) t =
      let event : UserEvent fl = record {
        time = fl.fmul time (fl.of_unsigned sample_rate);
        param = param;
      } in
      record t { events = λ o. if o == obj then t.events o ++ (event ∷ []) else t.events o }
  apply (clear_events_command obj) t = record t {
    events = λ o. if o == obj then [] else t.events o;
  }
  apply (unknown_command obj) t = t

  abbrev pub apply_all : List (AutomationCommand fl Point) → Timelines fl Point → Timelines fl Point
  apply_all [] t = t
  apply_all (cmd ∷ cmds) t = apply_all cmds (apply cmd t)

  points_left :
      (alive : ℕ → Bool) (b : AutomationBatch fl Point) (t : Timelines fl Point) (o p : ℕ)
      → alive o ≡ true
      → (execute_on_context_thread alive b t).points o p
        ≡ left_of
            (b.clear_all_properties o)
            (b.cleared_properties o p)
            (b.property_automation o p)
            (t.points o p)
  unfolding execute_on_context_thread left_of
  points_left alive b t o p e = rw e refl

  events_left :
      (alive : ℕ → Bool) (b : AutomationBatch fl Point) (t : Timelines fl Point) (o : ℕ)
      → alive o ≡ true
      → (execute_on_context_thread alive b t).events o
        ≡ (if b.clear_events o then [] else t.events o) ++ b.scheduled_events o
  unfolding execute_on_context_thread
  events_left alive b t o e = rw e refl

  -- The timelines agree at an object.
  abbrev pub Agree : ℕ → Timelines fl Point → Timelines fl Point → Type 0
  Agree o t u = ((p : ℕ) → t.points o p ≡ u.points o p) × (t.events o ≡ u.events o)

  apply-Agree :
      (o : ℕ) (cmd : AutomationCommand fl Point) (t u : Timelines fl Point)
      → Agree o t u
      → Agree o (apply cmd t) (apply cmd u)
  apply-Agree o (append_property obj property x) t u h =
      (λ p. ap (λ l. if (o == obj) && (p == property) then l ++ (x ∷ []) else l) (h.0 p), h.1)
  apply-Agree o (clear_property_command obj property) t u h =
      (λ p. ap (λ l. if (o == obj) && (p == property) then [] else l) (h.0 p), h.1)
  apply-Agree o (clear_all_properties_command obj) t u h =
      (λ p. ap (λ l. if o == obj then [] else l) (h.0 p), h.1)
  apply-Agree o (send_user_event_command obj time param) t u h =
      let event : UserEvent fl = record {
        time = fl.fmul time (fl.of_unsigned sample_rate);
        param = param;
      } in
      (h.0, ap (λ l. if o == obj then l ++ (event ∷ []) else l) h.1)
  apply-Agree o (clear_events_command obj) t u h = (h.0, ap (λ l. if o == obj then [] else l) h.1)
  apply-Agree o (unknown_command obj) t u h = h

  pub apply_all-Agree :
      (o : ℕ) (cmds : List (AutomationCommand fl Point)) (t u : Timelines fl Point)
      → Agree o t u
      → Agree o (apply_all cmds t) (apply_all cmds u)
  apply_all-Agree o [] t u h = h
  apply_all-Agree o (cmd ∷ cmds) t u h =
      apply_all-Agree o cmds (apply cmd t) (apply cmd u) (apply-Agree o cmd t u h)

  -- The answer `r` to adding a command to `b`: either the command comes after what the batch did
  -- before, or nothing changes.
  unfoldable pub Sound :
      AutomationCommand fl Point
      → AutomationBatch fl Point
      → AutomationBatch fl Point × Option BatchError
      → Type 0
  Sound cmd b r =
      (r.1 ≡ none
        → (alive : ℕ → Bool) (t : Timelines fl Point) (o : ℕ) → alive o ≡ true
        → Agree o (execute_on_context_thread alive r.0 t)
            (apply cmd (execute_on_context_thread alive b t)))
      × ((e : BatchError) → r.1 ≡ some e → r.0 ≡ b)

  pub added-Sound :
      (cmd : AutomationCommand fl Point) (b b' : AutomationBatch fl Point)
      (error : Option BatchError)
      → ((alive : ℕ → Bool) (t : Timelines fl Point) (o : ℕ)
          → alive o ≡ true
          → Agree o
              (execute_on_context_thread alive b' t)
              (apply cmd (execute_on_context_thread alive b t)))
      → Sound cmd b (unless error b b')
  unfolding Sound
  added-Sound cmd b b' none h = (λ e. h, λ e f. cc)
  added-Sound cmd b b' (some x) h = (λ e. cc, λ e f. refl)

  pub refused-Sound :
      (cmd : AutomationCommand fl Point) (b : AutomationBatch fl Point) (e : BatchError)
      → Sound cmd b (b, some e)
  unfolding Sound
  refused-Sound cmd b e = (λ f. cc, λ f g. refl)

  pub push_point-Agree :
      (obj property : ℕ) (x : Point) (b : AutomationBatch fl Point) (alive : ℕ → Bool)
      (t : Timelines fl Point) (o : ℕ)
      → alive o ≡ true
      → Agree o
          (execute_on_context_thread alive (push_point obj property x b) t)
          (apply (append_property obj property x) (execute_on_context_thread alive b t))
  push_point-Agree obj property x b alive t o e = (
    λ p.
        let here = (o == obj) && (p == property) in
        points_left alive (push_point obj property x b) t o p e
        ∙ left_of-push here (b.clear_all_properties o) (b.cleared_properties o p)
            (b.property_automation o p) (t.points o p) x
        ∙ sym (ap (λ l. if here then l ++ (x ∷ []) else l) (points_left alive b t o p e)),
    events_left alive (push_point obj property x b) t o e ∙ sym (events_left alive b t o e),
  )

  pub drop_points-Agree :
      (obj property : ℕ) (b : AutomationBatch fl Point) (alive : ℕ → Bool) (t : Timelines fl Point)
      (o : ℕ)
      → alive o ≡ true
      → Agree o
          (execute_on_context_thread alive (drop_points obj property b) t)
          (apply (clear_property_command obj property) (execute_on_context_thread alive b t))
  drop_points-Agree obj property b alive t o e = (
    λ p.
        let here = (o == obj) && (p == property) in
        points_left alive (drop_points obj property b) t o p e
        ∙ left_of-drop here (b.clear_all_properties o) (b.cleared_properties o p)
            (b.property_automation o p) (t.points o p)
        ∙ sym (ap (λ l. if here then [] else l) (points_left alive b t o p e)),
    events_left alive (drop_points obj property b) t o e ∙ sym (events_left alive b t o e),
  )

  pub clear_all-Agree :
      (obj : ℕ) (b : AutomationBatch fl Point) (alive : ℕ → Bool) (t : Timelines fl Point) (o : ℕ)
      → alive o ≡ true
      → Agree o
          (execute_on_context_thread alive (clear_all_properties_of obj b) t)
          (apply (clear_all_properties_command obj) (execute_on_context_thread alive b t))
  unfolding clear_all_properties_of
  clear_all-Agree obj b alive t o e = (
    λ p.
        points_left alive (clear_all_properties_of obj b) t o p e
        ∙ left_of-all (o == obj) (b.clear_all_properties o) (b.cleared_properties o p)
            (b.property_automation o p) (t.points o p)
        ∙ sym (ap (λ l. if o == obj then [] else l) (points_left alive b t o p e)),
    events_left alive (clear_all_properties_of obj b) t o e ∙ sym (events_left alive b t o e),
  )

  pub send-Agree :
      (obj : ℕ) (time : fl.Real) (param : ℕ) (b : AutomationBatch fl Point) (alive : ℕ → Bool)
      (t : Timelines fl Point) (o : ℕ)
      → alive o ≡ true
      → Agree o
          (execute_on_context_thread alive (send_user_event obj time param b) t)
          (apply (send_user_event_command obj time param) (execute_on_context_thread alive b t))
  unfolding send_user_event
  send-Agree obj time param b alive t o e =
      let event : UserEvent fl = record {
        time = fl.fmul time (fl.of_unsigned sample_rate);
        param = param;
      } in
      (
        λ p.
            points_left alive (send_user_event obj time param b) t o p e
            ∙ sym (points_left alive b t o p e),
        events_left alive (send_user_event obj time param b) t o e
            ∙ events-push (o == obj) (if b.clear_events o then [] else t.events o)
                (b.scheduled_events o) event
            ∙ sym (ap (λ l. if o == obj then l ++ (event ∷ []) else l) (events_left alive b t o e)),
      )

  pub clear_events-Agree :
      (obj : ℕ) (b : AutomationBatch fl Point) (alive : ℕ → Bool) (t : Timelines fl Point) (o : ℕ)
      → alive o ≡ true
      → Agree o
          (execute_on_context_thread alive (clear_events_of obj b) t)
          (apply (clear_events_command obj) (execute_on_context_thread alive b t))
  unfolding clear_events_of
  clear_events-Agree obj b alive t o e = (
    λ p. points_left alive (clear_events_of obj b) t o p e ∙ sym (points_left alive b t o p e),
    events_left alive (clear_events_of obj b) t o e
        ∙ events-clear (o == obj) (b.clear_events o) (t.events o) (b.scheduled_events o)
        ∙ sym (ap (λ l. if o == obj then [] else l) (events_left alive b t o e)),
  )
