-- ===== src/AutomationBatch/Refinement.antt =====
-- src/automation_batch.cpp: a batch does what its commands would do one after the other.
use synthizer.Base.{
  ℕ, ◌≡◌, refl, ap, ◌∙◌, sym, subst, Bool, true, false, Option, none, some, List, [], ◌∷◌,
  append-nil, inl, inr, Bool-cases, Option-cases,
}
use synthizer.Float.{Float}
use synthizer.AutomationBatch.{
  BatchError, Objects, AutomationBatch, AutomationCommand, append_property, clear_property_command,
  clear_all_properties_command, send_user_event_command, clear_events_command, unknown_command,
  Timelines, HasPoints, push_point, drop_points, clear_all_properties_of, send_user_event,
  clear_events_of, automate_property, clear_property, add_command, add_from_handle, add_loop,
  add_commands, execute_on_context_thread, target_of, automation_batch, not_supported,
  invalid_target,
}
use synthizer.AutomationBatch.Commands.{
  apply, apply_all, Agree, apply_all-Agree, Sound, added-Sound, refused-Sound, push_point-Agree,
  drop_points-Agree, clear_all-Agree, send-Agree, clear_events-Agree,
}

module _ {fl : Float} {Point : Type 0} (objects : Objects Point) where
  add_command-Sound :
      (cmd : AutomationCommand fl Point) (b : AutomationBatch fl Point)
      → Sound cmd b (add_command objects cmd b)
  unfolding add_command automate_property clear_property
  add_command-Sound (append_property o p x) b =
      added-Sound (append_property o p x) b (push_point o p x b) _ (push_point-Agree o p x b)
  add_command-Sound (clear_property_command o p) b =
      added-Sound (clear_property_command o p) b (drop_points o p b) _ (drop_points-Agree o p b)
  add_command-Sound (clear_all_properties_command o) b =
      added-Sound (clear_all_properties_command o) b (clear_all_properties_of o b) none
        (clear_all-Agree o b)
  add_command-Sound (send_user_event_command o t x) b =
      added-Sound (send_user_event_command o t x) b (send_user_event o t x b) none
        (send-Agree o t x b)
  add_command-Sound (clear_events_command o) b =
      added-Sound (clear_events_command o) b (clear_events_of o b) none (clear_events-Agree o b)
  add_command-Sound (unknown_command o) b = refused-Sound (unknown_command o) b not_supported

  add_from_handle-Sound :
      (cmd : AutomationCommand fl Point) (b : AutomationBatch fl Point)
      → Sound cmd b (add_from_handle objects cmd b)
  unfolding add_from_handle
  add_from_handle-Sound cmd b = elim (Bool-cases (objects.is_valid (target_of cmd))) [
    | inl e ↦ rw e (add_command-Sound cmd b)
    | inr e ↦ rw e (refused-Sound cmd b invalid_target)
  ]

  -- The commands before the first that throws.
  abbrev pub accepted :
      List (AutomationCommand fl Point)
      → AutomationBatch fl Point
      → List (AutomationCommand fl Point)
  accepted [] b = []
  accepted (cmd ∷ cmds) b =
      let added = add_from_handle objects cmd b in
      elim added.1 [ some e ↦ [] | none ↦ cmd ∷ accepted cmds added.0 ]

  add_loop-refines :
      (cmds : List (AutomationCommand fl Point)) (b : AutomationBatch fl Point) (alive : ℕ → Bool)
      (t : Timelines fl Point) (o : ℕ)
      → alive o ≡ true
      → Agree o
          (execute_on_context_thread alive (add_loop objects cmds b).0 t)
          (apply_all (accepted cmds b) (execute_on_context_thread alive b t))
  unfolding add_loop Sound
  add_loop-refines [] b alive t o h = (λ p. refl, refl)
  add_loop-refines (cmd ∷ cmds) b alive t o h =
      let added = add_from_handle objects cmd b in
      let sound = add_from_handle-Sound cmd b in
      elim (Option-cases added.1) [
        | inl e ↦
            let rest = add_loop-refines cmds added.0 alive t o h in
            let first =
              apply_all-Agree o (accepted cmds added.0) (execute_on_context_thread alive added.0 t)
                (apply cmd (execute_on_context_thread alive b t)) (sound.0 e alive t o h) in
            rw (e, add_loop, accepted) (λ p. rest.0 p ∙ first.0 p, rest.1 ∙ first.1)
        | inr (x, e) ↦
            rw (e, add_loop, accepted)
              (subst
                (λ c.
                  Agree o (execute_on_context_thread alive c t)
                    (execute_on_context_thread alive b t))
                (sym (sound.1 x e)) (λ p. refl, refl))
      ]

  loop_next :
      (cmd : AutomationCommand fl Point) (cmds : List (AutomationCommand fl Point))
      (b : AutomationBatch fl Point)
      → (add_from_handle objects cmd b).1 ≡ none
      → add_loop objects (cmd ∷ cmds) b ≡ add_loop objects cmds (add_from_handle objects cmd b).0
  unfolding add_loop
  loop_next cmd cmds b e = rw (e, add_loop) refl

  loop_stops :
      (cmd : AutomationCommand fl Point) (cmds : List (AutomationCommand fl Point))
      (b : AutomationBatch fl Point) (x : BatchError)
      → (add_from_handle objects cmd b).1 ≡ some x
      → (add_loop objects (cmd ∷ cmds) b).1 ≡ some x
  unfolding add_loop
  loop_stops cmd cmds b x e = rw (e, add_loop) refl

  add_loop-accepts :
      (cmds : List (AutomationCommand fl Point)) (b : AutomationBatch fl Point)
      → (add_loop objects cmds b).1 ≡ none
      → accepted cmds b ≡ cmds
  add_loop-accepts [] b e = refl
  add_loop-accepts (cmd ∷ cmds) b e =
      let added = add_from_handle objects cmd b in
      elim (Option-cases added.1) [
        | inl f ↦
            rw (f, accepted)
              (ap (λ l. cmd ∷ l)
                (add_loop-accepts cmds added.0 (
                  sym (
                    ap (λ (r : AutomationBatch fl Point × Option BatchError). r.1)
                      (loop_next cmd cmds b f))
                  ∙ e)))
        | inr (x, f) ↦ absurd (cc (loop_stops cmd cmds b x f, e))
      ]

  -- An object that is gone is left alone.
  pub untouched :
      (alive : ℕ → Bool) (b : AutomationBatch fl Point) (t : Timelines fl Point) (o : ℕ)
      → alive o ≡ false
      → Agree o (execute_on_context_thread alive b t) t
  unfolding execute_on_context_thread
  untouched alive b t o e = (λ p. rw e refl, rw e refl)

  fresh :
      (alive : ℕ → Bool) (context : ℕ) (t : Timelines fl Point) (o : ℕ)
      → alive o ≡ true
      → Agree o (execute_on_context_thread alive (automation_batch context) t) t
  unfolding execute_on_context_thread
  fresh alive context t o e =
      (λ p. rw e (append-nil (t.points o p)), rw e (append-nil (t.events o)))

  -- Adding throws nothing only if it accepts every command.
  pub add_commands-accepts :
      (context : ℕ) (cmds : List (AutomationCommand fl Point))
      → (add_commands objects cmds (automation_batch context)).1 ≡ none
      → accepted cmds (automation_batch context) ≡ cmds
  unfolding add_commands
  add_commands-accepts context cmds e = add_loop-accepts cmds (automation_batch context) e

  -- Where the batch that commands make of a new one holds no empty list of points for a living
  -- object, as it does after points of a property were added and cleared and none was added since:
  -- executing it leaves an object that is then alive as if the commands accepted, which are those
  -- before the first that throws, had been applied to it one after the other.
  pub add_commands-refines :
      (context : ℕ) (cmds : List (AutomationCommand fl Point)) (alive : ℕ → Bool)
      (t : Timelines fl Point) (o : ℕ)
      → HasPoints alive (add_commands objects cmds (automation_batch context)).0
      → alive o ≡ true
      → Agree o
          (execute_on_context_thread alive
            (add_commands objects cmds (automation_batch context)).0
            t)
          (apply_all (accepted cmds (automation_batch context)) t)
  unfolding add_commands
  add_commands-refines context cmds alive t o full e =
      let batch = add_loop-refines cmds (automation_batch context) alive t o e in
      let start =
        apply_all-Agree o (accepted cmds (automation_batch context))
          (execute_on_context_thread alive (automation_batch context) t) t
          (fresh alive context t o e) in
      (λ p. batch.0 p ∙ start.0 p, batch.1 ∙ start.1)
