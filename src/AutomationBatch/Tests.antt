-- ===== src/AutomationBatch/Tests.antt =====
-- Runs of automation batches on two objects, 1 and 2, where points are numbers.
use synthizer.Base.{
  ℕ, ◌≡◌, refl, true, false, Bool, Option, ◌≢◌, ◌++◌, ap, ◌+◌, length, length-append, arith, ◌&&◌,
  none, some, List, [], ◌∷◌, ◌==◌, if◌then◌else◌,
}
use synthizer.Samples.{nat_float}
use synthizer.AutomationBatch.{
  Objects, AutomationCommand, append_property, clear_property_command, send_user_event_command,
  Timelines, HasPoints, automation_batch, add_from_handle, add_commands, execute_on_context_thread,
  execute_batch, invalid, consumed_already, consume,
}
use synthizer.AutomationBatch.Commands.{Agree, apply_all}
use synthizer.AutomationBatch.Refinement.{accepted, add_commands-refines}

-- The property 9 cannot be automated.
abbrev objects : Objects ℕ
objects = record {
  is_valid = λ o. true;
  context_of = λ o. 5;
  validate_automation = λ o p x. if p == 9 then some 4 else none;
}

abbrev timelines : Timelines nat_float ℕ
timelines = record { points = λ o p. 100 ∷ []; events = λ o. [] }

abbrev commands : List (AutomationCommand nat_float ℕ)
commands =
    append_property 1 3 7
    ∷ clear_property_command 1 3
    ∷ append_property 1 3 8
    ∷ append_property 2 3 6
    ∷ send_user_event_command 1 2 11
    ∷ []

execute_run :
    (execute_on_context_thread
        (λ o. true)
        (add_commands objects commands (automation_batch 5)).0
        timelines).points
      1 3
    ≡ 8 ∷ []
unfolding execute_on_context_thread add_commands add_from_handle
execute_run = refl

throws_run :
    (add_commands objects (append_property 1 9 7 ∷ commands) (automation_batch 5)).1
    ≡ some (invalid 4)
unfolding add_commands add_from_handle
throws_run = refl

execute_batch_twice :
    (execute_batch true (consume (automation_batch {fl = nat_float} {Point = ℕ} 5))).1
    ≡ some consumed_already
unfolding execute_batch
execute_batch_twice = refl

abbrev held : Option (List ℕ) → ℕ
held none = 0
held (some ps) = 1 + length ps

absent : ◌≢◌ {A = Option (List ℕ)} none (some [])
absent e = let sizes : 0 ≡ 1 = ap held e in absurd (omega (arith, sizes))

pushed :
    (here : Bool) (ps : List ℕ) (x : ℕ) (rest : Option (List ℕ))
    → (here ≡ false → rest ≢ some [])
    → (if here then some (ps ++ (x ∷ [])) else rest) ≢ some []
pushed false ps x rest h e = h refl e
pushed true ps x rest h e =
    let sizes : 1 + length (ps ++ (x ∷ [])) ≡ 1 = ap held e in
    absurd (omega (arith, sizes, length-append ps (x ∷ [])))

commands-HasPoints : HasPoints (λ o. true) (add_commands objects commands (automation_batch 5)).0
unfolding add_commands add_from_handle
commands-HasPoints o p alive =
    pushed ((o == 2) && (p == 3)) _ 6 _
      (λ _. pushed ((o == 1) && (p == 3)) _ 8 _ (λ other. rw other absent))

add_commands-refines_example :
    Agree 1
      (execute_on_context_thread
        (λ o. true)
        (add_commands objects commands (automation_batch 5)).0
        timelines)
      (apply_all (accepted objects commands (automation_batch 5)) timelines)
add_commands-refines_example =
    add_commands-refines objects 5 commands (λ o. true) timelines 1 commands-HasPoints refl
