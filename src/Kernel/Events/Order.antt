-- ===== src/Kernel/Events/Order.antt =====
-- unaos/crates/kernel/src/events.rs: the queue keeps its bound and its order over any interleaving of
-- interrupts, which push, and the main loop, which pops.
use una_os.Prelude.{◌≤◌, ◌≡◌, refl, ap, sym, ◌∙◌, arith, List, [], ◌∷◌, ◌++◌, append_assoc}
use una_os.Prelude.{none, some, Bool, true, false, length, ltb, if◌then◌else◌, length-append}
use una_os.Prelude.{Bool-cases, inl, inr}
use una_os.Kernel.Events.{cap, push_event, pop_event}

module _ {E : Type 0} where
  -- A run of the two sides: the queue at the end, the events that were accepted and those that were
  -- delivered, each in order.
  pub data Run : List E → List E → List E → Type 0 where
    start : Run [] [] []
    pushed :
        {queue accepted delivered : List E} (free : Bool) (event : E)
        → Run queue accepted delivered
        → Run
            (push_event free event queue)
            (if free
              then (if ltb (length queue) cap then accepted ++ (event ∷ []) else accepted)
              else accepted)
            delivered
    popped :
        {queue accepted delivered : List E} {event : E} {rest : List E} (free : Bool)
        → Run queue accepted delivered
        → pop_event free queue ≡ (some event, rest)
        → Run rest accepted (delivered ++ (event ∷ []))
    missed :
        {queue accepted delivered : List E} {rest : List E} (free : Bool)
        → Run queue accepted delivered
        → pop_event free queue ≡ (none, rest)
        → Run rest accepted delivered

  some_popped :
      (free : Bool) (queue : List E) (event : E) (rest : List E)
      → pop_event free queue ≡ (some event, rest)
      → queue ≡ event ∷ rest
  unfolding pop_event
  some_popped false queue event rest e = absurd (cc e)
  some_popped true [] event rest e = absurd (cc e)
  some_popped true (x ∷ queue) event rest e =
      let f : x ≡ event = cc e in let g : queue ≡ rest = cc e in rw (f, g)

  none_popped :
      (free : Bool) (queue rest : List E) → pop_event free queue ≡ (none, rest) → queue ≡ rest
  unfolding pop_event
  none_popped false queue rest e = cc e
  none_popped true [] rest e = cc e
  none_popped true (x ∷ queue) rest e = absurd (cc e)

  -- Whatever the interleaving, and whether or not the lock was free: the queue has 100 events at most,
  -- and the events delivered so far, followed by the queue, are the accepted ones in their order, so
  -- that none is lost, repeated or overtaken once it is accepted.
  pub Run-order :
      {queue accepted delivered : List E}
      → Run queue accepted delivered
      → (length queue ≤ cap) × (delivered ++ queue ≡ accepted)
  unfolding push_event
  Run-order start = (omega arith, refl)
  Run-order (pushed false event run) = Run-order run
  Run-order (pushed {queue} {accepted} {delivered} true event run) =
      let (bound, order) = Run-order run in
      elim (Bool-cases (ltb (length queue) cap)) [
        | inl room ↦ rw room (
          ground (arith, length-append queue (event ∷ [])),
          sym (append_assoc delivered queue (event ∷ [])) ∙ ap (λ t. t ++ (event ∷ [])) order,
        )
        | inr full ↦ rw full (bound, order)
      ]
  Run-order (popped {queue} {accepted} {delivered} {event} {rest} free run e) =
      let (bound, order) = Run-order run in
      let f = some_popped free queue event rest e in
      (
        omega (arith, ap length f),
        append_assoc delivered (event ∷ []) rest ∙ ap (λ t. delivered ++ t) (sym f) ∙ order,
      )
  Run-order (missed {queue} {accepted} {delivered} {rest} free run e) =
      let (bound, order) = Run-order run in
      let f = none_popped free queue rest e in
      (omega (arith, ap length f), ap (λ t. delivered ++ t) (sym f) ∙ order)
