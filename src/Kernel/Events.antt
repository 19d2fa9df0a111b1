-- ===== src/Kernel/Events.antt =====
-- unaos/crates/kernel/src/events.rs: the event queue. The lock is an argument, whether it is free when
-- it is tried; the pixels that show what happened are left out.
pub mod Order
use una_os.Prelude.{
  ℕ, List, [], ◌∷◌, ◌++◌, Option, none, some, Bool, true, false, length, ltb, if◌then◌else◌,
}

abbrev pub cap : ℕ
cap = 100

unfoldable pub push_event : {E : Type 0} → Bool → E → List E → List E
push_event free event queue =
    if free then (if ltb (length queue) cap then queue ++ (event ∷ []) else queue) else queue

unfoldable pub pop_event : {E : Type 0} → Bool → List E → Option E × List E
pop_event false queue = (none, queue)
pop_event true [] = (none, [])
pop_event true (event ∷ queue) = (some event, queue)
