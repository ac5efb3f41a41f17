-- ===== src/Examples/Events.antt =====
-- A queue of events that is read before and after it fails.
use ai_smart_flow.Shared.{◌≡◌, refl, String, List, [], ◌∷◌}
use ai_smart_flow.Rpc.Queue.{Call, got, failed, pushes, fails, asks, push, fail, end, next}
use ai_smart_flow.Rpc.Order.{start, steps, IsOrdered, steps-IsOrdered}

unfoldable pub events : Unit {0}
unfolding push fail end next
events = tt

abbrev calls : List (Call String)
calls = asks 1 ∷ pushes "a" ∷ pushes "b" ∷ fails "broken" ∷ pushes "c" ∷ asks 2 ∷ asks 3 ∷ []

answers_test : (steps calls start).settled ≡ (1, got "a") ∷ (2, got "b") ∷ (3, failed "broken") ∷ []
unfolding events
answers_test = refl

steps-IsOrdered_example : IsOrdered (steps calls start)
steps-IsOrdered_example = steps-IsOrdered calls
