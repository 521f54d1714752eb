-- ===== src/Notify/Tests.antt =====
-- Runs of the server, and its theorems at them.
use code_strudy.Prelude.{◌≡◌, refl, List, [], ◌∷◌}
use code_strudy.Notify.System.{
  init, Move, sends, sets_up, receives, step, run, client_sends, notify_setup, thread_receives,
}
use code_strudy.Notify.Stalling.{IsValid, notify-IsValid}

-- A second message comes between the registration and the receive.
abbrev overlap : List Move
overlap = sends ∷ sets_up ∷ sends ∷ receives ∷ []

one_left : (run overlap init).waiting ≡ 1
unfolding run init step client_sends notify_setup thread_receives
one_left = refl

notify-IsValid_example : IsValid (run overlap init)
notify-IsValid_example = notify-IsValid overlap
