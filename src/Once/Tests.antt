-- ===== src/Once/Tests.antt =====
-- Orders of two calls, and the theorem at one.
use code_strudy.Prelude.{ℕ, ◌≡◌, refl, false, List, [], ◌∷◌}
use code_strudy.Runs.{run}
use code_strudy.Once.Defs.{returned, init, put_at, call_step, step}
use code_strudy.Once.AtMostOnce.{done, done-once}

-- The second call tries to lock while the first one is at init.
abbrev crossed : List ℕ
crossed = 0 ∷ 0 ∷ 1 ∷ 0 ∷ 1 ∷ 0 ∷ 0 ∷ 1 ∷ 1 ∷ 1 ∷ []

second_returns : (run step crossed init).at_call 1 ≡ returned false
unfolding run step call_step put_at init
second_returns = refl

done-once_example : (run step crossed init).inits_done ≡ 1
unfolding run step call_step put_at init done
done-once_example = done-once crossed 1 refl
