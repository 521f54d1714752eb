-- ===== src/Inet/Tests.antt =====
-- The loops over two addresses, which are ports here.
use code_strudy.Prelude.{ℕ, ◌≡◌, refl, inr, Bool, true, false, Option, some, [], ◌∷◌, arith, ◌==◌}
use code_strudy.Inet.Sockets.{
  Connected, inet_connect, inet_listen, second, inet_passive_socket, passive_loop,
}
use code_strudy.Inet.Connecting.{attempt, try_all, inet_connect-try_all, inet_connect_loops}
use code_strudy.Inet.Listening.{IsBound, inet_listen-IsBound}

-- Each call gives the descriptor 3.
abbrev makes : ℕ → ℕ → Option ℕ
makes t port = some 3

abbrev on_eighty : ℕ → ℕ → Bool
on_eighty t port = port == 80

abbrev refused : ℕ → ℕ → Bool
refused t port = false

inet_connect-try_all_example :
    inet_connect makes on_eighty 2 (some (81 ∷ 80 ∷ [])) ≡ try_all makes on_eighty 0 (81 ∷ 80 ∷ [])
unfolding attempt
inet_connect-try_all_example =
    inet_connect-try_all makes on_eighty 2 (81 ∷ 80 ∷ []) (omega arith) (inr (λ e. cc))

inet_connect_loops_example :
    inet_connect makes on_eighty 1000 (some (81 ∷ 82 ∷ 80 ∷ [])) ≡ Connected.looping
unfolding attempt
inet_connect_loops_example =
    inet_connect_loops makes on_eighty 81 82 (80 ∷ []) refl (λ t. refl) 1000

inet_listen-IsBound_example : IsBound makes (λ t port. true) on_eighty true true 3
unfolding inet_listen inet_passive_socket passive_loop second
inet_listen-IsBound_example =
    inet_listen-IsBound makes (λ t port. true) on_eighty true 5 3 (some (81 ∷ 80 ∷ [])) refl
