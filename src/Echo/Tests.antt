-- ===== src/Echo/Tests.antt =====
-- Runs of the loops, and the theorems at them.
use code_strudy.Prelude.{refl, true, none, some, List, [], ◌∷◌, arith}
use code_strudy.Echo.Handlers.{Connection, Datagram, Process}
use code_strudy.Echo.Loops.{Selected}
use code_strudy.Echo.Views.{answers, epoll_view, Round, epoll_view, answers}
use code_strudy.Echo.Starvation.{IsBusy}

abbrev call : Connection
call = record { accepted = true; readable = true; sent = b'h' ∷ b'i' ∷ [] }

abbrev packet : Datagram
packet = record { received = true; echoed = true; sent = b'o' ∷ [] }

abbrev both : Round
both = record { tcp = some call; udp = some packet }

abbrev second_call : Round
second_call = record { tcp = some call; udp = none }

abbrev rounds : List Round
rounds = both ∷ second_call ∷ []

-- stdin, stdout, stderr and the two sockets.
abbrev listening : Process
listening = record { open_fds = 5; replies = [] }

abbrev both_ready : Selected
both_ready = record {
  count = 2;
  tcp_set = true;
  udp_set = true;
  tcp_waits = call;
  udp_waits = packet;
}

both_ready-IsBusy : IsBusy both_ready
both_ready-IsBusy = record { some_ready = λ e. omega arith; tcp_ready = refl; sound = (refl, refl) }
