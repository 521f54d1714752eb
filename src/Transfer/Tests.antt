-- ===== src/Transfer/Tests.antt =====
-- Transfers, and the theorems at them.
use code_strudy.Prelude.{◌≡◌, refl, true, false, some, List, [], ◌∷◌, replicate}
use code_strudy.CString.{Bytes}
use code_strudy.Transfer.Chunks.{Chunk}
use code_strudy.Transfer.Posix.{msg_handler, receive, start}
use code_strudy.Transfer.Sysv.{Message}
use code_strudy.Transfer.Service.{
  server_forks, State, init, on_exit, finish, sent_file, cannot_open, child_ends, receives, Move,
  client_sends, server_receives, child_stops, step, run,
}
use code_strudy.Transfer.Ending.{IsClosed, refusal-IsClosed}
use code_strudy.Transfer.Asking.{AskSetup}

-- A read of three bytes, and one of two, whose send fails.
abbrev reads : List Chunk
reads =
    record { bytes = b'a' ∷ b'b' ∷ b'c' ∷ []; accepted = true }
    ∷ record { bytes = b'd' ∷ b'e' ∷ []; accepted = false }
    ∷ []

-- The same reads, sent.
abbrev sends : List Chunk
sends =
    record { bytes = b'a' ∷ b'b' ∷ b'c' ∷ []; accepted = true }
    ∷ record { bytes = b'd' ∷ b'e' ∷ []; accepted = true }
    ∷ []

abbrev unset : Bytes
unset = 7 ∷ 7 ∷ 7 ∷ 7 ∷ []

written_of_reads :
    (receive start (msg_handler true true unset 9 reads).sent).client.written
    ≡ b'a' ∷ b'b' ∷ b'c' ∷ []
unfolding receive start msg_handler
written_of_reads = refl

-- A buffer whose second byte is NUL.
abbrev terminated_buffer : Bytes
terminated_buffer = 7 ∷ 0 ∷ 7 ∷ 0 ∷ []

abbrev messages : List Message
messages = record { mtype = 2; size = 3 } ∷ record { mtype = 3; size = 3 } ∷ []

abbrev one_read : List Chunk
one_read = record { bytes = b'a' ∷ b'b' ∷ b'c' ∷ []; accepted = true } ∷ []

abbrev big : Bytes
big = replicate 8191 7

abbrev full : Chunk
full = record { bytes = replicate 8192 7; accepted = true }

-- Two requests, of which one is served.
abbrev two_requests : List Move
two_requests =
    client_sends
    ∷ server_receives
    ∷ server_forks true
    ∷ client_sends
    ∷ child_stops sent_file
    ∷ server_receives
    ∷ server_forks true
    ∷ []

one_served : (run two_requests init).served ≡ 1
unfolding run init step receives child_ends
one_served = refl

-- A child runs, and a request waits.
abbrev one_child : State
one_child = record init { sent = 2; waiting = 1; children = 1 }

abbrev refused_file : State
refused_file = record one_child { queue = false; key_file = false; waiting = 0; children = 0 }

refusal-IsClosed_example :
    IsClosed 0 (run (client_sends ∷ []) refused_file)
    × (receives (run (client_sends ∷ []) refused_file)
        ≡ some (finish (run (client_sends ∷ []) refused_file)))
unfolding step child_ends on_exit init
refusal-IsClosed_example =
    refusal-IsClosed cannot_open one_child refused_file (client_sends ∷ []) (λ e. cc) refl

abbrev asks_well : AskSetup
asks_well = record { open_file = true; read_id = some 3; msgget = some 7; sent = true }
