-- ===== src/Fifo/Tests.antt =====
-- Two clients whose requests are not read.
use code_strudy.Prelude.{◌≡◌, refl, true, some, List, [], ◌∷◌}
use code_strudy.Fifo.{
  read_length, read_request, server-IsDeaf, serve_turn, serve, IsDeaf, server, Server, Request,
  open_fails, answers, ended,
}

abbrev stale : Request
stale = record { pid = 5; seq_len = 2 }

abbrev asked : List Request
asked = record { pid = 100; seq_len = 1 } ∷ record { pid = 101; seq_len = 3 } ∷ []

two_answers :
    server true stale asked (answers ∷ answers ∷ [])
    ≡ some (
        ended (record {
          waiting = asked;
          req = stale;
          req_num = 4;
          count = 3;
          sent = record { to = 5; seq_len = 2 } ∷ record { to = 5; seq_len = 4 } ∷ [];
        }))
unfolding server serve serve_turn read_request read_length
two_answers = refl

server-IsDeaf_example :
    (s : Server) × (server true stale asked (answers ∷ open_fails ∷ []) ≡ some (ended s))
    × IsDeaf stale asked s
server-IsDeaf_example = server-IsDeaf stale asked answers open_fails []
