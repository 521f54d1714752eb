-- ===== src/Transfer/Posix.antt =====
-- practice/52.2: msgHandler of file_server.c and the receiving loop of file_client.c. Messages of
-- one priority leave a POSIX queue in the order in which they were sent.
use code_strudy.Prelude.{
  ℕ, ◌+◌, ◌≡◌, refl, ◌∙◌, inl, inr, Bool, true, false, List, [], ◌∷◌, ◌++◌, append-nil,
  append_assoc, arith, ◌==◌, if◌then◌else◌, Bool-cases, length, take, drop, length-append,
}
use code_strudy.CString.{Bytes}
use code_strudy.Transfer.Chunks.{
  front, front-accepted, Chunk, content, AllAccepted, overlay, take-overlay,
}

abbrev pub resp_faile : ℕ
resp_faile = 1

abbrev pub resp_data : ℕ
resp_data = 2

abbrev pub resp_end : ℕ
resp_end = 3

-- The data array is sent whole; `data_len` says how much of it counts.
pub record Response : Type 0 where
  pub flags : ℕ
  pub buffer : Bytes
  pub data_len : ℕ

-- How the child that serves a request ends: the responses that it sent, its exit status.
pub record Served : Type 0 where
  pub sent : List Response
  pub success : Bool

-- The loop of msgHandler, and what follows it. A response that is not accepted ends the process; at
-- the end of the file `dataLen` is 0.
unfoldable pub send_chunks : Bytes → List Chunk → Served
send_chunks buffer [] = record {
  sent = record { flags = resp_end; buffer = buffer; data_len = 0 } ∷ [];
  success = true;
}
send_chunks buffer (c ∷ cs) =
    let next = overlay c.bytes buffer in
    let rest = send_chunks next cs in
    if c.accepted
    then record {
      sent = record { flags = resp_data; buffer = next; data_len = length c.bytes } ∷ rest.sent;
      success = rest.success;
    }
    else record { sent = []; success = false }

-- msgHandler: `queue` and `file` say that the client's queue and the file could be opened; `buffer`
-- and `stale` are what the unset array and length of `resp` hold.
unfoldable pub msg_handler : Bool → Bool → Bytes → ℕ → List Chunk → Served
unfolding send_chunks
msg_handler queue file buffer stale chunks =
    if queue
    then if file then send_chunks buffer chunks else record {
      sent = record { flags = resp_faile; buffer = buffer; data_len = stale } ∷ [];
      success = false;
    }
    else record { sent = []; success = false }

-- The client: what it has written to its file, and `num`.
pub record Client : Type 0 where
  pub written : Bytes
  pub num : ℕ

-- `done` says that the loop has ended; else the client waits for another message.
pub record Received : Type 0 where
  pub client : Client
  pub done : Bool

-- The loop of file_client.c over the messages that arrive.
unfoldable pub receive : Client → List Response → Received
receive c [] = record { client = c; done = false }
receive c (r ∷ rs) =
    let next =
      receive (record { written = c.written ++ take r.data_len r.buffer; num = c.num + r.data_len })
        rs in
    if r.flags == resp_data then next else record { client = c; done = true }

unfoldable pub start : Client
start = record { written = []; num = 0 }

receive-send_chunks :
    (chunks : List Chunk) (buffer : Bytes) (c : Client)
    → receive c (send_chunks buffer chunks).sent ≡ record {
      client = record {
        written = c.written ++ content (front chunks);
        num = c.num + length (content (front chunks));
      };
      done = (send_chunks buffer chunks).success;
    }
unfolding receive send_chunks content front
receive-send_chunks [] buffer c = ground (arith, append-nil c.written)
receive-send_chunks (k ∷ ks) buffer c =
    let next : Client = record { written = c.written ++ k.bytes; num = c.num + length k.bytes } in
    elim (Bool-cases k.accepted) [
      | inl ok ↦
          rw (ok, take-overlay k.bytes (drop (length k.bytes) buffer))
            (receive-send_chunks ks (overlay k.bytes buffer) next
              ∙ ground (
                arith,
                append_assoc c.written k.bytes (content (front ks)),
                length-append k.bytes (content (front ks)),
              ))
      | inr lost ↦ rw lost (ground (arith, append-nil c.written))
    ]

-- Whatever the reads return and whichever send fails, the client of a file that could be opened
-- writes and counts the bytes of the chunks before the first failed send, and its loop ends
-- exactly when the server's child succeeds.
pub receive-msg_handler :
    (buffer : Bytes) (stale : ℕ) (chunks : List Chunk)
    → receive start (msg_handler true true buffer stale chunks).sent ≡ record {
      client = record { written = content (front chunks); num = length (content (front chunks)) };
      done = (msg_handler true true buffer stale chunks).success;
    }
unfolding msg_handler start
receive-msg_handler buffer stale chunks = receive-send_chunks chunks buffer start ∙ ground arith

success-accepted :
    (chunks : List Chunk) (buffer : Bytes)
    → AllAccepted chunks
    → (send_chunks buffer chunks).success ≡ true
unfolding send_chunks
success-accepted [] buffer a = refl
success-accepted (k ∷ ks) buffer a = rw a.0 (success-accepted ks (overlay k.bytes buffer) a.1)

-- When every send is accepted the client of a POSIX queue ends with the whole file and its length.
pub file_arrives :
    (buffer : Bytes) (stale : ℕ) (chunks : List Chunk)
    → AllAccepted chunks
    → receive start (msg_handler true true buffer stale chunks).sent ≡ record {
      client = record { written = content chunks; num = length (content chunks) };
      done = true;
    }
unfolding msg_handler
file_arrives buffer stale chunks a =
    receive-msg_handler buffer stale chunks
    ∙ ground (arith, front-accepted chunks a, success-accepted chunks buffer a)

-- For a file that cannot be opened, whatever the unset response holds, the client's loop ends with
-- nothing written.
pub open_failure_arrives :
    (buffer : Bytes) (stale : ℕ) (chunks : List Chunk)
    → receive start (msg_handler true false buffer stale chunks).sent
      ≡ record { client = start; done = true }
unfolding msg_handler receive
open_failure_arrives buffer stale chunks = refl
