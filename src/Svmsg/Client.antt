-- ===== src/Svmsg/Client.antt =====
-- The rest of routines/46.7.svmsg, whose serverRequest, msgget loop and client behind its first test
-- are, call by call, those of practice/46.4; only the client's way to the server's queue differs.
use code_strudy.Prelude.{
  ℕ, ◌+◌, ◌≤◌, ◌<◌, ◌≡◌, refl, ◌≢◌, ◌⊎◌, inl, inr, Bool, true, false, Option, none, some, List, [],
  ◌∷◌, ◌++◌, if◌then◌else◌, length, All,
}
use code_strudy.CString.{Bytes, same_bytes}
use code_strudy.Transfer.Chunks.{Chunk, front}
use code_strudy.Transfer.Sysv.{
  Message, server_request, Report, client, report, report_arrives, resp_msg_size,
}
use code_strudy.Transfer.Asking.{
  Asked, waiting, ended, queue_removed, fault, ask, path_max, ask-AsksFor,
}
use code_strudy.Transfer.Service.{Attempt, created, gave_up, trying, create_queue}
use code_strudy.Svmsg.Server.{State, init}

-- The start of the server's main: its queue, then its handler.
unfoldable pub begin : List Attempt → Bool → Option State
begin attempts handler = elim (create_queue attempts) [
  | created id old ↦ if handler then some init else none
  | gave_up old ↦ none
  | trying old ↦ none
]

unfoldable pub serve_child : Bool → Bytes → List Chunk → Option (List Message)
unfolding server_request
serve_child opened buffer chunks = server_request opened buffer chunks

-- What msgget gives for the server's queue and for the client's own, and whether msgsnd succeeds.
pub record QueueResults : Type 0 where
  pub server_queue : Option ℕ
  pub client_queue : Option ℕ
  pub sent : Bool

-- The client up to its request.
unfoldable pub asks : QueueResults → Option Bytes → Asked
asks setup path =
    ask
      (record {
        open_file = true;
        read_id = setup.server_queue;
        msgget = setup.client_queue;
        sent = setup.sent;
      })
      path

pub data ClientEnd : Type 0 where
  answered : Report → ClientEnd
  failed overrun : ClientEnd

-- The client's main; `messages` are those that come to its queue.
unfoldable pub file_client : QueueResults → Option Bytes → List Message → ClientEnd
file_client setup path messages = elim (asks setup path) [
  | waiting id req ↦ answered (client messages)
  | ended ↦ failed
  | queue_removed id ↦ failed
  | fault ↦ overrun
]

-- For a path without a NUL, other than --help, when the calls of the client of routines/46.7.svmsg
-- succeed: the client fails where the path has more than 512 bytes, and writes behind the
-- request's array where it has 512; where it has fewer, no read of the server's child fills the
-- buffer and its last byte is NUL, the child sends its messages, and the client reports the bytes
-- and the number of the chunks before the first failed send.
pub file_client-serve_child :
    (setup : QueueResults) (path b : Bytes) (id k : ℕ) (chunks : List Chunk)
    → All (λ c. c ≢ 0) path
    → same_bytes path (b'-' ∷ b'-' ∷ b'h' ∷ b'e' ∷ b'l' ∷ b'p' ∷ []) ≡ false
    → setup.server_queue ≡ some id
    → setup.client_queue ≡ some k
    → setup.sent ≡ true
    → length b + 1 ≡ resp_msg_size
    → All (λ c. length c.bytes ≤ length b) chunks
    → (ms : List Message) × (n : ℕ) × (serve_child true (b ++ 0 ∷ []) chunks ≡ some ms)
      × (((length path < path_max)
            × (file_client setup (some path) ms ≡ answered (report (front chunks) n)))
          ⊎ ((length path ≡ path_max) × (file_client setup (some path) ms ≡ overrun))
          ⊎ ((path_max < length path) × (file_client setup (some path) ms ≡ failed)))
unfolding file_client asks serve_child
file_client-serve_child setup path b id k chunks clean no_help server own sent size fits =
    let (ms, n, runs, reads) = report_arrives b chunks size fits in
    (
      ms,
      n,
      runs,
      elim (ask-AsksFor
          (record {
            open_file = true;
            read_id = setup.server_queue;
            msgget = setup.client_queue;
            sent = setup.sent;
          })
          path id k clean no_help refl server own sent) [
            | inl (short, req, asked, filled) ↦ inl (short, rw (file_client, asks, asked, reads))
            | inr (inl (full, faults)) ↦ inr (inl (full, rw (file_client, asks, faults)))
            | inr (inr (long, ends)) ↦ inr (inr (long, rw (file_client, asks, ends)))
          ],
    )
