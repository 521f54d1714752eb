-- ===== src/Talk/Client.antt =====
-- The start and the exit of practice/46.6/talk_client.c.
use code_strudy.Prelude.{
  ℕ, Bool, Option, none, some, List, [], ◌∷◌, ◌++◌, ltb, if◌then◌else◌, length,
}
use code_strudy.CString.{Bytes, strncpy, same_bytes}
use code_strudy.Talk.Table.{client_name_len}
use code_strudy.Talk.Server.{RegisterMsg, TaskMsg}

-- The results of the calls that `main` makes; `read_id` is the identifier that the server's file
-- holds.
pub record ClientSetup : Type 0 where
  pub open_file : Bool
  pub read_id : Option ℕ
  pub msgget : Option ℕ
  pub sent : Bool
  pub forked : Bool

-- What the client sends to a queue, and the removal of its own.
pub data ClientEffect : Type 0 where
  register_sent : ℕ → RegisterMsg → ClientEffect
  delete_sent : ℕ → RegisterMsg → ClientEffect
  own_queue_removed : ℕ → ClientEffect
  task_sent : ℕ → TaskMsg → ClientEffect

-- `talking` is the state behind `fork`, with the two identifiers.
pub data ClientRun : Type 0 where
  talking : ℕ → ℕ → List ClientEffect → ClientRun
  ended : List ClientEffect → ClientRun
  fault : ClientRun

-- onExit leaves the name of the message unset: `stale` is what it holds.
unfoldable pub client_exit : ℕ → ℕ → Bytes → List ClientEffect
client_exit server_id client_id stale =
    delete_sent server_id (record { client_id = client_id; client_name = stale })
    ∷ own_queue_removed client_id
    ∷ []

-- From strncpy to `fork`; a failed msgsnd or fork ends the process, with onExit.
unfoldable pub announce : ClientSetup → Bytes → Bytes → ℕ → ℕ → ClientRun
unfolding client_exit
announce setup stale name server_id client_id = elim (strncpy client_name_len (name ++ 0 ∷ [])) [
  | none ↦ fault
  | some buf ↦
      let reg : RegisterMsg = record { client_id = client_id; client_name = buf } in
      if setup.sent
      then if setup.forked
        then talking server_id client_id (register_sent server_id reg ∷ [])
        else ended (register_sent server_id reg ∷ client_exit server_id client_id stale)
      else ended (client_exit server_id client_id stale)
]

-- `none` is a wrong number of arguments; the usage text has a %s without an argument.
unfoldable pub client_main : ClientSetup → Bytes → Option Bytes → ClientRun
unfolding announce
client_main setup stale none = fault
client_main setup stale (some name) =
    if same_bytes name (b'-' ∷ b'-' ∷ b'h' ∷ b'e' ∷ b'l' ∷ b'p' ∷ [])
    then fault
    else if ltb client_name_len (length name)
    then ended []
    else if setup.open_file
    then elim setup.read_id [
      | none ↦ ended []
      | some server_id ↦ elim setup.msgget [
        | none ↦ ended []
        | some client_id ↦ announce setup stale name server_id client_id
      ]
    ]
    else ended []
