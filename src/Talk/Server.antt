-- ===== src/Talk/Server.antt =====
-- The message handlers and the loop of talk_server.c. A received message is seen through the two
-- structs that the code casts it to; the result of `msgsnd` comes with the event.
use code_strudy.Prelude.{
  ℕ, ℤ, pos, incr, decr, none, some, Bool, List, [], ◌∷◌, ◌++◌, ◌==◌, if◌then◌else◌, replicate, set,
}
use code_strudy.CString.{Bytes, terminated, text, strncpy}
use code_strudy.Talk.Table.{
  Table, client_name_len, client_num_max, blank, find_free, find_id, find_name, clear_at, id_at,
}

pub record RegisterMsg : Type 0 where
  pub client_id : ℕ
  pub client_name : Bytes

pub record TaskMsg : Type 0 where
  pub target_name : Bytes
  pub msg : Bytes

pub record RecvBuf : Type 0 where
  pub mtype : ℕ
  pub as_register : RegisterMsg
  pub as_task : TaskMsg

abbrev pub mtype_register : ℕ
mtype_register = 1

abbrev pub mtype_talk : ℕ
mtype_talk = 2

abbrev pub mtype_delete : ℕ
mtype_delete = 3

pub record Server : Type 0 where
  pub table : Table
  pub client_count : ℤ

-- What the server prints and sends.
pub data Out : Type 0 where
  registered : ℤ → ℕ → ℕ → Bytes → Out
  deleted : ℕ → ℤ → Out
  delete_failed : ℕ → Out
  target_missing : Out
  talk_shown : Bytes → Bytes → Out
  sent : ℕ → TaskMsg → Out
  send_failed : Out

-- `exited` is `exit(EXIT_FAILURE)`; `fault` is a read past an array.
pub data Outcome : Type 0 where
  running : Server → List Out → Outcome
  exited : List Out → Outcome
  fault : Outcome

unfoldable pub init : Server
init = record { table = replicate client_num_max blank; client_count = pos 0 }

unfoldable pub register : Server → RegisterMsg → Outcome
register s reg =
    let count = incr s.client_count in
    let i = find_free s.table in
    if i == client_num_max then exited [] else elim (strncpy client_name_len reg.client_name) [
      | none ↦ fault
      | some name ↦
          if terminated name
          then running
              (record {
                table = set s.table i (record { client_id = reg.client_id; client_name = name });
                client_count = count;
              })
              (registered count i reg.client_id (text name) ∷ [])
          else fault
    ]

unfoldable pub delete : Server → RegisterMsg → Outcome
delete s reg =
    let count = decr s.client_count in
    let i = find_id reg.client_id s.table in
    if i == client_num_max
    then running (record s { client_count = count }) (delete_failed reg.client_id ∷ [])
    else running (record { table = clear_at s.table i; client_count = count })
        (deleted reg.client_id count ∷ [])

unfoldable pub talk : Server → TaskMsg → Bool → Outcome
talk s recv accepted = elim (find_name recv.target_name s.table) [
  | none ↦ fault
  | some i ↦
      if i == client_num_max
      then running s (target_missing ∷ [])
      else if terminated recv.msg
      then running s (
          talk_shown (text recv.target_name) (text recv.msg)
          ∷ sent (id_at s.table i) recv
          ∷ (if accepted then [] else send_failed ∷ []))
      else fault
]

unfoldable pub handle : Server → RecvBuf → Bool → Outcome
unfolding register delete talk
handle s buf accepted =
    if buf.mtype == mtype_register
    then register s buf.as_register
    else if buf.mtype == mtype_delete
    then delete s buf.as_register
    else if buf.mtype == mtype_talk
    then talk s buf.as_task accepted
    else running s []

-- What `msgrcv` returns: a message (with the result of the `msgsnd` that it may lead to), EINTR, or
-- another error; or a SIGINT or SIGTERM arrives.
pub data Event : Type 0 where
  received : RecvBuf → Bool → Event
  interrupted : Event
  receive_failed : Event
  stopped : Event

unfoldable pub step : Server → Event → Outcome
unfolding handle
step s (received buf accepted) = handle s buf accepted
step s interrupted = running s []
step s receive_failed = exited []
step s stopped = exited []

unfoldable pub prepend : List Out → Outcome → Outcome
prepend out (running s more) = running s (out ++ more)
prepend out (exited more) = exited (out ++ more)
prepend out fault = fault

unfoldable pub serve : Server → List Event → Outcome
unfolding step prepend
serve s [] = running s []
serve s (e ∷ es) = elim (step s e) [
  | running t out ↦ prepend out (serve t es)
  | exited out ↦ exited out
  | fault ↦ fault
]
