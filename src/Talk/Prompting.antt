-- ===== src/Talk/Prompting.antt =====
-- The two loops of practice/46.6/talk_client.c: the one that sends what is typed, and that of the
-- child, which receives.
use code_strudy.Prelude.{
  ℕ, Bool, ◌&&◌, Option, none, some, List, [], ◌∷◌, ◌++◌, if◌then◌else◌, replicate,
}
use code_strudy.CString.{Bytes, terminated, text, fill_array}
use code_strudy.Talk.Table.{client_name_len}
use code_strudy.Talk.Server.{TaskMsg}
use code_strudy.Talk.Client.{
  ClientSetup, ClientEffect, task_sent, ClientRun, talking, ended, fault, client_exit, client_main,
}

abbrev pub message_len : ℕ
message_len = 4096

-- The words that the two conversions of scanf("%s %s") store: each is a word of what is typed,
-- between white space. What follows a second word is read by the next call.
pub data Scanned : Type 0 where
  nothing : Scanned
  target_only : Bytes → Scanned
  both : Bytes → Bytes → Scanned

-- One pass of the loop: what scanf stores, and the result of msgsnd.
pub record Prompt : Type 0 where
  pub scanned : Scanned
  pub sent : Bool

-- The message that memset and scanf leave; "%s" does not know the length of an array.
unfoldable pub typed : Scanned → Option TaskMsg
unfolding fill_array
typed nothing =
    some (record { target_name = replicate client_name_len 0; msg = replicate message_len 0 })
typed (target_only target) = elim (fill_array client_name_len target) [
  | none ↦ none
  | some name ↦ some (record { target_name = name; msg = replicate message_len 0 })
]
typed (both target words) = elim (fill_array client_name_len target) [
  | none ↦ none
  | some name ↦ elim (fill_array message_len words) [
    | none ↦ none
    | some msg ↦ some (record { target_name = name; msg = msg })
  ]
]

unfoldable pub before : List ClientEffect → ClientRun → ClientRun
before first (talking server_id client_id effects) = talking server_id client_id (first ++ effects)
before first (ended effects) = ended (first ++ effects)
before first fault = fault

-- A failed msgsnd ends the process, with onExit.
unfoldable pub send_loop : ℕ → ℕ → Bytes → List Prompt → ClientRun
unfolding typed before client_exit
send_loop server_id client_id stale [] = talking server_id client_id []
send_loop server_id client_id stale (p ∷ ps) =
    let rest = send_loop server_id client_id stale ps in
    elim (typed p.scanned) [
      | none ↦ fault
      | some task ↦
          if p.sent
          then before (task_sent server_id task ∷ []) rest
          else ended (client_exit server_id client_id stale)
    ]

-- `main`, with what is typed.
unfoldable pub talk_client : ClientSetup → Bytes → Option Bytes → List Prompt → ClientRun
unfolding client_main send_loop before
talk_client setup stale name prompts = elim (client_main setup stale name) [
  | talking server_id client_id effects ↦
      before effects (send_loop server_id client_id stale prompts)
  | ended effects ↦ ended effects
  | fault ↦ fault
]

-- What msgrcv gives the child.
pub data Receipt : Type 0 where
  got : TaskMsg → Receipt
  interrupted failed : Receipt

-- What the child has shown: names and texts.
pub record Told : Type 0 where
  pub name : Bytes
  pub words : Bytes

-- The child runs on; or it has ended, with onExit; or it reads past an array.
pub data ChildRun : Type 0 where
  receiving : List Told → ChildRun
  stopped : List Told → List ClientEffect → ChildRun
  bad_read : ChildRun

unfoldable pub tell : Told → ChildRun → ChildRun
tell t (receiving more) = receiving (t ∷ more)
tell t (stopped more effects) = stopped (t ∷ more) effects
tell t bad_read = bad_read

unfoldable pub receive_loop : ℕ → ℕ → Bytes → List Receipt → ChildRun
unfolding tell client_exit
receive_loop server_id client_id stale [] = receiving []
receive_loop server_id client_id stale (got task ∷ rs) =
    let rest = receive_loop server_id client_id stale rs in
    if terminated task.target_name && terminated task.msg
    then tell (record { name = text task.target_name; words = text task.msg }) rest
    else bad_read
receive_loop server_id client_id stale (interrupted ∷ rs) =
    receive_loop server_id client_id stale rs
receive_loop server_id client_id stale (failed ∷ rs) =
    stopped [] (client_exit server_id client_id stale)
