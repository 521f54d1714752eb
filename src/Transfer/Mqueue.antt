-- ===== src/Transfer/Mqueue.antt =====
-- `main` and SIGHILD_Handler of practice/52.2/file_server.c, as steps in any order. A request is
-- named by a number. The queue is never removed: main does not leave its loop, and onExit only
-- prints.
use code_strudy.Prelude.{
  ℕ, zero, suc, Bool, true, false, ◌&&◌, ◌||◌, Option, none, some, List, [], ◌∷◌, ◌++◌, ltb, ◌==◌,
  if◌then◌else◌, length,
}

-- Does a server run; is its queue there; the requests that were sent, that wait, that main has
-- received and not handed on yet, that a child serves or has served, and that were lost with the
-- server, in their order; the children that run or are zombies; is SIGCHLD pending.
pub record State : Type 0 where
  pub running : Bool
  pub queue : Bool
  pub sent : List ℕ
  pub waiting : List ℕ
  pub received : List ℕ
  pub handed : List ℕ
  pub dropped : List ℕ
  pub children : ℕ
  pub zombies : ℕ
  pub pending : Bool

-- Before the first start.
unfoldable pub init : State
init = record {
  running = false;
  queue = false;
  sent = [];
  waiting = [];
  received = [];
  handed = [];
  dropped = [];
  children = 0;
  zombies = 0;
  pending = false;
}

-- `ready` says that mq_open may make the queue, and that mq_getattr and sigaction succeed.
pub data Move : Type 0 where
  starts : Bool → Move
  client_sends : ℕ → Move
  forks : Bool → Move
  receives interrupted receive_fails killed child_exits handler_runs : Move

-- mq_open with O_EXCL makes the queue, and fails where it is there already; an error behind it
-- leaves it.
unfoldable pub start_server : Bool → State → Option State
start_server ready s =
    if s.running || s.queue then none else some (record s { queue = true; running = ready })

-- The server's process has ended; a request that it has received is lost.
unfoldable pub end_server : State → State
end_server s = record s { running = false; dropped = s.dropped ++ s.received; received = [] }

-- mq_receive, where main has no request in hand; it waits at an empty queue.
unfoldable pub take_request : State → Option State
take_request s = elim s.received [
  | q ∷ qs ↦ none
  | [] ↦ elim s.waiting [ [] ↦ none | r ∷ rs ↦ some (record s { waiting = rs; received = r ∷ [] }) ]
]

-- `fork`, behind mq_receive; if it fails the server ends.
unfoldable pub hand_on : Bool → State → Option State
unfolding end_server
hand_on forked s = elim s.received [
  | [] ↦ none
  | r ∷ rs ↦
      if forked
      then some (record s { handed = s.handed ++ r ∷ []; received = rs; children = suc s.children })
      else some (end_server s)
]

-- Main is at mq_receive.
unfoldable pub at_receive : State → Bool
at_receive s = s.running && length s.received == 0

-- `maxmsg` is how many messages the queue holds; at a full one mq_send waits.
unfoldable pub step : ℕ → Move → State → Option State
unfolding start_server take_request hand_on end_server at_receive
step maxmsg (starts ready) s = start_server ready s
step maxmsg (client_sends r) s =
    if s.queue && ltb (length s.waiting) maxmsg
    then some (record s { sent = s.sent ++ r ∷ []; waiting = s.waiting ++ r ∷ [] })
    else none
step maxmsg receives s = if s.running then take_request s else none
step maxmsg (forks forked) s = if s.running then hand_on forked s else none
step maxmsg interrupted s = if at_receive s then some s else none
step maxmsg receive_fails s = if at_receive s then some (end_server s) else none
step maxmsg killed s = if s.running then some (end_server s) else none
step maxmsg child_exits s = elim s.children [
  | zero ↦ none
  | suc n ↦ some (record s { children = n; zombies = suc s.zombies; pending = true })
]
step maxmsg handler_runs s =
    if s.running && s.pending then some (record s { zombies = 0; pending = false }) else none
