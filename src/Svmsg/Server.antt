-- ===== src/Svmsg/Server.antt =====
-- `main` and SIGCHILD_Hanler of svmsg_file_server.c, once the queue is made and the handler is set, as
-- steps in any order. A request is named by a number. During the handler SIGCHLD is blocked.
use code_strudy.Prelude.{
  ℕ, zero, suc, Bool, true, false, ◌&&◌, Option, none, some, List, [], ◌∷◌, ◌++◌, ◌==◌,
  if◌then◌else◌, length,
}

-- What the server does: main waits for a request, the handler has started, the handler's loop does not
-- end, the process has ended.
pub data Doing : Type 0 where
  receiving handling spinning ended : Doing

-- What the server does; is its queue there; the requests that were sent, that wait, that main has
-- received and not handed on yet, that a child has got, and that were lost, in their order; the children that run or are zombies; is SIGCHLD pending;
-- how many SIGCHLDs came otherwise than from the exit of a child.
pub record State : Type 0 where
  pub doing : Doing
  pub queue : Bool
  pub sent : List ℕ
  pub waiting : List ℕ
  pub received : List ℕ
  pub handed : List ℕ
  pub lost : List ℕ
  pub children : ℕ
  pub zombies : ℕ
  pub pending : Bool
  pub others : ℕ

unfoldable pub init : State
init = record {
  doing = receiving;
  queue = true;
  sent = [];
  waiting = [];
  received = [];
  handed = [];
  lost = [];
  children = 0;
  zombies = 0;
  pending = false;
  others = 0;
}

pub data Move : Type 0 where
  client_sends : ℕ → Move
  forks : Bool → Move
  receives interrupted receive_fails killed child_exits other_signal handler_starts handler_waits :
      Move

-- The end behind the loop of main: with the queue go the requests in it.
unfoldable pub leave : State → State
leave s = record s {
  doing = ended;
  queue = false;
  lost = s.lost ++ (s.received ++ s.waiting);
  received = [];
  waiting = [];
}

-- msgrcv, where main has no request in hand; it waits at an empty queue.
unfoldable pub receive_one : State → Option State
receive_one s = elim s.received [
  | q ∷ qs ↦ none
  | [] ↦ elim s.waiting [ [] ↦ none | r ∷ rs ↦ some (record s { waiting = rs; received = r ∷ [] }) ]
]

-- `fork`, behind msgrcv; if it fails, main leaves its loop.
unfoldable pub hand_on : Bool → State → Option State
unfolding leave
hand_on forked s = elim s.received [
  | [] ↦ none
  | r ∷ rs ↦
      if forked
      then some (record s { handed = s.handed ++ r ∷ []; received = rs; children = suc s.children })
      else some (leave s)
]

-- while (waitpid(-1, NULL, WNOHANG) == -1): a zombie is reaped, or a child runs and the result is 0,
-- and the loop ends; without a child it never does.
unfoldable pub reap_one : State → State
reap_one s = elim s.zombies [
  | suc n ↦ record s { zombies = n; doing = receiving }
  | zero ↦ elim s.children [
    | zero ↦ record s { doing = spinning }
    | suc n ↦ record s { doing = receiving }
  ]
]

unfoldable pub is_receiving : Doing → Bool
is_receiving receiving = true
is_receiving _ = false

unfoldable pub is_handling : Doing → Bool
is_handling handling = true
is_handling _ = false

-- Main is at msgrcv.
unfoldable pub at_receive : State → Bool
at_receive s = is_receiving s.doing && length s.received == 0

-- A step, where it can be made.
unfoldable pub step : Move → State → Option State
step (client_sends r) s =
    if s.queue
    then some (record s { sent = s.sent ++ r ∷ []; waiting = s.waiting ++ r ∷ [] })
    else none
step receives s = if is_receiving s.doing then receive_one s else none
step (forks forked) s = if is_receiving s.doing then hand_on forked s else none
step interrupted s = if at_receive s then some s else none
step receive_fails s = if at_receive s then some (leave s) else none
step killed s = some (record s { doing = ended; lost = s.lost ++ s.received; received = [] })
step child_exits s = elim s.children [
  | zero ↦ none
  | suc n ↦ some (record s { children = n; zombies = suc s.zombies; pending = true })
]
step other_signal s = some (record s { pending = true; others = suc s.others })
step handler_starts s =
    if is_receiving s.doing && s.pending
    then some (record s { doing = handling; pending = false })
    else none
step handler_waits s = if is_handling s.doing then some (reap_one s) else none
