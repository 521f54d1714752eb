-- ===== src/Transfer/Service.antt =====
-- The server of practice/46.4, svmsg_file_server.c: the creation of its queue, and its loop with
-- the children that it forks, as steps in any order. A child has its parent's exit and signal
-- handlers: its `exit` and a signal run onExit, its `_exit` does not.
use code_strudy.Prelude.{
  ℕ, zero, suc, Bool, true, false, ◌&&◌, Option, none, some, List, [], ◌∷◌, ◌==◌, if◌then◌else◌,
}

-- A pass of the loop over msgget: a queue; EEXIST, with the queue of the key and the result of its
-- removal; another error.
pub data Attempt : Type 0 where
  made : ℕ → Attempt
  exists : Option ℕ → Bool → Attempt
  refused : Attempt

-- The queue, or the error exit, or neither yet, with the old queues that were removed.
pub data Creation : Type 0 where
  created : ℕ → List ℕ → Creation
  gave_up : List ℕ → Creation
  trying : List ℕ → Creation

unfoldable pub also_removed : ℕ → Creation → Creation
also_removed k (created id old) = created id (k ∷ old)
also_removed k (gave_up old) = gave_up (k ∷ old)
also_removed k (trying old) = trying (k ∷ old)

unfoldable pub create_queue : List Attempt → Creation
unfolding also_removed
create_queue [] = trying []
create_queue (made id ∷ more) = created id []
create_queue (exists none removed ∷ more) = gave_up []
create_queue (exists (some old) removed ∷ more) =
    let rest = create_queue more in if removed then also_removed old rest else gave_up []
create_queue (refused ∷ more) = gave_up []

-- Is the parent in its loop; are the queue and the key file there; the requests that were sent, that
-- wait in the queue, that the parent has received and not handed on yet, whose child runs, and whose
-- child has sent the file.
pub record State : Type 0 where
  pub running : Bool
  pub queue : Bool
  pub key_file : Bool
  pub sent : ℕ
  pub waiting : ℕ
  pub received : ℕ
  pub children : ℕ
  pub served : ℕ

-- The parent comes to its loop.
unfoldable pub init : State
init = record {
  running = true;
  queue = true;
  key_file = true;
  sent = 0;
  waiting = 0;
  received = 0;
  children = 0;
  served = 0;
}

-- onExit: with the queue go the messages in it.
unfoldable pub on_exit : State → State
on_exit s = record s { queue = false; key_file = false; waiting = 0 }

-- The end of the parent: behind its loop or by a signal.
unfoldable pub finish : State → State
unfolding on_exit
finish s = record (on_exit s) { running = false; received = 0 }

-- How a child ends: it has sent the file, it could not open it, or it gets SIGINT or SIGTERM.
pub data ChildEnd : Type 0 where
  sent_file cannot_open signalled : ChildEnd

unfoldable pub child_ends : ChildEnd → State → Option State
unfolding on_exit
child_ends e s = elim s.children [
  | zero ↦ none
  | suc n ↦ elim e [
    | sent_file ↦ some (record s { children = n; served = suc s.served })
    | cannot_open ↦ some (on_exit (record s { children = n }))
    | signalled ↦ some (on_exit (record s { children = n }))
  ]
]

-- msgrcv waits at an empty queue, and fails without one.
unfoldable pub receives : State → Option State
unfolding finish
receives s =
    if s.queue
    then elim s.waiting [
      | zero ↦ none
      | suc w ↦ some (record s { waiting = w; received = suc s.received })
    ]
    else some (finish s)

-- `fork`, behind msgrcv; if it fails, the parent leaves its loop.
unfoldable pub hand_on : Bool → State → Option State
unfolding finish
hand_on forked s = elim s.received [
  | zero ↦ none
  | suc n ↦
      if forked
      then some (record s { received = n; children = suc s.children })
      else some (finish s)
]

-- The parent is at msgrcv.
unfoldable pub at_receive : State → Bool
at_receive s = s.running && (s.received == 0)

pub data Move : Type 0 where
  client_sends : Move
  server_forks : Bool → Move
  server_receives server_interrupted server_fails server_signalled : Move
  child_stops : ChildEnd → Move

unfoldable pub step : Move → State → Option State
unfolding finish receives hand_on at_receive child_ends
step client_sends s =
    if s.queue then some (record s { sent = suc s.sent; waiting = suc s.waiting }) else none
step server_receives s = if at_receive s then receives s else none
step (server_forks forked) s = if s.running then hand_on forked s else none
step server_interrupted s = if at_receive s then some s else none
step server_fails s = if at_receive s then some (finish s) else none
step server_signalled s = if s.running then some (finish s) else none
step (child_stops e) s = child_ends e s

-- A move that cannot be made lets time pass.
unfoldable pub run : List Move → State → State
unfolding step
run [] s = s
run (m ∷ ms) s = elim (step m s) [ none ↦ run ms s | some t ↦ run ms t ]
