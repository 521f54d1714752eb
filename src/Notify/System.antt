-- ===== src/Notify/System.antt =====
-- `main`, notifySetup and threadFunc of practice/52.2.b/file_server.c as steps of the threads that
-- the notification starts, with clients that send when they like. mq_notify registers for one
-- notification, which starts a thread when a message arrives at the empty queue and no thread waits
-- for it in mq_receive; registering twice is an error.
use code_strudy.Prelude.{
  ℕ, zero, suc, Bool, true, false, ◌&&◌, Option, none, some, List, [], ◌∷◌, ◌==◌, if◌then◌else◌,
}

-- `failed` says that ERROUT has ended the process.
pub record State : Type 0 where
  pub waiting : ℕ
  pub registered : Bool
  pub before_setup : ℕ
  pub before_receive : ℕ
  pub served : ℕ
  pub failed : Bool

-- `main` has registered and is in `pause`.
unfoldable pub init : State
init = record {
  waiting = 0;
  registered = true;
  before_setup = 0;
  before_receive = 0;
  served = 0;
  failed = false;
}

-- A message is put in the queue.
unfoldable pub client_sends : State → State
client_sends s =
    if s.registered && (s.waiting == 0) && (s.before_receive == 0)
    then record s { waiting = suc s.waiting; registered = false; before_setup = suc s.before_setup }
    else record s { waiting = suc s.waiting }

-- A thread calls notifySetup.
unfoldable pub notify_setup : State → Option State
notify_setup s = elim s.before_setup [
  | zero ↦ none
  | suc n ↦
      if s.registered
      then some (record s { failed = true })
      else some
          (record s { registered = true; before_setup = n; before_receive = suc s.before_receive })
]

-- A thread calls mq_receive, and handles the message that it gets.
unfoldable pub thread_receives : State → Option State
thread_receives s = elim s.before_receive [
  | zero ↦ none
  | suc n ↦ elim s.waiting [
    | zero ↦ none
    | suc w ↦ some (record s { waiting = w; before_receive = n; served = suc s.served })
  ]
]

pub data Move : Type 0 where
  sends sets_up receives : Move

unfoldable pub step : Move → State → Option State
unfolding client_sends notify_setup thread_receives
step sends s = if s.failed then none else some (client_sends s)
step sets_up s = if s.failed then none else notify_setup s
step receives s = if s.failed then none else thread_receives s

-- A move that cannot be made lets time pass.
unfoldable pub run : List Move → State → State
unfolding step
run [] s = s
run (m ∷ ms) s = elim (step m s) [ none ↦ run ms s | some t ↦ run ms t ]
