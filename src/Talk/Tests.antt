-- ===== src/Talk/Tests.antt =====
-- Runs of the talk server, and its theorems at them.
use code_strudy.Talk.Slots.{Slot, recipient, members}
use code_strudy.Talk.Process.{Setup}
use code_strudy.Talk.Session.{Absent}
use code_strudy.Talk.Client.{task_sent, talking, ClientSetup}
use code_strudy.Prelude.{
  ℕ, zero, suc, ◌≡◌, refl, sym, ap, ◌≢◌, inr, true, some, List, [], ◌∷◌, map, arith, length,
  replicate, length-replicate, All, pos, incr, decr, All-replicate,
}
use code_strudy.CString.{terminated, text, strncpy}
use code_strudy.Talk.Table.{find_id, find_free, blank}
use code_strudy.Talk.Server.{
  stopped, interrupted, delete_failed, received, talk, delete, Event, RegisterMsg, TaskMsg, Server,
  registered, running, register, init,
}
use code_strudy.Talk.Directory.{
  talk_routes, forward, delete_refines, IsValid, IsProper, Deletes, IsProperRegister, IsProperTask,
  Registers, register_refines,
}
use code_strudy.Talk.Loop.{IsCounted, init-IsValid}
use code_strudy.Talk.Prompting.{send_loop}
use code_strudy.Talk.Delivery.{Line, IsSayable, prompt_of, AllDelivered, send_loop-AllDelivered}

abbrev ann : RegisterMsg
ann = record { client_id = 7; client_name = b'a' ∷ b'n' ∷ b'n' ∷ replicate 45 0 }

abbrev to_ann : TaskMsg
to_ann = record { target_name = b'a' ∷ b'n' ∷ b'n' ∷ 0 ∷ []; msg = b'h' ∷ b'i' ∷ 0 ∷ [] }

ann-IsProperRegister : IsProperRegister ann
unfolding terminated
ann-IsProperRegister = record { name_len = refl; name_ends = refl; id_set = λ e. omega arith }

to_ann-IsProperTask : IsProperTask to_ann
unfolding terminated text
to_ann-IsProperTask = record { target_ends = refl; target_set = λ e. cc; msg_ends = refl }

-- A server that knows `ann`; the rest of its table is free.
abbrev with_ann : Server
with_ann = record {
  table = record { client_id = 7; client_name = ann.client_name } ∷ replicate 1023 blank;
  client_count = pos 1;
}

register-ann :
    register init ann ≡ running with_ann (registered (pos 1) 0 7 (b'a' ∷ b'n' ∷ b'n' ∷ []) ∷ [])
unfolding register init find_free strncpy terminated text incr
register-ann = refl

register_refines_example : Registers init ann
register_refines_example = register_refines init ann ann-IsProperRegister init-IsValid

with_ann-IsValid : IsValid with_ann
unfolding terminated text
with_ann-IsValid = record {
  full_length = ap suc (length-replicate 1023 blank);
  clean = ((refl, λ e. absurd (omega arith)), All-replicate Slot 1023 blank (refl, λ _. refl));
}

members-blank : (n : ℕ) → members (replicate n blank) ≡ []
members-blank zero = refl
members-blank (suc n) = members-blank n

with_ann-IsCounted : IsCounted with_ann
with_ann-IsCounted = ap (λ l. pos (suc (length l))) (sym (members-blank 1023))

talk_routes_example :
    talk with_ann to_ann true
    ≡ running with_ann
        (forward to_ann true (recipient (text to_ann.target_name) (members with_ann.table)))
talk_routes_example = talk_routes with_ann to_ann true to_ann-IsProperTask with_ann-IsValid

-- A registration, an interrupt and a message to the new client.
abbrev events : List Event
events =
    received (record { mtype = 1; as_register = ann; as_task = to_ann }) true
    ∷ interrupted
    ∷ received (record { mtype = 2; as_register = ann; as_task = to_ann }) true
    ∷ []

events-IsProper : All IsProper events
events-IsProper = (
  (λ _. ann-IsProperRegister, λ _. to_ann-IsProperTask),
  (tt, ((λ _. ann-IsProperRegister, λ _. to_ann-IsProperTask), tt)),
)

init-IsCounted : IsCounted init
unfolding init
init-IsCounted = ap (λ l. pos (length l)) (sym (members-blank 1024))

-- Nobody has the identifier 9.
abbrev nobody : RegisterMsg
nobody = record ann { client_id = 9 }

delete-nobody :
    delete with_ann nobody
    ≡ running (record with_ann { client_count = pos 0 }) (delete_failed 9 ∷ [])
unfolding delete find_id decr
delete-nobody = refl

-- The server starts, reports a deletion that finds nobody, and is interrupted from the keyboard.
abbrev all_set : Setup
all_set = record { msgget = some 3; open_file = true; write_id = true; sigaction = true }

abbrev until_stopped : List Event
until_stopped =
    received (record { mtype = 3; as_register = nobody; as_task = to_ann }) true ∷ stopped ∷ []

ann-Absent : Absent 7 init.table
unfolding init
ann-Absent = All-replicate (λ c. c.client_id ≢ 7) 1024 blank (λ e. omega arith)

-- All calls of the client succeed.
abbrev all_well : ClientSetup
all_well = record {
  open_file = true;
  read_id = some 3;
  msgget = some 7;
  sent = true;
  forked = true;
}

abbrev line : Line
line = record { target = b'a' ∷ b'n' ∷ b'n' ∷ []; words = b'h' ∷ b'i' ∷ [] }

line-IsSayable : IsSayable line
line-IsSayable = record {
  target_set = λ e. cc;
  target_bytes = (
    ((λ e. omega arith), (λ e. omega arith), inr (omega arith)),
    (
      ((λ e. omega arith), (λ e. omega arith), inr (omega arith)),
      (((λ e. omega arith), (λ e. omega arith), inr (omega arith)), tt),
    ),
  );
  target_fits = omega arith;
  words_set = λ e. cc;
  words_bytes = (
    ((λ e. omega arith), (λ e. omega arith), inr (omega arith)),
    (((λ e. omega arith), (λ e. omega arith), inr (omega arith)), tt),
  );
  words_fit = omega arith;
}

send_loop-AllDelivered_example :
    (tasks : List TaskMsg) × (send_loop 3 7 [] (map prompt_of (line ∷ []))
      ≡ talking 3 7 (map (task_sent 3) tasks))
    × AllDelivered with_ann true (line ∷ []) tasks
send_loop-AllDelivered_example =
    send_loop-AllDelivered with_ann true 3 7 [] (line ∷ []) with_ann-IsValid (line-IsSayable, tt)

abbrev bob : RegisterMsg
bob = record { client_id = 9; client_name = b'b' ∷ b'o' ∷ b'b' ∷ replicate 45 0 }

bob-IsProperRegister : IsProperRegister bob
unfolding terminated
bob-IsProperRegister = record { name_len = refl; name_ends = refl; id_set = λ e. omega arith }

abbrev with_both : Server
with_both = record {
  table =
      record { client_id = 7; client_name = ann.client_name }
      ∷ record { client_id = 9; client_name = bob.client_name }
      ∷ replicate 1022 blank;
  client_count = pos 2;
}

register-bob :
    register with_ann bob
    ≡ running with_both (registered (pos 2) 1 9 (b'b' ∷ b'o' ∷ b'b' ∷ []) ∷ [])
unfolding register find_free strncpy terminated text incr
register-bob = refl

delete_refines_example : Deletes with_ann ann
delete_refines_example = delete_refines with_ann ann (λ e. omega arith) with_ann-IsValid
