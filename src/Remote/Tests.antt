-- ===== src/Remote/Tests.antt =====
-- A request, a redirection and some steps of the server.
use code_strudy.Prelude.{
  ℕ, ◌≡◌, refl, true, false, Option, none, some, List, [], ◌∷◌, arith, ltb, ◌==◌, if◌then◌else◌,
  take,
}
use code_strudy.CString.{text, same_bytes, terminated, Bytes}
use code_strudy.Dup.Defs.{Descriptors}
use code_strudy.Runs.{run}
use code_strudy.Remote.Defs.{failed, runs, send_command, command, request, client}
use code_strudy.Remote.Command.{spelled, request-command}
use code_strudy.Remote.Serving.{
  reap, handler_runs, accept_step, step, child_exits, init, accepts, Move,
}

abbrev listing : List Bytes
listing = (b'l' ∷ b's' ∷ []) ∷ (b'-' ∷ b'a' ∷ []) ∷ []

request-command_example : request (take 9 (command [] listing)) ≡ runs (take 9 (spelled listing))
request-command_example = request-command 9 (b'l' ∷ b's' ∷ []) ((b'-' ∷ b'a' ∷ []) ∷ []) (
  (((λ e. omega arith), ((λ e. omega arith), tt))),
  ((((λ e. omega arith), ((λ e. omega arith), tt))), tt),
)

request_two : request (b' ' ∷ b'l' ∷ []) ≡ runs (b' ' ∷ b'l' ∷ [])
unfolding request terminated text
request_two = refl

not_answered :
    client (record { connected = false; written = false; reply = none }) (some []) listing ≡ failed
unfolding client send_command same_bytes
not_answered = refl

-- The terminal at 0, 1 and 2, the connection at 4.
abbrev table : Descriptors ℕ
table fd = if ltb fd 3 then some 7 else if fd == 4 then some 9 else none

abbrev lowest : Descriptors ℕ → ℕ → Option ℕ
lowest t least = some 0

abbrev served : List Move
served = accepts true true ∷ accepts true true ∷ child_exits ∷ child_exits ∷ handler_runs ∷ []

both_reaped : (run step served (init 4)).reaped ≡ 2
unfolding run init step accept_step reap
both_reaped = refl
