-- ===== src/Fifo.antt =====
-- A server of sequence numbers and its client: routines/44.7.fifo/fifo_seqnum_server.c,
-- fifo_seqnum_client.c and fifo_seqnum_common.h under linux_programing_interface. An int is given
-- by its 32 bits.
use code_strudy.Prelude.{
  ℕ, suc, ◌+◌, ◌-◌, ◌/◌, ◌%◌, ◌^◌, ◌≤◌, ◌<◌, min, ◌≡◌, refl, ap, ◌∙◌, Bool, true, not, ◌&&◌, Option,
  none, some, List, [], ◌∷◌, ◌++◌, arith, ◌==◌, if◌then◌else◌, length, set, take, length-append,
  All, All-append,
}
mod Tests

pub record Request : Type 0 where
  pub pid : ℕ
  pub seq_len : ℕ

-- An answer, and the process whose FIFO it is written to.
pub record Response : Type 0 where
  pub to : ℕ
  pub seq_len : ℕ

-- What a turn's calls do: read fails, open fails, write fails, or all is well.
pub data Turn : Type 0 where
  read_fails open_fails write_fails answers : Turn

-- `waiting` are the requests in the FIFO; `req` is what the variable holds.
pub record Server : Type 0 where
  pub waiting : List Request
  pub req : Request
  pub req_num : ℕ
  pub count : ℕ
  pub sent : List Response

pub data Run : Type 0 where
  running : Server → Run
  ended : Server → Run

-- The length of the read is `sizeof(req) != sizeof(req)`, which is 0: it takes nothing out of the
-- FIFO and leaves `req` as it is.
unfoldable pub read_length : ℕ → ℕ
read_length size = if size == size then 0 else 1

unfoldable pub read_request : ℕ → Server → Server
unfolding read_length
read_request size s = elim s.waiting [
  | [] ↦ s
  | r ∷ more ↦ if read_length size == 0 then s else record s { waiting = more; req = r }
]

-- One turn behind the test of count. A write that fails has added to reqNum all the same.
unfoldable pub serve_turn : Turn → Server → Server
unfolding read_request
serve_turn read_fails s = s
serve_turn open_fails s = read_request 8 s
serve_turn write_fails s =
    let t = read_request 8 s in record t { req_num = (t.req_num + t.req.seq_len) % 2 ^ 32 }
serve_turn answers s =
    let t = read_request 8 s in
    let n = (t.req_num + t.req.seq_len) % 2 ^ 32 in
    record t { req_num = n; sent = t.sent ++ record { to = t.req.pid; seq_len = n } ∷ [] }

-- while (1), over the turns; at the third the loop is left.
unfoldable pub serve : List Turn → Server → Run
unfolding serve_turn
serve [] s = if suc s.count == 3 then ended (record s { count = 3 }) else running s
serve (turn ∷ more) s =
    let rest = serve more (serve_turn turn (record s { count = suc s.count })) in
    if suc s.count == 3 then ended (record s { count = 3 }) else rest

-- The three calls before the loop, and what the variable happens to hold.
unfoldable pub server : Bool → Request → List Request → List Turn → Option Run
unfolding serve
server starts stale waiting turns =
    if starts
    then some
        (serve turns (record { waiting = waiting; req = stale; req_num = 0; count = 0; sent = [] }))
    else none

-- The client's calls: mkfifo, open, write, open and the read of the answer.
pub record Calls : Type 0 where
  pub made : Bool
  pub opened : Bool
  pub written : Bool
  pub own_opened : Bool
  pub answer : Option ℕ

-- The request that went out, and the number that is printed.
pub record Asked : Type 0 where
  pub request : Option Request
  pub printed : Option ℕ

-- `arg` is what atol makes of argv[1].
unfoldable pub client : Calls → ℕ → Option ℕ → Asked
client calls pid arg =
    let req : Request = record {
      pid = pid;
      seq_len = elim arg [ none ↦ 1 | some n ↦ n % 2 ^ 32 ];
    } in
    if calls.made && calls.opened && calls.written
    then record { request = some req; printed = if calls.own_opened then calls.answer else none }
    else record { request = none; printed = none }

-- The end of the server: the requests still wait, the variable is what it was, and what was sent
-- went to the process that the variable names, at most twice.
pub record IsDeaf (stale : Request) (waiting : List Request) (s : Server) : Type 0 where
  pub not_read : s.waiting ≡ waiting
  pub not_set : s.req ≡ stale
  pub only_to : All (λ r. r.to ≡ stale.pid) s.sent
  pub few : length s.sent ≤ 2

read_request_lem : (w : List Request) (s : Server) → s.waiting ≡ w → read_request 8 s ≡ s
unfolding read_request read_length
read_request_lem [] s e = ground (arith, e)
read_request_lem (r ∷ more) s e = ground (arith, e)

-- The same before the end, `n` turns on.
record IsDeafAt (stale : Request) (waiting : List Request) (n : ℕ) (s : Server) : Type 0 where
  not_read : s.waiting ≡ waiting
  not_set : s.req ≡ stale
  only_to : All (λ r. r.to ≡ stale.pid) s.sent
  few : length s.sent ≤ n
  counted : s.count ≡ n

counted-IsDeafAt :
    (stale : Request) (waiting : List Request) (n : ℕ) (s : Server)
    → IsDeafAt stale waiting n s
    → IsDeafAt stale waiting (suc n) (record s { count = suc s.count })
counted-IsDeafAt stale waiting n s v = record {
  not_read = v.not_read;
  not_set = v.not_set;
  only_to = v.only_to;
  few = omega (arith, v.few);
  counted = omega (arith, v.counted);
}

turn-IsDeafAt :
    (stale : Request) (waiting : List Request) (n : ℕ) (turn : Turn) (s : Server)
    → IsDeafAt stale waiting n s
    → IsDeafAt stale waiting (suc n) (serve_turn turn (record s { count = suc s.count }))
unfolding serve_turn
turn-IsDeafAt stale waiting n read_fails s v = counted-IsDeafAt stale waiting n s v
turn-IsDeafAt stale waiting n open_fails s v =
    let u : Server = record s { count = suc s.count } in
    rw (read_request_lem u.waiting u refl) (counted-IsDeafAt stale waiting n s v)
turn-IsDeafAt stale waiting n write_fails s v =
    let u : Server = record s { count = suc s.count } in
    let w = counted-IsDeafAt stale waiting n s v in
    rw (read_request_lem u.waiting u refl) (record {
      not_read = w.not_read;
      not_set = w.not_set;
      only_to = w.only_to;
      few = w.few;
      counted = w.counted;
    })
turn-IsDeafAt stale waiting n answers s v =
    let u : Server = record s { count = suc s.count } in
    let w = counted-IsDeafAt stale waiting n s v in
    let answer : Response = record {
      to = u.req.pid;
      seq_len = (u.req_num + u.req.seq_len) % 2 ^ 32;
    } in
    rw (read_request_lem u.waiting u refl) (record {
      not_read = w.not_read;
      not_set = w.not_set;
      only_to =
          All-append (λ r. r.to ≡ stale.pid) s.sent (answer ∷ []) v.only_to
            (ap (λ (r : Request). r.pid) v.not_set, tt);
      few = omega (arith, v.few, length-append s.sent (answer ∷ []));
      counted = w.counted;
    })

-- At the third turn.
leaves :
    (more : List Turn) (s : Server) → s.count ≡ 2 → serve more s ≡ ended (record s { count = 3 })
unfolding serve
leaves [] s e = ground (arith, e)
leaves (turn ∷ more) s e = ground (arith, e)

goes_round :
    (turn : Turn) (more : List Turn) (s : Server)
    → s.count < 2
    → serve (turn ∷ more) s ≡ serve more (serve_turn turn (record s { count = suc s.count }))
unfolding serve
goes_round turn more s lt = ground (arith, lt)

-- Whatever requests wait in its FIFO, and whatever two or more turns bring, the server leaves its
-- loop at the third turn with all of them still waiting; it has sent two answers at most, each to
-- the process that its unset variable names.
pub server-IsDeaf :
    (stale : Request) (waiting : List Request) (first second : Turn) (more : List Turn)
    → (s : Server) × (server true stale waiting (first ∷ second ∷ more) ≡ some (ended s))
      × IsDeaf stale waiting s
unfolding server
server-IsDeaf stale waiting first second more =
    let s0 : Server = record {
      waiting = waiting;
      req = stale;
      req_num = 0;
      count = 0;
      sent = [];
    } in
    let v0 : IsDeafAt stale waiting 0 s0 = record {
      not_read = refl;
      not_set = refl;
      only_to = tt;
      few = omega arith;
      counted = refl;
    } in
    let s1 = serve_turn first (record s0 { count = 1 }) in
    let v1 = turn-IsDeafAt stale waiting 0 first s0 v0 in
    let s2 = serve_turn second (record s1 { count = suc s1.count }) in
    let v2 = turn-IsDeafAt stale waiting 1 second s1 v1 in
    (
      record s2 { count = 3 },
      ap some (
          goes_round first (second ∷ more) s0 (omega arith)
          ∙ goes_round second more s1 (omega (arith, v1.counted))
          ∙ leaves more s2 v2.counted),
      record { not_read = v2.not_read; not_set = v2.not_set; only_to = v2.only_to; few = v2.few },
    )
