-- ===== src/Transfer/Ending.antt =====
-- How the service of practice/46.4 ends.
use code_strudy.Prelude.{
  ℕ, ◌+◌, ◌≤◌, ◌≡◌, refl, ◌≢◌, ◌⊎◌, inl, inr, true, false, some, List, [], ◌∷◌, arith, Option-cases,
}
use code_strudy.Transfer.Service.{
  server_forks, hand_on, at_receive, sent_file, ChildEnd, State, init, on_exit, finish, child_ends,
  receives, Move, client_sends, child_stops, step, run,
}

-- While the service is open, the parent runs, and each request waits, is with a child or is served.
pub record IsOpen (s : State) : Type 0 where
  pub runs : s.running ≡ true
  pub has_queue : s.queue ≡ true
  pub has_file : s.key_file ≡ true
  pub all_kept : s.sent ≡ s.waiting + s.received + s.children + s.served

-- When it is closed, `most` requests will have been served at most.
pub record IsClosed (most : ℕ) (s : State) : Type 0 where
  pub no_queue : s.queue ≡ false
  pub no_file : s.key_file ≡ false
  pub none_waits : s.waiting ≡ 0
  pub bounded : s.received + s.children + s.served ≤ most

init-IsOpen : IsOpen init
unfolding init
init-IsOpen = record { runs = refl; has_queue = refl; has_file = refl; all_kept = refl }

step-IsClosed :
    (most : ℕ) (m : Move) (s t : State) → IsClosed most s → step m s ≡ some t → IsClosed most t
unfolding step finish on_exit receives hand_on at_receive child_ends
step-IsClosed most client_sends s t v e = ground arith
step-IsClosed most (server_forks f) s t v e = ground arith
step-IsClosed most (child_stops c) s t v e = ground arith
step-IsClosed most m s t v e = ground arith

run-IsClosed : (most : ℕ) (ms : List Move) (s : State) → IsClosed most s → IsClosed most (run ms s)
unfolding run
run-IsClosed most [] s v = v
run-IsClosed most (m ∷ ms) s v = elim (Option-cases (step m s)) [
  | inl blocked ↦ rw (blocked, run) (run-IsClosed most ms s v)
  | inr (t, moved) ↦ rw (moved, run) (run-IsClosed most ms t (step-IsClosed most m s t v moved))
]

abbrev pub IsSettled : State → Type 0
IsSettled s = IsOpen s ⊎ IsClosed s.sent s

step-IsSettled : (m : Move) (s t : State) → IsOpen s → step m s ≡ some t → IsSettled t
unfolding step finish on_exit receives hand_on at_receive child_ends
step-IsSettled client_sends s t v e = ground arith
step-IsSettled (server_forks f) s t v e = ground arith
step-IsSettled (child_stops c) s t v e = ground arith
step-IsSettled m s t v e = ground arith

closed-IsSettled : (m : Move) (s t : State) → IsClosed s.sent s → step m s ≡ some t → IsSettled t
unfolding step finish on_exit receives hand_on at_receive child_ends
closed-IsSettled client_sends s t v e = ground arith
closed-IsSettled (server_forks f) s t v e = ground arith
closed-IsSettled (child_stops c) s t v e = ground arith
closed-IsSettled m s t v e = ground arith

run-IsSettled : (ms : List Move) (s : State) → IsSettled s → IsSettled (run ms s)
unfolding run
run-IsSettled [] s v = v
run-IsSettled (m ∷ ms) s v = elim (Option-cases (step m s)) [
  | inl blocked ↦ rw (blocked, run) (run-IsSettled ms s v)
  | inr (t, moved) ↦ elim v [
    | inl opened ↦ rw (moved, run) (run-IsSettled ms t (step-IsSettled m s t opened moved))
    | inr closed ↦ rw (moved, run) (run-IsSettled ms t (closed-IsSettled m s t closed moved))
  ]
]

-- Under every schedule, the server runs with its queue and its key file, and every request that
-- was sent waits, is with the server, with a child or served; or queue and key file are gone, nothing waits, and
-- the requests with a child and those that are served are at most those that were sent.
pub service-IsSettled : (ms : List Move) → IsSettled (run ms init)
service-IsSettled ms = run-IsSettled ms init (inl init-IsOpen)

refusal_closes :
    (e : ChildEnd) (s t : State)
    → e ≢ sent_file
    → child_ends e s ≡ some t
    → IsClosed (t.received + t.children + t.served) t
unfolding child_ends on_exit
refusal_closes sent_file s t ne st = absurd (ne refl)
refusal_closes e s t ne st = ground arith

receives-closed : (most : ℕ) (s : State) → IsClosed most s → receives s ≡ some (finish s)
unfolding receives
receives-closed most s v = ground (arith, v.no_queue)

-- When a child ends otherwise than by having sent its file, because the file could not be opened
-- or by a SIGINT or SIGTERM, whose handler calls exit, then whatever happens later the queue and
-- the key file are gone, nothing waits, only the requests whose children still run, and one that
-- the server has received and not yet handed on, are served, and a receive of the server ends it.
pub refusal-IsClosed :
    (e : ChildEnd) (s t : State) (later : List Move)
    → e ≢ sent_file
    → step (child_stops e) s ≡ some t
    → IsClosed (t.received + t.children + t.served) (run later t)
      × (receives (run later t) ≡ some (finish (run later t)))
refusal-IsClosed e s t later ne st =
    let closed =
      run-IsClosed (t.received + t.children + t.served) later t
        (refusal_closes e s t ne (unfold step in st)) in
    (closed, receives-closed (t.received + t.children + t.served) (run later t) closed)
