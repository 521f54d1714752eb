-- ===== src/Talk/Process.antt =====
-- The start of talk_server.c's `main`, `onExit` and the signal handlers.
use code_strudy.Prelude.{
  ℕ, ◌≡◌, ◌⊎◌, inl, inr, Bool, Option, none, some, List, [], ◌∷◌, ◌++◌, map, arith, if◌then◌else◌,
  Bool-cases, Option-cases,
}
use code_strudy.Talk.Server.{Server, Out, Outcome, running, exited, fault, Event, init, serve}

-- The results of the calls that `main` makes before its loop; `none` is a failed `msgget`.
pub record Setup : Type 0 where
  pub msgget : Option ℕ
  pub open_file : Bool
  pub write_id : Bool
  pub sigaction : Bool

pub data Effect : Type 0 where
  queue_removed : ℕ → Effect
  file_removed : Effect
  shown : Out → Effect

pub data Run : Type 0 where
  waiting : Server → List Effect → Run
  ended : List Effect → Run
  undefined : Run

unfoldable pub on_exit : ℕ → List Effect
on_exit server_id = queue_removed server_id ∷ file_removed ∷ []

unfoldable pub loop : ℕ → Outcome → Run
unfolding on_exit
loop server_id (running s out) = waiting s (map shown out)
loop server_id (exited out) = ended (map shown out ++ on_exit server_id)
loop server_id fault = undefined

-- `errPrintf` formats into a local buffer and exits: nothing is shown.
unfoldable pub main : Setup → List Event → Run
unfolding loop
main setup events = elim setup.msgget [
  | none ↦ ended []
  | some server_id ↦
      if setup.open_file
      then if setup.write_id
        then if setup.sigaction
          then loop server_id (serve init events)
          else ended (on_exit server_id)
        else ended (on_exit server_id)
      else ended (on_exit server_id)
]

-- What an outcome shows before the process ends.
shown_by : Outcome → List Out
shown_by (running s out) = []
shown_by (exited out) = out
shown_by fault = []

loop_ends :
    (server_id : ℕ) (o : Outcome) (effects : List Effect)
    → loop server_id o ≡ ended effects
    → (out : List Out) × (effects ≡ map shown out ++ queue_removed server_id ∷ file_removed ∷ [])
unfolding loop
loop_ends server_id (running s out) effects e = cc
loop_ends server_id (exited out) effects e = (out, cc)
loop_ends server_id fault effects e = cc

main_without_queue :
    (setup : Setup) (events : List Event) (effects : List Effect)
    → setup.msgget ≡ none
    → main setup events ≡ ended effects
    → effects ≡ []
unfolding main
main_without_queue setup events effects missing e = ground arith

main_with_queue :
    (setup : Setup) (events : List Event) (effects : List Effect) (k : ℕ)
    → setup.msgget ≡ some k
    → main setup events ≡ ended effects
    → (out : List Out) × (effects ≡ map shown out ++ queue_removed k ∷ file_removed ∷ [])
unfolding main
main_with_queue setup events effects k made e = elim (Bool-cases setup.open_file) [
  | inr no_file ↦ ([], ground arith)
  | inl a ↦ elim (Bool-cases setup.write_id) [
    | inr no_id ↦ ([], ground arith)
    | inl b ↦ elim (Bool-cases setup.sigaction) [
      | inr no_handler ↦ ([], ground arith)
      | inl c ↦ loop_ends k (serve init events) effects (rw (made, a, b, c, main) at e)
    ]
  ]
]

-- If the server's process ends, either no queue was made and nothing was done, or the last things
-- it does, behind what its loop shows, are to remove the queue and the file.
pub main_cleans_up :
    (setup : Setup) (events : List Event) (effects : List Effect)
    → main setup events ≡ ended effects
    → ((setup.msgget ≡ none) × (effects ≡ []))
      ⊎ ((server_id : ℕ) × (out : List Out) × (setup.msgget ≡ some server_id)
          × (effects ≡ map shown out ++ queue_removed server_id ∷ file_removed ∷ []))
main_cleans_up setup events effects e = elim (Option-cases setup.msgget) [
  | inl missing ↦ inl (missing, main_without_queue setup events effects missing e)
  | inr (k, made) ↦
      let (out, same) = main_with_queue setup events effects k made e in inr (k, out, made, same)
]
