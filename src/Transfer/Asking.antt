-- ===== src/Transfer/Asking.antt =====
-- The start of practice/46.4, svmsg_file_client.c, up to its request.
use code_strudy.Prelude.{
  ℕ, ◌<◌, ◌≡◌, ◌≢◌, ◌⊎◌, inl, inr, Bool, true, false, Option, none, some, [], ◌∷◌, arith, ltb,
  if◌then◌else◌, Bool-cases, length, All,
}
use code_strudy.CString.{fill_array, IsFilled, fill_array-IsFilled, Bytes, same_bytes}

abbrev pub path_max : ℕ
path_max = 512

-- `path_name` is the array, of path_max bytes.
pub record Request : Type 0 where
  pub client_id : ℕ
  pub path_name : Bytes

-- The results of the calls of `main`: `read_id` is the identifier in the server's file.
pub record AskSetup : Type 0 where
  pub open_file : Bool
  pub read_id : Option ℕ
  pub msgget : Option ℕ
  pub sent : Bool

-- What the client has done when it waits for an answer, or when it ends; onExit removes its queue.
pub data Asked : Type 0 where
  waiting : ℕ → Request → Asked
  ended : Asked
  queue_removed : ℕ → Asked
  fault : Asked

-- The array is cleared before the copy.
unfoldable pub send_request : AskSetup → Bytes → ℕ → ℕ → Asked
unfolding fill_array
send_request setup name server_id client_id = elim (fill_array path_max name) [
  | none ↦ fault
  | some path ↦
      if setup.sent
      then waiting server_id (record { client_id = client_id; path_name = path })
      else queue_removed client_id
]

-- `none` is a wrong number of arguments.
unfoldable pub ask : AskSetup → Option Bytes → Asked
unfolding send_request
ask setup none = ended
ask setup (some name) =
    if same_bytes name (b'-' ∷ b'-' ∷ b'h' ∷ b'e' ∷ b'l' ∷ b'p' ∷ [])
    then ended
    else if ltb path_max (length name)
    then ended
    else if setup.open_file
    then elim setup.read_id [
      | none ↦ ended
      | some server_id ↦ elim setup.msgget [
        | none ↦ ended
        | some client_id ↦ send_request setup name server_id client_id
      ]
    ]
    else ended

-- What a client with the identifier `id` does, by the length of the path.
abbrev pub AsksFor : AskSetup → Bytes → ℕ → Type 0
AsksFor setup name id =
    ((length name < path_max)
      × (req : Request) × (ask setup (some name) ≡ waiting id req)
      × IsFilled path_max name req.path_name)
    ⊎ ((length name ≡ path_max) × (ask setup (some name) ≡ fault))
    ⊎ ((path_max < length name) × (ask setup (some name) ≡ ended))

-- For a path without a NUL, other than --help, and when the calls succeed, the client: sends a
-- request that holds the path, with its NUL, if it has fewer than 512 bytes; writes behind the
-- array if it has 512; ends without a request if it has more.
pub ask-AsksFor :
    (setup : AskSetup) (name : Bytes) (id k : ℕ)
    → All (λ c. c ≢ 0) name
    → same_bytes name (b'-' ∷ b'-' ∷ b'h' ∷ b'e' ∷ b'l' ∷ b'p' ∷ []) ≡ false
    → setup.open_file ≡ true
    → setup.read_id ≡ some id
    → setup.msgget ≡ some k
    → setup.sent ≡ true
    → AsksFor setup name id
unfolding ask send_request
ask-AsksFor setup name id k h no_help file id_read made sent =
    elim (Bool-cases (ltb (length name) path_max)) [
      | inl short ↦
          let lt : length name < path_max = ground (arith, short) in
          let (path, filled, asks) = fill_array-IsFilled path_max name h lt in
          inl (
            lt,
            record { client_id = k; path_name = path },
            ground (arith, no_help, file, id_read, made, sent, filled, lt),
            asks,
          )
      | inr not_short ↦ elim (Bool-cases (ltb path_max (length name))) [
        | inl long ↦ inr (inr (ground (arith, long), ground (arith, no_help, long)))
        | inr not_long ↦ inr (
            inl (
              ground (arith, not_short, not_long),
              unfold fill_array in
                  ground (arith, no_help, file, id_read, made, not_short, not_long),
            ))
      ]
    ]
