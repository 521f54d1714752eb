-- ===== src/Transfer/Sysv.antt =====
-- practice/46.4: serverRequest of svmsg_file_server.c and `main` of svmsg_file_client.c, from the
-- request on. A System V queue keeps the length of each message.
use code_strudy.Prelude.{
  ℕ, ◌+◌, ◌≤◌, ◌≡◌, refl, sym, ap, subst, ◌∙◌, ◌≢◌, inl, inr, Bool, true, Option, none, some, List,
  [], ◌∷◌, ◌++◌, append-nil, append_assoc, arith, ◌==◌, if◌then◌else◌, Bool-cases, Option-cases,
  length, drop, length-append, All,
}
use code_strudy.CString.{Bytes, strlen}
use code_strudy.Transfer.Chunks.{
  drop-append, drop-all, Chunk, content, front, overlay, length-overlay,
}

abbrev pub resp_msg_size : ℕ
resp_msg_size = 8192

abbrev pub resp_mt_failure : ℕ
resp_mt_failure = 1

abbrev pub resp_mt_data : ℕ
resp_mt_data = 2

abbrev pub resp_mt_end : ℕ
resp_mt_end = 3

-- A message on the client's queue: its type, and how many bytes of `data` it has.
pub record Message : Type 0 where
  pub mtype : ℕ
  pub size : ℕ

-- The text "coun't open fail!\n" that is sent when the file cannot be opened.
abbrev pub failure_size : ℕ
failure_size = 18

-- The last message: its size is `strlen(resp.data)`, of whatever the buffer holds then; `none` is a
-- read past the buffer.
unfoldable pub end_message : Bytes → Option (List Message)
end_message buffer = elim (strlen buffer) [
  | none ↦ none
  | some n ↦ some (record { mtype = resp_mt_end; size = n } ∷ [])
]

-- The loop of serverRequest: a failed send only leaves the loop.
unfoldable pub send_file : Bytes → List Chunk → Option (List Message)
unfolding end_message
send_file buffer [] = end_message buffer
send_file buffer (c ∷ cs) =
    let next = overlay c.bytes buffer in
    let rest = send_file next cs in
    if c.accepted
    then elim rest [
      | none ↦ none
      | some ms ↦ some (record { mtype = resp_mt_data; size = length c.bytes } ∷ ms)
    ]
    else end_message next

-- serverRequest: `opened` says that the file could be opened.
unfoldable pub server_request : Bool → Bytes → List Chunk → Option (List Message)
unfolding send_file
server_request opened buffer chunks =
    if opened
    then send_file buffer chunks
    else some (record { mtype = resp_mt_failure; size = failure_size } ∷ [])

-- What the client prints: the total and the number of messages; or the failure text.
pub data Report : Type 0 where
  received : ℕ → ℕ → Report
  refused : Report
  blocked : Report

-- for (readNum = 1; resp.mtype == RESP_MT_DATA; readNum++), behind a message of type data.
unfoldable pub read_more : ℕ → ℕ → List Message → Report
read_more total read_num [] = blocked
read_more total read_num (m ∷ ms) =
    let next = read_more (total + m.size) (read_num + 1) ms in
    if m.mtype == resp_mt_data then next else received total (read_num + 1)

unfoldable pub client : List Message → Report
unfolding read_more
client [] = blocked
client (m ∷ ms) =
    if m.mtype == resp_mt_failure
    then refused
    else if m.mtype == resp_mt_data
    then read_more m.size 1 ms
    else received m.size 1

-- What the buffer holds when the last message is sent.
pub final : Bytes → List Chunk → Bytes
final buffer [] = buffer
final buffer (c ∷ cs) =
    let next = overlay c.bytes buffer in
    let rest = final next cs in if c.accepted then rest else next

data_messages : List Chunk → List Message
data_messages [] = []
data_messages (c ∷ cs) = record { mtype = resp_mt_data; size = length c.bytes } ∷ data_messages cs

abbrev ending : ℕ → List Message
ending n = record { mtype = resp_mt_end; size = n } ∷ []

send_file_lem :
    (chunks : List Chunk) (buffer : Bytes)
    → send_file buffer chunks ≡ (elim (strlen (final buffer chunks)) [
      | none ↦ none
      | some n ↦ some (data_messages (front chunks) ++ ending n)
    ])
unfolding send_file final data_messages front
send_file_lem [] buffer = ground arith
send_file_lem (c ∷ cs) buffer = ground (arith, send_file_lem cs (overlay c.bytes buffer))

read_more-data :
    (chunks : List Chunk) (total read_num n : ℕ)
    → read_more total read_num (data_messages chunks ++ ending n)
      ≡ received (total + length (content chunks)) (read_num + length chunks + 1)
unfolding read_more data_messages content
read_more-data [] total read_num n = ground arith
read_more-data (c ∷ cs) total read_num n =
    read_more-data cs (total + length c.bytes) (read_num + 1) n
    ∙ ground (arith, length-append c.bytes (content cs))

-- What the client reports of the chunks that were sent before a last message of `n` bytes.
pub report : List Chunk → ℕ → Report
report [] n = received n 1
report (c ∷ cs) n = received (length (content (c ∷ cs))) (length (c ∷ cs) + 1)

client-data :
    (chunks : List Chunk) (n : ℕ) → client (data_messages chunks ++ ending n) ≡ report chunks n
unfolding client data_messages report content
client-data [] n = refl
client-data (c ∷ cs) n =
    read_more-data cs (length c.bytes) 1 n ∙ ground (arith, length-append c.bytes (content cs))

-- Whenever the server's child sends its last message, the client reports the bytes and the number
-- of the chunks before the first failed send (the last message is counted too), as if the file
-- were complete; only where no chunk was sent is the total the size of the last message.
pub client-server_request :
    (buffer : Bytes) (chunks : List Chunk) (ms : List Message)
    → server_request true buffer chunks ≡ some ms
    → (n : ℕ) × (strlen (final buffer chunks) ≡ some n) × (client ms ≡ report (front chunks) n)
unfolding server_request
client-server_request buffer chunks ms e = elim (Option-cases (strlen (final buffer chunks))) [
  | inl no_end ↦ ground (arith, send_file_lem chunks buffer)
  | inr (n, found) ↦
      let same : data_messages (front chunks) ++ ending n ≡ ms =
        ground (arith, found, send_file_lem chunks buffer) in
      (
        n,
        found,
        subst (λ l. client l ≡ report (front chunks) n) same (client-data (front chunks) n),
      )
]

-- A buffer whose last byte is NUL, and chunks that do not reach it.
final-nul :
    (chunks : List Chunk) (k : ℕ) (b : Bytes)
    → length b ≡ k
    → All (λ c. length c.bytes ≤ k) chunks
    → (b' : Bytes) × (final (b ++ 0 ∷ []) chunks ≡ b' ++ 0 ∷ [])
unfolding final
final-nul [] k b len h = (b, refl)
final-nul (c ∷ cs) k b len h =
    let le : length c.bytes ≤ length b = omega (arith, h.0, len) in
    let same : overlay c.bytes (b ++ 0 ∷ []) ≡ overlay c.bytes b ++ 0 ∷ [] =
      ap (λ t. c.bytes ++ t) (drop-append (length c.bytes) b (0 ∷ []) le)
      ∙ sym (append_assoc c.bytes (drop (length c.bytes) b) (0 ∷ [])) in
    let (b2, rest) = final-nul cs k (overlay c.bytes b) (length-overlay c.bytes b le ∙ len) h.1 in
    elim (Bool-cases c.accepted) [
      | inl ok ↦ (b2, rw (ok, same) rest)
      | inr lost ↦ (overlay c.bytes b, rw (lost, same))
    ]

strlen-nul : (b : Bytes) → (n : ℕ) × (strlen (b ++ 0 ∷ []) ≡ some n)
unfolding strlen
strlen-nul [] = (0, refl)
strlen-nul (c ∷ b) =
    let (n, e) = strlen-nul b in
    elim (Bool-cases (c == 0)) [ inl z ↦ (0, rw z) | inr nz ↦ (n + 1, rw (nz, e)) ]

-- If the last byte of the unset buffer is NUL and no read fills the buffer, the child sends its
-- messages, and the client reports the chunks before the first failed send.
pub report_arrives :
    (b : Bytes) (chunks : List Chunk)
    → length b + 1 ≡ resp_msg_size
    → All (λ c. length c.bytes ≤ length b) chunks
    → (ms : List Message) × (n : ℕ) × (server_request true (b ++ 0 ∷ []) chunks ≡ some ms)
      × (client ms ≡ report (front chunks) n)
unfolding server_request
report_arrives b chunks size h =
    let (b', e) = final-nul chunks (length b) b refl h in
    let (n, found) = strlen-nul b' in
    (
      data_messages (front chunks) ++ ending n,
      n,
      rw (send_file_lem chunks (b ++ 0 ∷ []), e, found),
      client-data (front chunks) n,
    )

nonzero-strlen : (s : Bytes) → All (λ c. c ≢ 0) s → strlen s ≡ none
unfolding strlen
nonzero-strlen [] h = refl
nonzero-strlen (c ∷ s) h = ground (arith, nonzero-strlen s)

-- If a sole chunk fills the buffer with bytes other than NUL, the child reads past the buffer
-- before it sends its last message.
pub full_buffer_faults :
    (buffer : Bytes) (c : Chunk)
    → length buffer ≡ resp_msg_size
    → length c.bytes ≡ resp_msg_size
    → All (λ b. b ≢ 0) c.bytes
    → server_request true buffer (c ∷ []) ≡ none
unfolding server_request final
full_buffer_faults buffer c size full nonzero =
    let whole : overlay c.bytes buffer ≡ c.bytes =
      ap (λ t. c.bytes ++ t) (drop-all (length c.bytes) buffer (omega (arith, size, full)))
      ∙ append-nil c.bytes in
    rw (send_file_lem (c ∷ []) buffer) (ground (arith, whole, nonzero-strlen c.bytes nonzero))
