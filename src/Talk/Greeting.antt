-- ===== src/Talk/Greeting.antt =====
-- The registration that a client sends, against what the server asks of one.
use code_strudy.Prelude.{
  ℕ, zero, suc, ◌≤◌, ◌<◌, ◌≡◌, refl, sym, ap, subst, ◌∙◌, ◌≢◌, ◌↔◌, inl, inr, some, [], ◌∷◌, ◌++◌,
  arith, ltb, Bool-cases, Option-cases, length, replicate, length-replicate, All,
}
use code_strudy.CString.{Bytes, strncpy, terminated, text}
use code_strudy.Talk.Table.{client_name_len}
use code_strudy.Talk.Server.{RegisterMsg}
use code_strudy.Talk.Directory.{IsProperRegister}
use code_strudy.Talk.Client.{ClientSetup, register_sent, talking, announce, client_main}

-- The copy of a name into an array of `n` bytes.
record IsCopy (n : ℕ) (name buf : Bytes) : Type 0 where
  full : length buf ≡ n
  ends : terminated buf ≡ ltb (length name) n
  same : length name < n → text buf ≡ name

strncpy-IsCopy :
    (n : ℕ) (name : Bytes)
    → All (λ c. c ≢ 0) name
    → length name ≤ n
    → (buf : Bytes) × (strncpy n (name ++ 0 ∷ []) ≡ some buf) × IsCopy n name buf
unfolding strncpy terminated text
strncpy-IsCopy zero [] h le =
    ([], refl, record { full = refl; ends = refl; same = λ lt. absurd (omega arith) })
strncpy-IsCopy zero (c ∷ name) h le = absurd (omega arith)
strncpy-IsCopy (suc n) [] h le = (
  replicate (suc n) 0,
  refl,
  record { full = length-replicate (suc n) 0; ends = ground arith; same = λ lt. refl },
)
strncpy-IsCopy (suc n) (c ∷ name) h le =
    let (buf, copied, k) = strncpy-IsCopy n name h.1 (omega arith) in
    (
      c ∷ buf,
      ground (arith, copied, h.0),
      record {
        full = ap suc k.full;
        ends = ground (arith, k.ends, h.0);
        same = λ lt. ground (arith, k.same (omega arith), h.0);
      },
    )

-- What a client announces itself with.
pub record IsGreeting (name : Bytes) (reg : RegisterMsg) : Type 0 where
  pub fits : length name ≤ client_name_len
  pub proper : IsProperRegister reg ↔ (length name < client_name_len)
  pub named : length name < client_name_len → text reg.client_name ≡ name

greeting :
    (name buf : Bytes) (k : ℕ)
    → k ≢ 0
    → length name ≤ client_name_len
    → IsCopy client_name_len name buf
    → IsGreeting name (record { client_id = k; client_name = buf })
greeting name buf k nz le c = record {
  fits = le;
  proper = (
    λ p. let e = c.ends in let t = p.name_ends in ground arith,
    λ lt. record { name_len = c.full; name_ends = c.ends ∙ ground arith; id_set = nz },
  );
  named = c.same;
}

announce-IsGreeting :
    (setup : ClientSetup) (stale name : Bytes) (j k server_id client_id : ℕ) (reg : RegisterMsg)
    → All (λ c. c ≢ 0) name
    → length name ≤ client_name_len
    → client_id ≢ 0
    → announce setup stale name j k ≡ talking server_id client_id (register_sent server_id reg ∷ [])
    → IsGreeting name reg
unfolding announce
announce-IsGreeting setup stale name j k server_id client_id reg h le nz e =
    let (buf, copied, c) = strncpy-IsCopy client_name_len name h le in
    let made : RegisterMsg = record { client_id = k; client_name = buf } in
    let is_reg : (made ≡ reg) × (k ≡ client_id) = ground (arith, copied) in
    subst (IsGreeting name) is_reg.0 (greeting name buf k (λ z. nz (sym is_reg.1 ∙ z)) le c)

-- When the client, started with a name of bytes other than NUL, has announced itself under a queue
-- identifier other than 0, its name has at most 48 bytes; the message is one that the server asks
-- for exactly when the name has fewer than 48, and then it carries the name.
pub client_main-IsGreeting :
    (setup : ClientSetup) (stale name : Bytes) (server_id client_id : ℕ) (reg : RegisterMsg)
    → All (λ c. c ≢ 0) name
    → client_id ≢ 0
    → client_main setup stale (some name)
      ≡ talking server_id client_id (register_sent server_id reg ∷ [])
    → IsGreeting name reg
unfolding client_main
client_main-IsGreeting setup stale name server_id client_id reg h nz e =
    elim (Bool-cases (ltb client_name_len (length name))) [
      | inl long ↦ ground (arith, long)
      | inr short ↦ elim (Option-cases setup.read_id) [
        | inl none_read ↦ ground (arith, short, none_read)
        | inr (j, is_read) ↦ elim (Option-cases setup.msgget) [
          | inl no_queue ↦ ground (arith, short, is_read, no_queue)
          | inr (k, queue) ↦
              announce-IsGreeting setup stale name j k server_id client_id reg h
                (ground (arith, short)) nz (ground (arith, short, is_read, queue))
        ]
      ]
    ]
