-- ===== src/Remote/Defs.antt =====
-- `main` of client.c, and what data() of server.c makes of its request.
use code_strudy.Prelude.{
  ℕ, ◌-◌, Bool, ◌&&◌, Option, none, some, List, [], ◌∷◌, ◌++◌, ltb, if◌then◌else◌, length, take,
  replicate,
}
use code_strudy.CString.{Bytes, terminated, text, same_bytes}

abbrev pub buf_size : ℕ
buf_size = 512

-- snprintf(buf + strlen(buf), sizeof(buf) - strlen(buf), " %s", word)
unfoldable pub add_word : Bytes → Bytes → Bytes
add_word buf word = buf ++ take (buf_size - length buf - 1) (b' ' ∷ word)

-- for (int i = 2; i < argc; i++)
unfoldable pub command : Bytes → List Bytes → Bytes
unfolding add_word
command buf [] = buf
command buf (word ∷ words) = command (add_word buf word) words

-- The results of inetConnect, write and read: `reply` is what read gives, `none` for an error.
pub record Calls : Type 0 where
  pub connected : Bool
  pub written : Bool
  pub reply : Option Bytes

-- `printed` has the command that was sent and what is printed; `fault` is a write behind buf.
pub data ClientRun : Type 0 where
  usage failed : ClientRun
  printed : Bytes → Bytes → ClientRun
  fault : ClientRun

-- Behind the test of argc: the host, and the words of the command.
unfoldable pub send_command : Calls → List Bytes → ClientRun
unfolding command
send_command calls words =
    if calls.connected && calls.written
    then elim calls.reply [
      | none ↦ failed
      | some reply ↦
          if ltb (length reply) buf_size
          then printed (command [] words) (text (reply ++ 0 ∷ []))
          else fault
    ]
    else failed

unfoldable pub client : Calls → Option Bytes → List Bytes → ClientRun
unfolding send_command
client calls none words = usage
client calls (some host) [] = usage
client calls (some host) (word ∷ words) =
    if same_bytes host (b'-' ∷ b'-' ∷ b'h' ∷ b'e' ∷ b'l' ∷ b'p' ∷ [])
    then usage
    else send_command calls (word ∷ words)

-- What data() passes to `system`: nothing at all, the string in the buffer, or what stands behind a
-- buffer that the request fills.
pub data Request : Type 0 where
  nothing : Request
  runs : Bytes → Request
  overrun : Request

-- memset, and one read of `got`.
unfoldable pub request : Bytes → Request
request [] = nothing
request (c ∷ got) =
    let buf = c ∷ got ++ replicate (buf_size - length (c ∷ got)) 0 in
    if terminated buf then runs (text buf) else overrun
