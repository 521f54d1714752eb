-- ===== src/Talk/Delivery.antt =====
-- What a client sends, at the server.
use code_strudy.Prelude.{
  ℕ, ◌<◌, ◌≡◌, refl, sym, ap, ◌∙◌, ◌≢◌, ◌⊎◌, Bool, true, some, List, [], ◌∷◌, map, arith, length,
  All, All-map,
}
use code_strudy.CString.{Bytes, text, fill_array-IsFilled}
use code_strudy.Talk.Table.{client_name_len}
use code_strudy.Talk.Slots.{members, recipient}
use code_strudy.Talk.Server.{Server, TaskMsg, running, talk}
use code_strudy.Talk.Directory.{IsValid, IsProperTask, forward, talk_routes}
use code_strudy.Talk.Client.{task_sent, talking}
use code_strudy.Talk.Prompting.{message_len, both, Prompt, typed, before, send_loop}

-- The two words of a line.
pub record Line : Type 0 where
  pub target : Bytes
  pub words : Bytes

-- A byte that scanf's "%s" takes into a word: neither NUL nor white space, which is a blank and
-- the bytes 9 to 13.
abbrev pub IsWordByte : ℕ → Type 0
IsWordByte c = (c ≢ 0) × (c ≢ b' ') × ((c < 9) ⊎ (13 < c))

-- Each is one word, and has room in its array.
pub record IsSayable (l : Line) : Type 0 where
  pub target_set : l.target ≢ []
  pub target_bytes : All IsWordByte l.target
  pub target_fits : length l.target < client_name_len
  pub words_set : l.words ≢ []
  pub words_bytes : All IsWordByte l.words
  pub words_fit : length l.words < message_len

pub prompt_of : Line → Prompt
prompt_of l = record { scanned = both l.target l.words; sent = true }

-- The message carries the line, and the server sends it on to the member of that name.
pub record IsDelivered (s : Server) (accepted : Bool) (l : Line) (task : TaskMsg) : Type 0 where
  pub words_kept : text task.msg ≡ l.words
  pub routed :
      talk s task accepted
      ≡ running s (forward task accepted (recipient l.target (members s.table)))

-- Each line has its message, in order.
abbrev pub AllDelivered : Server → Bool → List Line → List TaskMsg → Type 0
AllDelivered s accepted [] [] = Unit
AllDelivered s accepted (l ∷ ls) (t ∷ ts) =
    IsDelivered s accepted l t × AllDelivered s accepted ls ts
AllDelivered s accepted _ _ = ⊥

word_no_nul : (w : Bytes) → All IsWordByte w → All (λ c. c ≢ 0) w
word_no_nul w h = All-map IsWordByte (λ c. c ≢ 0) w (λ c b. b.0) h

typed-IsDelivered :
    (s : Server) (accepted : Bool) (l : Line)
    → IsValid s
    → IsSayable l
    → (task : TaskMsg) × (typed (both l.target l.words) ≡ some task) × IsDelivered s accepted l task
unfolding typed
typed-IsDelivered s accepted l v m =
    let (name, named, n) =
      fill_array-IsFilled client_name_len l.target (word_no_nul l.target m.target_bytes)
        m.target_fits in
    let (words, worded, w) =
      fill_array-IsFilled message_len l.words (word_no_nul l.words m.words_bytes) m.words_fit in
    let task : TaskMsg = record { target_name = name; msg = words } in
    let proper : IsProperTask task = record {
      target_ends = n.ends;
      target_set = λ e. m.target_set (sym n.named ∙ e);
      msg_ends = w.ends;
    } in
    (
      task,
      ground (arith, named, worded),
      record {
        words_kept = w.named;
        routed =
            talk_routes s task accepted proper v
            ∙ ap (λ t. running s (forward task accepted (recipient t (members s.table)))) n.named;
      },
    )

-- For lines of two words, a name and a text of one word each, neither of them empty or with a NUL
-- or white space, that fit their arrays, when no msgsnd fails: the client sends one message for
-- each, in order; it carries the text, and a valid server sends it on to the first member of that
-- name, or to nobody if there is none.
pub send_loop-AllDelivered :
    (s : Server) (accepted : Bool) (server_id client_id : ℕ) (stale : Bytes) (ls : List Line)
    → IsValid s
    → All IsSayable ls
    → (tasks : List TaskMsg) × (send_loop server_id client_id stale (map prompt_of ls)
        ≡ talking server_id client_id (map (task_sent server_id) tasks))
      × AllDelivered s accepted ls tasks
unfolding send_loop prompt_of
send_loop-AllDelivered s accepted server_id client_id stale [] v m = ([], refl, tt)
send_loop-AllDelivered s accepted server_id client_id stale (l ∷ ls) v m =
    let (task, one, delivered) = typed-IsDelivered s accepted l v m.0 in
    let (tasks, rest, all) = send_loop-AllDelivered s accepted server_id client_id stale ls v m.1 in
    (task ∷ tasks, unfold before in ground (arith, one, rest), (delivered, all))
