-- ===== src/Procs/Found.antt =====
-- The fields of a status file that has them.
use code_strudy.Prelude.{
  ℕ, ◌+◌, ◌-◌, ◌≤◌, ◌≡◌, refl, sym, ap, ◌∙◌, ◌≢◌, true, false, some, [], ◌∷◌, ◌++◌, append_assoc,
  arith, ◌==◌, if◌then◌else◌, length, set, length-append, All,
}
use code_strudy.CString.{Bytes}
use code_strudy.Procs.Status.{
  tab, newline, uid_key, pid_key, starts, strstr, after_tab, up_to, nothing, entry, cut, show_name,
  show_pid, show_status,
}

starts-append : (key x s : Bytes) → length key ≤ length x → starts key (x ++ s) ≡ starts key x
unfolding starts
starts-append [] x s le = refl
starts-append (k ∷ key) [] s le = absurd (omega arith)
starts-append (k ∷ key) (c ∷ x) s le = ground (arith, starts-append key x s (omega arith))

starts_self : (key s : Bytes) → starts key (key ++ s) ≡ true
unfolding starts
starts_self [] s = refl
starts_self (k ∷ key) s = ground (arith, starts_self key s)

-- The key does not begin inside `pre` where it follows it, and no byte of `pre` is NUL.
abbrev pub Before : Bytes → Bytes → Type 0
Before key [] = Unit
Before key (c ∷ pre) = (c ≢ 0) × (starts key (c ∷ pre ++ key) ≡ false) × Before key pre

strstr-first :
    (key pre s : Bytes)
    → Before key pre
    → key ≢ []
    → strstr key (pre ++ (key ++ s)) ≡ some (some (key ++ s))
unfolding strstr
strstr-first [] pre s b ne = absurd (ne refl)
strstr-first (k ∷ key) [] s b ne = ground (arith, starts_self (k ∷ key) s)
strstr-first (k ∷ key) (c ∷ pre) s b ne =
    let l = length-append pre (k ∷ key) in
    let same = starts-append (k ∷ key) (c ∷ pre ++ k ∷ key) s (omega (arith, l)) in
    let regroup = append_assoc pre (k ∷ key) s in
    ground (arith, b.0, b.1, same, regroup, strstr-first (k ∷ key) pre s b.2 ne)

up_to-word :
    (d : ℕ) (word s : Bytes)
    → All (λ c. (c ≢ 0) × (c ≢ d)) word
    → up_to d (word ++ d ∷ s) ≡ some (some word)
unfolding up_to
up_to-word d [] s h = ground arith
up_to-word d (c ∷ word) s h = ground (arith, h.0, up_to-word d word s h.1)

set-append : (a : Bytes) (c d : ℕ) (b : Bytes) → set (a ++ c ∷ b) (length a) d ≡ a ++ d ∷ b
set-append [] c d b = refl
set-append (x ∷ a) c d b = ap (λ s. x ∷ s) (set-append a c d b)

cut-word :
    (pre word : Bytes) (c : ℕ) (s : Bytes)
    → cut (pre ++ (word ++ c ∷ s)) (word ++ c ∷ s) word ≡ pre ++ (word ++ 0 ∷ s)
cut-word pre word c s =
    let file = pre ++ (word ++ c ∷ s) in
    let l = length-append pre (word ++ c ∷ s) in
    let m = length-append pre word in
    let at : length file - length (word ++ c ∷ s) + length word ≡ length (pre ++ word) =
      omega (arith, l, m) in
    ap (λ i. set file i 0) at
    ∙ ap (λ t. set t (length (pre ++ word)) 0) (sym (append_assoc pre word (c ∷ s)))
    ∙ set-append (pre ++ word) c 0 s
    ∙ append_assoc pre word (0 ∷ s)

cut-field :
    (pre key word : Bytes) (c : ℕ) (s : Bytes)
    → cut (pre ++ (key ++ tab ∷ (word ++ c ∷ s))) (word ++ c ∷ s) word
      ≡ pre ++ (key ++ tab ∷ (word ++ 0 ∷ s))
cut-field pre key word c s =
    let regroup : (t : Bytes) → (pre ++ (key ++ tab ∷ [])) ++ t ≡ pre ++ (key ++ tab ∷ t) = λ t.
      append_assoc pre (key ++ tab ∷ []) t ∙ ap (λ r. pre ++ r) (append_assoc key (tab ∷ []) t) in
    ap (λ t. cut t (word ++ c ∷ s) word) (sym (regroup (word ++ c ∷ s)))
    ∙ cut-word (pre ++ (key ++ tab ∷ [])) word c s
    ∙ regroup (word ++ 0 ∷ s)

-- The parts of a status file: its first line is the name, and "Pid:" comes before "Uid:".
pub record Fields : Type 0 where
  pub name : Bytes
  pub more : Bytes
  pub pid : Bytes
  pub between : Bytes
  pub digits : Bytes
  pub rest : Bytes

abbrev pub first_lines : Fields → Bytes
first_lines f = f.name ++ newline ∷ f.more

-- The text before "Uid:".
abbrev pub before_uid : Fields → Bytes
before_uid f = first_lines f ++ (pid_key ++ tab ∷ (f.pid ++ newline ∷ f.between))

abbrev pub uid_part : Fields → ℕ → Bytes
uid_part f c = uid_key ++ tab ∷ (f.digits ++ c ∷ f.rest)

abbrev pub status_text : Fields → Bytes
status_text f = before_uid f ++ uid_part f tab

pub record IsStatus (f : Fields) : Type 0 where
  pub pid_first : Before pid_key (first_lines f)
  pub uid_first : Before uid_key (before_uid f)
  pub name_line : All (λ c. (c ≢ 0) × (c ≢ newline)) f.name
  pub pid_line : All (λ c. (c ≢ 0) × (c ≢ newline)) f.pid
  pub digits_field : All (λ c. (c ≢ 0) × (c ≢ tab)) f.digits

show_name-first_lines :
    (f : Fields) (pid s : Bytes)
    → IsStatus f
    → show_name pid (first_lines f ++ s) ≡ entry f.name pid
unfolding show_name
show_name-first_lines f pid s v =
    let regroup = append_assoc f.name (newline ∷ f.more) s in
    let word = up_to-word newline f.name (f.more ++ s) v.name_line in ground (arith, regroup, word)

show_pid-before_uid :
    (f : Fields) (s : Bytes) → IsStatus f → show_pid (before_uid f ++ s) ≡ entry f.name f.pid
unfolding show_pid after_tab
show_pid-before_uid f s v =
    let tail = f.between ++ s in
    let regroup : before_uid f ++ s
        ≡ first_lines f ++ (pid_key ++ tab ∷ (f.pid ++ newline ∷ tail)) =
      append_assoc (first_lines f) (pid_key ++ tab ∷ (f.pid ++ newline ∷ f.between)) s
      ∙ ap (λ r. first_lines f ++ (pid_key ++ tab ∷ r))
          (append_assoc f.pid (newline ∷ f.between) s) in
    let found =
      strstr-first pid_key (first_lines f) (tab ∷ (f.pid ++ newline ∷ tail)) v.pid_first
        (λ e. cc) in
    let word = up_to-word newline f.pid tail v.pid_line in
    let cuts = cut-field (first_lines f) pid_key f.pid newline tail in
    let named = show_name-first_lines f f.pid (pid_key ++ tab ∷ (f.pid ++ 0 ∷ tail)) v in
    ap show_pid regroup ∙ rw (found, show_pid, word, cuts, named)

-- The name and the identifier are shown where the user is the one that is asked for.
pub show_status-entry :
    (atol : Bytes → ℕ) (uid : ℕ) (f : Fields)
    → IsStatus f
    → show_status atol uid (status_text f)
      ≡ (if atol f.digits == uid then entry f.name f.pid else nothing)
unfolding show_status after_tab
show_status-entry atol uid f v =
    let found =
      strstr-first uid_key (before_uid f) (tab ∷ (f.digits ++ tab ∷ f.rest)) v.uid_first
        (λ e. cc) in
    let word = up_to-word tab f.digits f.rest v.digits_field in
    let cuts = cut-field (before_uid f) uid_key f.digits tab f.rest in
    let shows = show_pid-before_uid f (uid_part f 0) v in rw (found, show_status, word, cuts, shows)
