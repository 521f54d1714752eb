-- ===== src/Exec/Faults.antt =====
-- What myExeclp does by its arguments and its environment.
use code_strudy.Prelude.{
  ℕ, ◌+◌, ◌≤◌, ◌<◌, ◌≡◌, refl, sym, ap, subst, ◌≢◌, ◌⊎◌, inl, inr, true, false, Option, none, some,
  List, [], ◌∷◌, ◌++◌, append-nil, append_assoc, arith, ltb, ◌==◌, Bool-cases, Option-cases, length,
  length-append, All,
}
use code_strudy.CString.{Bytes, terminated, text}
use code_strudy.Exec.Defs.{
  returned, enoexec, eacces, other, replaced, shell_path, getenv, Exec, Errno, Call, fault, grown,
  store_args, build_args, copy_env, has_slash, search_path, path_name, prefix_of, try_exec, search,
  my_execlp,
}

store_args_fits :
    (argv args : List Bytes)
    → length argv + length args < 99
    → store_args 100 100 argv args ≡ some (argv ++ args)
unfolding store_args grown
store_args_fits argv [] lt = ground (arith, append-nil argv)
store_args_fits argv (a ∷ args) lt =
    let shorter : length (argv ++ a ∷ []) + length args < 99 =
      ground (arith, length-append argv (a ∷ [])) in
    ground (arith, store_args_fits (argv ++ a ∷ []) args shorter, append_assoc argv (a ∷ []) args)

store_args_faults :
    (argv args : List Bytes)
    → length argv < 100
    → 99 ≤ length argv + length args
    → store_args 100 100 argv args ≡ none
unfolding store_args grown
store_args_faults argv [] le ge = ground arith
store_args_faults argv (a ∷ args) le ge = elim (Bool-cases (ltb 100 (length argv + 2))) [
  | inl grows ↦ ground (arith, grows)
  | inr stays ↦
      let fits : length argv < 99 = ground (arith, stays) in
      let l = length-append argv (a ∷ []) in
      let rest = store_args_faults (argv ++ a ∷ []) args (omega (arith, l)) (omega (arith, l)) in
      ground (arith, stays, rest)
]

slash_cases :
    (name : Bytes)
    → ((dir : Bytes) × (base : Bytes) × (name ≡ dir ++ b'/' ∷ base) × (has_slash name ≡ true))
      ⊎ (All (λ c. c ≢ b'/') name × (has_slash name ≡ false))
unfolding has_slash
slash_cases [] = inr (tt, refl)
slash_cases (c ∷ s) = elim (Bool-cases (c == b'/')) [
  | inl e ↦ inl ([], s, ground (arith, e), ground (arith, e))
  | inr e ↦ elim (slash_cases s) [
    | inl (dir, base, same, slash) ↦
        inl (c ∷ dir, base, ap (λ t. c ∷ t) same, ground (arith, e, slash))
    | inr (free, bare) ↦ inr ((ground (arith, e), free), ground (arith, e, bare))
  ]
]

-- execShScrip: the shell, with its own name before the arguments.
unfoldable pub shell_call : Call → Call
shell_call c = record { path = shell_path; args = shell_path ∷ c.args }

module _ (execve : Call → Option Errno) where
  dot_name :
      (unset filename : Bytes)
      → terminated unset ≡ true
      → text unset ≡ []
      → path_name unset (1 + length filename + 2) (b'.' ∷ []) filename
        ≡ some (b'.' ∷ b'/' ∷ filename)
  unfolding path_name
  dot_name unset filename ends empty = ground arith

  search-dot :
      (stale : ℕ) (unset : Bytes) (error : Errno) (filename : Bytes) (argv : List Bytes)
      → stale ≢ 0
      → terminated unset ≡ true
      → text unset ≡ []
      → search execve stale unset error (search_path none) filename argv
        ≡ try_exec execve (record { path = b'.' ∷ b'/' ∷ filename; args = argv })
  unfolding search search_path prefix_of
  search-dot stale unset error filename argv nz ends empty =
      ground (arith, dot_name unset filename ends empty)

  -- A file that is tried: execve takes it; or it is no program, and the shell is tried with it; or
  -- its error is that of the function.
  abbrev pub Tries : Call → Exec → Type 0
  Tries c result =
      ((execve c ≡ none) × (result ≡ replaced c))
      ⊎ ((execve c ≡ some enoexec)
          × (execve (shell_call c) ≡ none)
          × (result ≡ replaced (shell_call c)))
      ⊎ ((execve c ≡ some enoexec) × (execve (shell_call c) ≢ none) × (result ≡ returned enoexec))
      ⊎ ((e : Errno) × (e ≢ enoexec) × (execve c ≡ some e) × (result ≡ returned e))

  try_exec-Tries : (c : Call) → Tries c (try_exec execve c)
  unfolding try_exec shell_call
  try_exec-Tries c = elim (Option-cases (execve c)) [
    | inl taken ↦ inl (taken, ground (arith, taken))
    | inr (enoexec, e) ↦ elim (Option-cases (execve (shell_call c))) [
      | inl taken ↦ inr (inl (e, taken, ground (arith, e, taken)))
      | inr (f, failed) ↦ inr (inr (inl (e, (λ z. cc), ground (arith, e, failed))))
    ]
    | inr (eacces, e) ↦ inr (inr (inr (eacces, (λ z. cc), e, ground (arith, e))))
    | inr (other, e) ↦ inr (inr (inr (other, (λ z. cc), e, ground (arith, e))))
  ]

  -- Too many strings in the environment or arguments; or a file is tried: the one named, where the
  -- name has a slash, or that of the name in ".".
  abbrev pub Runs : ℕ → Bytes → Errno → List Bytes → Bytes → Bytes → List Bytes → Type 0
  Runs stale unset error environ filename arg args =
      let result = my_execlp execve stale unset error environ filename (some arg) args in
      (((environ ≢ []) ⊎ (98 ≤ length args)) × (result ≡ fault))
      ⊎ ((environ ≡ [])
          × (length args < 98)
          × (dir : Bytes) × (base : Bytes) × (filename ≡ dir ++ b'/' ∷ base)
          × Tries (record { path = filename; args = arg ∷ args }) result)
      ⊎ ((environ ≡ [])
          × (length args < 98)
          × All (λ c. c ≢ b'/') filename
          × Tries (record { path = b'.' ∷ b'/' ∷ filename; args = arg ∷ args }) result)

  -- When morePrefixes happens not to be 0 and the unset memory to hold an empty string: with a
  -- string in the environment, or 98 or more arguments behind the first, myExeclp writes outside
  -- an array; otherwise it tries one file with the arguments that were given, the file as it is
  -- named, if the name has a slash, and else the file of that name in ".": execve takes the
  -- process over; or finds no program and the shell takes it over, with its own path before the
  -- arguments; or the file or the shell cannot be executed, and the function returns with the
  -- error that execve gave for the file.
  pub my_execlp-Runs :
      (stale : ℕ) (unset : Bytes) (error : Errno) (environ : List Bytes)
      → (filename arg : Bytes) (args : List Bytes) → stale ≢ 0
      → terminated unset ≡ true
      → text unset ≡ []
      → Runs stale unset error environ filename arg args
  unfolding my_execlp build_args copy_env
  my_execlp-Runs stale unset error (e ∷ environ) filename arg args nz ends empty =
      inl (inl (λ z. cc), unfold copy_env in ground arith)
  my_execlp-Runs stale unset error [] filename arg args nz ends empty =
      elim (Bool-cases (ltb (length args) 98)) [
        | inr many ↦
            let ge : 98 ≤ length args = ground (arith, many) in
            let stored = store_args_faults (arg ∷ []) args (omega arith) (omega arith) in
            inl (inr ge, ground (arith, stored))
        | inl few ↦
            let lt : length args < 98 = ground (arith, few) in
            let stored = store_args_fits (arg ∷ []) args (omega arith) in
            elim (slash_cases filename) [
              | inl (dir, base, same, slash) ↦
                  let call : Call = record { path = filename; args = arg ∷ args } in
                  let result : my_execlp execve stale unset error [] filename (some arg) args
                      ≡ try_exec execve call =
                    ground (arith, stored, slash) in
                  inr (
                    inl (
                      refl,
                      lt,
                      dir,
                      base,
                      same,
                      subst (Tries call) (sym result) (try_exec-Tries call),
                    ))
              | inr (free, bare) ↦
                  let dot = search-dot stale unset error filename (arg ∷ args) nz ends empty in
                  let call : Call = record { path = b'.' ∷ b'/' ∷ filename; args = arg ∷ args } in
                  let result : my_execlp execve stale unset error [] filename (some arg) args
                      ≡ try_exec execve call =
                    unfold getenv in ground (arith, stored, bare, dot) in
                  inr (inr (refl, lt, free, subst (Tries call) (sym result) (try_exec-Tries call)))
            ]
      ]
