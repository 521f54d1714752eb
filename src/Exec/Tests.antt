-- ===== src/Exec/Tests.antt =====
-- Calls with no environment, where execve finds no program.
use code_strudy.Prelude.{◌≡◌, refl, Option, some, [], ◌∷◌, arith}
use code_strudy.CString.{Bytes, terminated, text}
use code_strudy.Exec.Defs.{
  Errno, other, Call, returned, my_execlp, build_args, store_args, grown, copy_env, has_slash,
  search_path, path_name, prefix_of, try_exec, search,
}
use code_strudy.Exec.Faults.{Runs, my_execlp-Runs}

abbrev no_program : Call → Option Errno
no_program c = some other

abbrev ls : Bytes
ls = b'l' ∷ b's' ∷ []

not_found : my_execlp no_program 1 (0 ∷ []) other [] ls (some ls) (ls ∷ []) ≡ returned other
unfolding my_execlp build_args store_args grown copy_env has_slash search_path path_name prefix_of
    try_exec search terminated text
not_found = refl

my_execlp-Runs_example : Runs no_program 1 (0 ∷ []) other [] ls ls (ls ∷ [])
unfolding terminated text
my_execlp-Runs_example =
    my_execlp-Runs no_program 1 (0 ∷ []) other [] ls ls (ls ∷ []) (λ e. omega arith) refl refl
