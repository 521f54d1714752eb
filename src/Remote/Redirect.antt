-- ===== src/Remote/Redirect.antt =====
-- data() of server.c before its read: descriptors 0 and 1 become the connection.
use code_strudy.Prelude.{
  ℕ, ◌≡◌, ◌≢◌, inl, inr, Option, none, some, arith, ◌==◌, if◌then◌else◌, Bool-cases, Option-cases,
}
use code_strudy.Dup.Defs.{Descriptors, update}

-- `free_from` is the kernel's choice of a descriptor for dup. `none` is the loop that never ends.
module _ {ℓ} {F : Type ℓ} (free_from : Descriptors F → ℕ → Option ℕ) where
  -- close(fd); if (dup(cfd) != fd) while (dup2(cfd, fd) == -1)
  unfoldable pub redirect : ℕ → ℕ → Descriptors F → Option (Descriptors F)
  unfolding update
  redirect cfd fd t =
      let closed = update t fd none in
      elim (closed cfd) [
        | none ↦ none
        | some f ↦ elim (free_from closed 0) [
          | none ↦ some (update closed fd (some f))
          | some k ↦
              if k == fd
              then some (update closed k (some f))
              else some (update (update closed k (some f)) fd (some f))
        ]
      ]

  unfoldable pub redirected : ℕ → Descriptors F → Option (Descriptors F)
  unfolding redirect
  redirected cfd t = elim (redirect cfd 0 t) [ none ↦ none | some u ↦ redirect cfd 1 u ]

  redirect_lem :
      (cfd fd : ℕ) (t : Descriptors F) (f : F)
      → cfd ≢ fd
      → t cfd ≡ some f
      → (u : Descriptors F) × (redirect cfd fd t ≡ some u)
        × (u fd ≡ some f)
        × ((j : ℕ) → j ≢ fd → t j ≡ some f → u j ≡ some f)
  unfolding redirect update
  redirect_lem cfd fd t f other conn =
      let still : update t fd none cfd ≡ some f = unfold update in ground (arith, other, conn) in
      elim (Option-cases (free_from (update t fd none) 0)) [
        | inl no_room ↦ (
          update (update t fd none) fd (some f),
          ground (arith, still, no_room),
          ground arith,
          λ j ne e. ground (arith, ne, e),
        )
        | inr (k, found) ↦ elim (Bool-cases (k == fd)) [
          | inl same ↦ (
            update (update t fd none) k (some f),
            ground (arith, still, found, same),
            ground (arith, same),
            λ j ne e. ground (arith, ne, e),
          )
          | inr differs ↦ (
            update (update (update t fd none) k (some f)) fd (some f),
            ground (arith, still, found, differs),
            ground arith,
            λ j ne e. ground (arith, ne, e),
          )
        ]
      ]

-- Descriptors 0 and 1 and the connection's own, in the table that data() leaves.
pub record IsConnected {ℓ} {F : Type ℓ} (cfd : ℕ) (f : F) (after : Option (Descriptors F))
    : Type ℓ where
  pub table : Descriptors F
  pub ends : after ≡ some table
  pub input : table 0 ≡ some f
  pub output : table 1 ≡ some f
  pub kept : table cfd ≡ some f

-- For an open connection at a descriptor other than 0 and 1, and whichever free descriptors the
-- kernel chooses, the two redirections end, and 0, 1 and the connection's descriptor all are the
-- connection.
pub redirected-IsConnected {ℓ} :
    {F : Type ℓ} (free_from : Descriptors F → ℕ → Option ℕ) (cfd : ℕ) (t : Descriptors F) (f : F)
    → cfd ≢ 0
    → cfd ≢ 1
    → t cfd ≡ some f
    → IsConnected cfd f (redirected free_from cfd t)
unfolding redirected
redirected-IsConnected free_from cfd t f not_input not_output conn =
    let (u, first, input, keeps) = redirect_lem free_from cfd 0 t f not_input conn in
    let (v, second, output, keeps_more) =
      redirect_lem free_from cfd 1 u f not_output (keeps cfd not_input conn) in
    record {
      table = v;
      ends = ground (arith, first, second);
      input = keeps_more 0 (λ e. omega arith) input;
      output = output;
      kept = keeps_more cfd not_output (keeps cfd not_input conn);
    }
