-- ===== src/Inet/Connecting.antt =====
-- inetConnect against a loop that tries one address after the other.
use code_strudy.Prelude.{
  ℕ, zero, suc, ◌≤◌, ◌≡◌, refl, ◌≢◌, ◌⊎◌, Bool, true, false, Option, none, some, List, [], ◌∷◌,
  arith,
}
use code_strudy.Inet.Sockets.{second, Connected, connected, connect_loop, inet_connect}

module _ {ℓ} {A : Type ℓ} (socket : ℕ → A → Option ℕ) (connects : ℕ → A → Bool) where
  -- What one pass gives for an address: the socket, if it could be connected.
  unfoldable pub attempt : ℕ → A → Option ℕ
  attempt t a = elim (socket t a) [
    | none ↦ none
    | some sfd ↦ elim (connects t a) [ true ↦ some sfd | false ↦ none ]
  ]

  -- The addresses in their order, each once.
  pub try_all : ℕ → List A → Connected
  unfolding attempt
  try_all t [] = Connected.minus_one
  try_all t (a ∷ more) = elim (attempt t a) [
    | some sfd ↦ connected sfd
    | none ↦ try_all (suc t) more
  ]

  connect_loop-attempt :
      (fuel t : ℕ) (a : A) (next : Option A)
      → connect_loop socket connects (suc fuel) t (some a) next ≡ (elim (attempt t a) [
        | some sfd ↦ connected sfd
        | none ↦ connect_loop socket connects fuel (suc t) next next
      ])
  unfolding connect_loop attempt
  connect_loop-attempt fuel t a next = ground arith

  -- The address is tried, and connected, at its turn; or there is no address behind it.
  abbrev pub Settles : List A → Type 0
  Settles [] = Unit
  Settles (a ∷ []) = Unit
  Settles (a ∷ b ∷ rest) = (attempt 0 a ≢ none) ⊎ (attempt 1 b ≢ none)

  -- When there are no two addresses, or the first can be connected in the first pass or the second
  -- in the second, inetConnect returns, after two passes at most, what a loop returns that tries
  -- each address once.
  pub inet_connect-try_all :
      (fuel : ℕ) (addrs : List A)
      → 2 ≤ fuel
      → Settles addrs
      → inet_connect socket connects fuel (some addrs) ≡ try_all 0 addrs
  unfolding inet_connect try_all
  inet_connect-try_all zero addrs f s = absurd (omega arith)
  inet_connect-try_all (suc zero) addrs f s = absurd (omega arith)
  inet_connect-try_all (suc (suc fuel)) [] f s = refl
  inet_connect-try_all (suc (suc fuel)) (a ∷ []) f s =
      unfold connect_loop second in ground (arith, connect_loop-attempt (suc fuel) 0 a none)
  inet_connect-try_all (suc (suc fuel)) (a ∷ b ∷ rest) f s =
      unfold second in
      ground (
        arith,
        connect_loop-attempt (suc fuel) 0 a (some b),
        connect_loop-attempt fuel 1 b (some b),
      )

  second_loops :
      (b : A)
      → ((t : ℕ) → attempt t b ≡ none)
      → (fuel t : ℕ) → connect_loop socket connects fuel t (some b) (some b) ≡ Connected.looping
  unfolding connect_loop
  second_loops b h zero t = refl
  second_loops b h (suc fuel) t =
      ground (arith, connect_loop-attempt fuel t b (some b), h t, second_loops b h fuel (suc t))

  -- When the first of several addresses cannot be connected in the first pass and the second never
  -- can, the loop of inetConnect does not end, however long it runs, even if a later address could
  -- be connected.
  pub inet_connect_loops :
      (a b : A) (rest : List A)
      → attempt 0 a ≡ none
      → ((t : ℕ) → attempt t b ≡ none)
      → (fuel : ℕ) → inet_connect socket connects fuel (some (a ∷ b ∷ rest)) ≡ Connected.looping
  unfolding inet_connect
  inet_connect_loops a b rest first h zero = unfold connect_loop in refl
  inet_connect_loops a b rest first h (suc fuel) =
      unfold second in
      ground (arith, connect_loop-attempt fuel 0 a (some b), first, second_loops b h fuel 1)
