-- ===== src/Inet/Sockets.antt =====
-- inetConnect, inetPassiveSocket, inetListen and inetBind of common/inet_sockets.c.
-- getaddrinfo gives a list of addresses of any type; what the calls give for an address may change
-- from one pass of a loop to the next, so they are functions of the number of the pass.
use code_strudy.Prelude.{
  ℕ, zero, suc, Bool, true, false, not, ◌&&◌, Option, none, some, List, [], ◌∷◌, if◌then◌else◌,
}

-- ai_next of the first address.
unfoldable pub second {ℓ} : {A : Type ℓ} → List A → Option A
second [] = none
second (a ∷ []) = none
second (a ∷ b ∷ rest) = some b

-- `looping` says that the loop has not ended when the fuel is used up.
pub data Connected : Type 0 where
  minus_one looping : Connected
  connected : ℕ → Connected

module _ {ℓ} {A : Type ℓ} (socket : ℕ → A → Option ℕ) (connects : ℕ → A → Bool) where
  -- for (rp = pAddr; rp != NULL; rp = pAddr->ai_next), in pass `t`
  unfoldable pub connect_loop : ℕ → ℕ → Option A → Option A → Connected
  connect_loop zero t rp next = looping
  connect_loop (suc fuel) t none next = minus_one
  connect_loop (suc fuel) t (some a) next = elim (socket t a) [
    | none ↦ connect_loop fuel (suc t) next next
    | some sfd ↦ elim (connects t a) [
      | true ↦ connected sfd
      | false ↦ connect_loop fuel (suc t) next next
    ]
  ]

  -- `none` is a failure of getaddrinfo.
  unfoldable pub inet_connect : ℕ → Option (List A) → Connected
  unfolding second connect_loop
  inet_connect fuel none = minus_one
  inet_connect fuel (some []) = minus_one
  inet_connect fuel (some (a ∷ rest)) = connect_loop fuel 0 (some a) (second (a ∷ rest))

-- The value that inetPassiveSocket returns, and whether it is a descriptor that is open.
pub data Passive : Type 0 where
  minus_one looping : Passive
  opened : ℕ → Passive
  closed : ℕ → Passive

module _ {ℓ} {A : Type ℓ} (socket : ℕ → A → Option ℕ) (reuses : ℕ → A → Bool) (binds : ℕ → A → Bool)
    (listens : Bool) where
  -- What is returned with rp at its end; `lfd` is the value of the last pass, `none` for -1.
  unfoldable pub without_address : Option ℕ → Passive
  without_address none = minus_one
  without_address (some lfd) = closed lfd

  -- The loop, and what follows it. A failed setsockopt returns at once.
  unfoldable pub passive_loop : Bool → ℕ → ℕ → Option A → Option A → Option ℕ → Passive
  unfolding without_address
  passive_loop do_listen zero t rp next last = looping
  passive_loop do_listen (suc fuel) t none next last = without_address last
  passive_loop do_listen (suc fuel) t (some a) next last = elim (socket t a) [
    | none ↦ passive_loop do_listen fuel (suc t) next next none
    | some lfd ↦ elim (do_listen && not (reuses t a)) [
      | true ↦ minus_one
      | false ↦ elim (binds t a) [
        | true ↦ if do_listen && not listens then minus_one else opened lfd
        | false ↦ passive_loop do_listen fuel (suc t) next next (some lfd)
      ]
    ]
  ]

  unfoldable pub inet_passive_socket : Bool → ℕ → Option (List A) → Passive
  unfolding second passive_loop
  inet_passive_socket do_listen fuel none = minus_one
  inet_passive_socket do_listen fuel (some []) = minus_one
  inet_passive_socket do_listen fuel (some (a ∷ rest)) =
      passive_loop do_listen fuel 0 (some a) (second (a ∷ rest)) none

  unfoldable pub inet_listen : ℕ → Option (List A) → Passive
  unfolding inet_passive_socket
  inet_listen fuel addrs = inet_passive_socket true fuel addrs

  unfoldable pub inet_bind : ℕ → Option (List A) → Passive
  unfolding inet_passive_socket
  inet_bind fuel addrs = inet_passive_socket false fuel addrs
