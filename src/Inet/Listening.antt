-- ===== src/Inet/Listening.antt =====
-- What inetListen and inetBind return.
use code_strudy.Prelude.{
  ℕ, zero, suc, ◌≤◌, ◌≡◌, ap, ◌∙◌, inl, inr, Bool, true, false, not, ◌&&◌, Option, none, some, List,
  [], ◌∷◌, arith, Bool-cases, Option-cases,
}
use code_strudy.Inet.Sockets.{
  second, opened, closed, without_address, passive_loop, inet_passive_socket, inet_listen,
  inet_bind,
}

module _ {ℓ} {A : Type ℓ} (socket : ℕ → A → Option ℕ) (reuses : ℕ → A → Bool) (binds : ℕ → A → Bool)
    (listens : Bool) where
  -- The address whose socket was made, and bound, in a pass.
  pub record IsBound (do_listen : Bool) (lfd : ℕ) : Type ℓ where
    pub pass : ℕ
    pub address : A
    pub made : socket pass address ≡ some lfd
    pub bound : binds pass address ≡ true
    pub listening : do_listen ≡ true → (listens ≡ true) × (reuses pass address ≡ true)

  passive_loop-IsBound :
      (do_listen : Bool) (fuel t lfd : ℕ) (rp next : Option A) (last : Option ℕ)
      → passive_loop socket reuses binds listens do_listen fuel t rp next last ≡ opened lfd
      → IsBound do_listen lfd
  unfolding passive_loop
  passive_loop-IsBound do_listen zero t lfd rp next last e = ground arith
  passive_loop-IsBound do_listen (suc fuel) t lfd none next none e =
      unfold without_address in ground arith
  passive_loop-IsBound do_listen (suc fuel) t lfd none next (some l) e =
      unfold without_address in ground arith
  passive_loop-IsBound do_listen (suc fuel) t lfd (some a) next last e =
      elim (Option-cases (socket t a)) [
        | inl no_socket ↦
            passive_loop-IsBound do_listen fuel (suc t) lfd next next none
              (ground (arith, no_socket))
        | inr (l, made) ↦ elim (Bool-cases (do_listen && not (reuses t a))) [
          | inl fails ↦ ground (arith, made, fails)
          | inr goes ↦ elim (Bool-cases (binds t a)) [
            | inr not_bound ↦
                passive_loop-IsBound do_listen fuel (suc t) lfd next next (some l)
                  (ground (arith, made, goes, not_bound))
            | inl bound ↦
                let kept : l ≡ lfd = ground (arith, made, goes, bound) in
                record {
                  pass = t;
                  address = a;
                  made = made ∙ ap some kept;
                  bound = bound;
                  listening = λ yes_listen. ground (arith, made, goes, bound, yes_listen);
                }
          ]
        ]
      ]

  -- A descriptor that inetListen returns is that of a pass whose socket was made, reused, bound and
  -- listened on.
  pub inet_listen-IsBound :
      (fuel lfd : ℕ) (addrs : Option (List A))
      → inet_listen socket reuses binds listens fuel addrs ≡ opened lfd
      → IsBound true lfd
  unfolding inet_listen inet_passive_socket
  inet_listen-IsBound fuel lfd none e = ground arith
  inet_listen-IsBound fuel lfd (some []) e = ground arith
  inet_listen-IsBound fuel lfd (some (a ∷ rest)) e =
      passive_loop-IsBound true fuel 0 lfd (some a) (second (a ∷ rest)) none e

  -- When the only address cannot be bound, inetBind returns the descriptor that it has closed.
  pub inet_bind_closed :
      (fuel lfd : ℕ) (a : A)
      → 2 ≤ fuel
      → socket 0 a ≡ some lfd
      → binds 0 a ≡ false
      → inet_bind socket reuses binds listens fuel (some (a ∷ [])) ≡ closed lfd
  unfolding inet_bind inet_passive_socket passive_loop second without_address
  inet_bind_closed zero lfd a f made unbound = absurd (omega arith)
  inet_bind_closed (suc zero) lfd a f made unbound = absurd (omega arith)
  inet_bind_closed (suc (suc fuel)) lfd a f made unbound = ground (arith, made, unbound)
