-- ===== src/Signals/Sender.antt =====
-- `main` of sig_sender.c behind its test of argc. `kill` says whether the call of kill for a signal
-- succeeds at a moment; the arguments are as atol reads them.
use code_strudy.Prelude.{
  ℕ, zero, suc, Bool, true, false, Option, none, some, List, [], ◌∷◌, ◌++◌, if◌then◌else◌,
}

-- The signals that were sent, and whether the program ends with success.
pub record Sending : Type 0 where
  pub kills : List ℕ
  pub success : Bool

module _ (kill : ℕ → ℕ → Bool) where
  -- for (n = 0; n < sigNum; n++): `left` turns from turn `n` on.
  unfoldable pub send_all : ℕ → ℕ → ℕ → Sending
  send_all zero n sig = record { kills = []; success = true }
  send_all (suc left) n sig =
      let rest = send_all left (suc n) sig in
      if kill n sig
      then record { kills = sig ∷ rest.kills; success = rest.success }
      else record { kills = []; success = false }

  -- `last` is argv[4], if it is there.
  unfoldable pub sender : ℕ → ℕ → Option ℕ → Sending
  unfolding send_all
  sender sig_num sig last =
      let first = send_all sig_num 0 sig in
      if first.success
      then elim last [
        | none ↦ first
        | some sig2 ↦
            if kill sig_num sig2
            then record { kills = first.kills ++ sig2 ∷ []; success = true }
            else record { kills = first.kills; success = false }
      ]
      else first
