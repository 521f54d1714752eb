-- ===== src/Talk/Session.antt =====
-- A client that registers and leaves again.
use code_strudy.Prelude.{
  ℕ, zero, suc, ◌<◌, ◌≡◌, refl, ap, subst, ◌∙◌, ◌≢◌, inl, inr, false, List, [], ◌∷◌, arith, ◌==◌,
  Bool-cases, length, set, All, ℤ, pos, negsuc, incr, decr,
}
use code_strudy.Talk.Table.{
  ClientInfo, Table, find_free, find_id, clear_at, clear_slot, client_num_max,
}
use code_strudy.Talk.Server.{RegisterMsg, Server, Out, running, register, delete, deleted}
use code_strudy.Talk.Slots.{members}
use code_strudy.Talk.Directory.{IsValid, IsProperRegister, register_refines, sole_client}

-- No slot has the identifier.
abbrev pub Absent : ℕ → Table → Type 0
Absent k = All (λ c. c.client_id ≢ k)

find_id-set_free :
    (t : Table) (c : ClientInfo)
    → c.client_id ≢ 0
    → Absent c.client_id t
    → find_free t < length t
    → find_id c.client_id (set t (find_free t) c) ≡ find_free t
unfolding find_id find_free
find_id-set_free [] c nz a lt = ground arith
find_id-set_free (d ∷ t) c nz a lt = elim (Bool-cases (d.client_id == 0)) [
  | inl z ↦ rw z (ground arith)
  | inr held ↦
      let ih = find_id-set_free t c nz a.1 (ground (arith, held)) in ground (arith, held, ih, a.0)
]

members-clear_set_free :
    (t : Table) (c : ClientInfo)
    → find_free t < length t
    → members (clear_at (set t (find_free t) c) (find_free t)) ≡ members t
unfolding clear_at find_free clear_slot
members-clear_set_free [] c lt = ground arith
members-clear_set_free (d ∷ t) c lt = elim (Bool-cases (d.client_id == 0)) [
  | inl z ↦ ground (arith, z)
  | inr held ↦
      let ih = members-clear_set_free t c (ground (arith, held)) in ground (arith, held, ih)
]

decr-incr : (n : ℤ) → decr (incr n) ≡ n
unfolding decr incr
decr-incr (pos n) = ground arith
decr-incr (negsuc zero) = refl
decr-incr (negsuc (suc n)) = ground arith

-- The state after a client has come and gone.
pub record IsRestored (s u : Server) : Type 0 where
  pub same_members : members u.table ≡ members s.table
  pub same_count : u.client_count ≡ s.client_count

-- When a proper registration by an identifier that no slot has is accepted at a valid server, the
-- deletion by that identifier that follows succeeds, prints the count from before, and leaves the
-- members, in their order, and the count as they were.
pub delete-register :
    (s t : Server) (reg gone : RegisterMsg) (out : List Out)
    → IsProperRegister reg
    → IsValid s
    → Absent reg.client_id s.table
    → gone.client_id ≡ reg.client_id
    → register s reg ≡ running t out
    → (u : Server) × (delete t gone ≡ running u (deleted reg.client_id s.client_count ∷ []))
      × IsRestored s u
unfolding delete
delete-register s t reg gone out m v absent same e = elim (register_refines s reg m v) [
  | inl (full, exits) ↦ cc
  | inr (t', name, made, r) ↦
      let is_t : t' ≡ t = cc in
      let c = sole_client reg name in
      let i = find_free s.table in
      let table_t : t.table ≡ set s.table i c =
        subst (λ x. x.table ≡ set s.table i c) is_t r.slot_written in
      let count_t : t.client_count ≡ incr s.client_count =
        subst (λ x. x.client_count ≡ incr s.client_count) is_t r.count_grown in
      let found : find_id gone.client_id t.table ≡ i =
        cc (find_id-set_free s.table c m.id_set absent r.room, table_t, same) in
      let count : decr t.client_count ≡ s.client_count =
        ap decr count_t ∙ decr-incr s.client_count in
      let free : (find_id gone.client_id t.table == client_num_max) ≡ false =
        ground (arith, found, r.room, v.full_length) in
      (
        record { table = clear_at t.table i; client_count = s.client_count },
        rw (free, found, count, same),
        record {
          same_members =
              ap (λ x. members (clear_at x i)) table_t ∙ members-clear_set_free s.table c r.room;
          same_count = refl;
        },
      )
]
