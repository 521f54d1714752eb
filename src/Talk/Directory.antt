-- ===== src/Talk/Directory.antt =====
-- The talk server as a directory of clients: what the handlers do to the members, whom a message
-- reaches, and that no array is left.
use mathlib.Core.List.{Perm}
use code_strudy.Prelude.{
  ℕ, ◌<◌, ◌≡◌, refl, sym, ap, subst, ◌∙◌, ◌≢◌, ◌⊎◌, inl, inr, Bool, true, Option, none, some, List,
  [], ◌∷◌, arith, ◌==◌, if◌then◌else◌, ==_iff, Bool-cases, length, set, length-set, All, incr, decr,
}
use code_strudy.CString.{Bytes, terminated, text, strncpy-terminated}
use code_strudy.Talk.Table.{
  ClientInfo, client_name_len, client_num_max, find_free, find_id, clear_at,
}
use code_strudy.Talk.Slots.{
  members, find_free-le, find_id-le, length-clear_at, length-members-full, find_id-absent,
  find_id-present, recipient-set_free, members-set_free, members-clear_at, IsClean, set-IsClean,
  clear_at-IsClean, recipient, find_name-recipient,
}
use code_strudy.Talk.Server.{
  mtype_register, mtype_talk, RegisterMsg, TaskMsg, Server, Out, registered, deleted, delete_failed,
  target_missing, talk_shown, sent, send_failed, running, exited, register, delete, talk, Event,
  received, interrupted, receive_failed, stopped,
}

pub record IsValid (s : Server) : Type 0 where
  pub full_length : length s.table ≡ client_num_max
  pub clean : IsClean s.table

-- What a client must send: terminated strings, a queue identifier that is not 0, and a target.
pub record IsProperRegister (reg : RegisterMsg) : Type 0 where
  pub name_len : length reg.client_name ≡ client_name_len
  pub name_ends : terminated reg.client_name ≡ true
  pub id_set : reg.client_id ≢ 0

pub record IsProperTask (recv : TaskMsg) : Type 0 where
  pub target_ends : terminated recv.target_name ≡ true
  pub target_set : text recv.target_name ≢ []
  pub msg_ends : terminated recv.msg ≡ true

abbrev pub IsProper : Event → Type 0
IsProper (received buf accepted) =
    (buf.mtype ≡ mtype_register → IsProperRegister buf.as_register)
    × (buf.mtype ≡ mtype_talk → IsProperTask buf.as_task)
IsProper interrupted = Unit
IsProper receive_failed = Unit
IsProper stopped = Unit

abbrev pub sole_client : RegisterMsg → Bytes → ClientInfo
sole_client reg name = record { client_id = reg.client_id; client_name = name }

-- The state after a registration that was accepted, under the copied name.
pub record IsRegistered (s : Server) (reg : RegisterMsg) (t : Server) (name : Bytes) : Type 0 where
  pub name_kept : text name ≡ text reg.client_name
  pub count_grown : t.client_count ≡ incr s.client_count
  pub room : find_free s.table < length s.table
  pub slot_written : t.table ≡ set s.table (find_free s.table) (sole_client reg name)
  pub one_more : Perm (members t.table) (sole_client reg name ∷ members s.table)
  pub still_valid : IsValid t

-- A table that is full ends the server; otherwise the slot's index and the new count are printed.
abbrev pub Registers : Server → RegisterMsg → Type 0
Registers s reg =
    ((length (members s.table) ≡ client_num_max) × (register s reg ≡ exited []))
    ⊎ ((t : Server) × (name : Bytes) × (register s reg
          ≡ running t
              (registered (incr s.client_count) (find_free s.table) reg.client_id (text name) ∷ []))
        × IsRegistered s reg t name)

-- A proper registration at a valid server either finds every slot held, and the server exits, or
-- fills the first free slot: the members gain the client under its name, the count grows by one,
-- the index of the slot and the new count are printed, and the server stays valid.
pub register_refines :
    (s : Server) (reg : RegisterMsg) → IsProperRegister reg → IsValid s → Registers s reg
unfolding register
register_refines s reg m v =
    let (name, copied, ends, same) =
      strncpy-terminated client_name_len reg.client_name m.name_len m.name_ends in
    elim (Bool-cases (find_free s.table == client_num_max)) [
      | inl full ↦
          let e = (==_iff (find_free s.table) client_num_max).0 full in
          inl (length-members-full s.table (e ∙ sym v.full_length) ∙ v.full_length, rw full)
      | inr free ↦
          let lt : find_free s.table < length s.table =
            ground (arith, find_free-le s.table, v.full_length) in
          inr (
            record {
              table = set s.table (find_free s.table) (sole_client reg name);
              client_count = incr s.client_count;
            },
            name,
            rw (free, copied, ends),
            record {
              name_kept = same;
              count_grown = refl;
              room = lt;
              slot_written = refl;
              one_more = members-set_free s.table (sole_client reg name) m.id_set lt;
              still_valid = record {
                full_length = length-set s.table _ _ ∙ v.full_length;
                clean = set-IsClean s.table _ _ v.clean (ends, λ z. absurd (m.id_set z));
              };
            },
          )
    ]

-- The state after a deletion that found the client.
pub record IsDeleted (s : Server) (k : ℕ) (t : Server) : Type 0 where
  pub entry : ClientInfo
  pub entry_id : entry.client_id ≡ k
  pub was_there : ¬ All (λ c. c.client_id ≢ k) s.table
  pub count_shrunk : t.client_count ≡ decr s.client_count
  pub one_less : Perm (members s.table) (entry ∷ members t.table)
  pub still_valid : IsValid t

-- Where no slot has the identifier the deletion is reported as failed.
abbrev pub Deletes : Server → RegisterMsg → Type 0
Deletes s reg =
    (All (λ c. c.client_id ≢ reg.client_id) s.table
      × (delete s reg
          ≡ running (record s { client_count = decr s.client_count })
              (delete_failed reg.client_id ∷ [])))
    ⊎ ((t : Server) × (delete s reg ≡ running t (deleted reg.client_id (decr s.client_count) ∷ []))
        × IsDeleted s reg.client_id t)

-- A deletion by an identifier other than 0 at a valid server takes one entry with it out of the
-- members, and the server stays valid; where no slot has it, the table stays as it was; the count
-- falls either way.
pub delete_refines :
    (s : Server) (reg : RegisterMsg) → reg.client_id ≢ 0 → IsValid s → Deletes s reg
unfolding delete
delete_refines s reg h v = elim (Bool-cases (find_id reg.client_id s.table == client_num_max)) [
  | inl full ↦
      let e = (==_iff (find_id reg.client_id s.table) client_num_max).0 full in
      inl (find_id-absent reg.client_id s.table (e ∙ sym v.full_length), rw full)
  | inr hit ↦
      let lt : find_id reg.client_id s.table < length s.table =
        ground (arith, find_id-le reg.client_id s.table, v.full_length) in
      let (c, same, p) = members-clear_at s.table reg.client_id h lt in
      inr (
        record {
          table = clear_at s.table (find_id reg.client_id s.table);
          client_count = decr s.client_count;
        },
        rw hit,
        record {
          entry = c;
          entry_id = same;
          was_there = find_id-present reg.client_id s.table lt;
          count_shrunk = refl;
          one_less = p;
          still_valid = record {
            full_length = length-clear_at s.table _ ∙ v.full_length;
            clean = clear_at-IsClean s.table _ v.clean;
          };
        },
      )
]

-- What the server prints and sends for a message to the client `to`, if there is one.
pub forward : TaskMsg → Bool → Option ℕ → List Out
forward recv accepted none = target_missing ∷ []
forward recv accepted (some to) =
    talk_shown (text recv.target_name) (text recv.msg)
    ∷ sent to recv
    ∷ (if accepted then [] else send_failed ∷ [])

-- At a valid server a proper message goes to the first member that has the target's name,
-- unchanged, and to nobody if no member has it; the table stays as it was.
pub talk_routes :
    (s : Server) (recv : TaskMsg) (accepted : Bool)
    → IsProperTask recv
    → IsValid s
    → talk s recv accepted
      ≡ running s (forward recv accepted (recipient (text recv.target_name) (members s.table)))
unfolding talk forward
talk_routes s recv accepted m v =
    let (i, e, le, r) =
      find_name-recipient recv.target_name s.table v.clean m.target_ends m.target_set in
    ground (arith, e, le, r, v.full_length, m.msg_ends)

-- A proper message to a name that was registered just before, and that no earlier member has, is
-- sent to the queue of the client that registered it.
pub talk-register :
    (s t : Server) (reg : RegisterMsg) (recv : TaskMsg) (accepted : Bool) (out : List Out)
    → IsProperRegister reg
    → IsProperTask recv
    → IsValid s
    → text recv.target_name ≡ text reg.client_name
    → recipient (text reg.client_name) (members s.table) ≡ none
    → register s reg ≡ running t out
    → talk t recv accepted ≡ running t (forward recv accepted (some reg.client_id))
talk-register s t reg recv accepted out mr mt v same fresh e = elim (register_refines s reg mr v) [
  | inl (full, gone) ↦ cc
  | inr (u, name, made, r) ↦
      let found : recipient (text recv.target_name) (members u.table) ≡ some reg.client_id =
        rw (same, r.slot_written)
          (recipient-set_free (text reg.client_name) s.table (sole_client reg name) mr.id_set r.room
            r.name_kept fresh) in
      let u_is_t : u ≡ t = cc in
      subst (λ w. talk w recv accepted ≡ running w (forward recv accepted (some reg.client_id)))
        u_is_t
        (talk_routes u recv accepted mt r.still_valid
          ∙ ap (λ o. running u (forward recv accepted o)) found)
]
