-- ===== src/Talk/Loop.antt =====
-- The main loop of talk_server.c: no array is left, and the count of clients.
use code_strudy.Prelude.{
  ℕ, zero, suc, ◌≡◌, refl, ap, subst, ◌∙◌, ◌≢◌, ◌↔◌, inl, inr, Bool, List, [], ◌∷◌, arith, ◌==◌,
  ==_iff, Bool-cases, length, length-replicate, All, pos, incr, decr, All-replicate,
}
use code_strudy.Talk.Table.{client_num_max, find_id, blank}
use code_strudy.Talk.Slots.{members, length-perm, clear_at-IsClean, length-clear_at, Slot}
use code_strudy.CString.{terminated, text}
use code_strudy.Talk.Directory.{
  IsValid, IsProper, IsProperRegister, IsProperTask, register_refines, delete_refines, talk_routes,
}
use code_strudy.Talk.Server.{
  RegisterMsg, TaskMsg, Server, Out, Outcome, running, exited, fault, register, delete, talk,
  mtype_register, mtype_delete, mtype_talk, Event, received, interrupted, receive_failed, stopped,
  step, prepend, serve, init,
}

-- A property of the server that goes on, and the absence of a fault.
abbrev pub Holds : (Server → Type 0) → Outcome → Type 0
Holds P (running s out) = P s
Holds P (exited out) = Unit
Holds P fault = ⊥

Holds-prepend :
    (P : Server → Type 0) (out : List Out) (o : Outcome) → Holds P o → Holds P (prepend out o)
unfolding prepend
Holds-prepend P out (running s more) h = h
Holds-prepend P out (exited more) h = tt
Holds-prepend P out fault h = h

delete-Holds : (s : Server) (reg : RegisterMsg) → IsValid s → Holds IsValid (delete s reg)
unfolding delete
delete-Holds s reg v = elim (Bool-cases (find_id reg.client_id s.table == client_num_max)) [
  | inl full ↦ rw full (record { full_length = v.full_length; clean = v.clean })
  | inr hit ↦ rw hit (record {
    full_length = length-clear_at s.table _ ∙ v.full_length;
    clean = clear_at-IsClean s.table _ v.clean;
  })
]

register-Holds :
    (s : Server) (reg : RegisterMsg)
    → IsProperRegister reg
    → IsValid s
    → Holds IsValid (register s reg)
register-Holds s reg m v = elim (register_refines s reg m v) [
  | inl (_, e) ↦ rw e tt
  | inr (t, _, e, r) ↦ rw e r.still_valid
]

talk-Holds :
    (s : Server) (recv : TaskMsg) (accepted : Bool)
    → IsProperTask recv
    → IsValid s
    → Holds IsValid (talk s recv accepted)
talk-Holds s recv accepted m v = rw (talk_routes s recv accepted m v) v

step-Holds : (s : Server) (e : Event) → IsProper e → IsValid s → Holds IsValid (step s e)
unfolding step
step-Holds s (received buf accepted) m v = elim (Bool-cases (buf.mtype == mtype_register)) [
  | inl r ↦ rw r (register-Holds s buf.as_register (m.0 ((==_iff _ _).0 r)) v)
  | inr nr ↦ elim (Bool-cases (buf.mtype == mtype_delete)) [
    | inl d ↦ rw (nr, d) (delete-Holds s buf.as_register v)
    | inr nd ↦ elim (Bool-cases (buf.mtype == mtype_talk)) [
      | inl t ↦ rw (nr, nd, t) (talk-Holds s buf.as_task accepted (m.1 ((==_iff _ _).0 t)) v)
      | inr nt ↦ rw (nr, nd, nt) v
    ]
  ]
]
step-Holds s interrupted m v = v
step-Holds s receive_failed m v = tt
step-Holds s stopped m v = tt

Holds-then :
    (o : Outcome) (k : Server → Outcome)
    → ((t : Server) → IsValid t → Holds IsValid (k t))
    → Holds IsValid o
    → Holds IsValid
        (elim o [ running t out ↦ prepend out (k t) | exited out ↦ exited out | fault ↦ fault ])
Holds-then (running t out) k ih h = Holds-prepend IsValid out (k t) (ih t h)
Holds-then (exited out) k ih h = tt
Holds-then fault k ih h = h

-- From a valid server and over proper messages, the loop never reads past an array, and if it is
-- still running the server is valid.
pub serve-IsValid :
    (es : List Event) (s : Server) → All IsProper es → IsValid s → Holds IsValid (serve s es)
unfolding serve
serve-IsValid [] s m v = v
serve-IsValid (e ∷ es) s m v =
    Holds-then (step s e) (λ t. serve t es) (λ t w. serve-IsValid es t m.1 w) (step-Holds s e m.0 v)

pub init-IsValid : IsValid init
unfolding init terminated text
init-IsValid = record {
  full_length = length-replicate client_num_max blank;
  clean = All-replicate Slot client_num_max blank (refl, λ _. refl);
}

-- The count that the server prints is the number of members.
abbrev pub IsCounted : Server → Type 0
IsCounted s = s.client_count ≡ pos (length (members s.table))

-- An accepted proper registration keeps clientCount the number of the members.
pub register-IsCounted :
    (s t : Server) (reg : RegisterMsg) (out : List Out)
    → IsProperRegister reg
    → IsValid s
    → IsCounted s
    → register s reg ≡ running t out
    → IsCounted t
unfolding incr
register-IsCounted s t reg out m v c e = elim (register_refines s reg m v) [
  | inl (full, gone) ↦ cc
  | inr (u, name, made, r) ↦
      let u_is_t : u ≡ t = cc in subst IsCounted u_is_t (ground (arith, length-perm r.one_more))
]

pos-ne-decr : (n : ℕ) → pos n ≢ decr (pos n)
unfolding decr
pos-ne-decr zero e = cc
pos-ne-decr (suc n) e = ground arith

not-IsCounted-decr :
    (s t : Server)
    → t ≡ record s { client_count = decr s.client_count }
    → IsCounted s
    → ¬ IsCounted t
not-IsCounted-decr s t same c counted =
    pos-ne-decr (length (members s.table))
      (cc (ap (λ (w : Server). w.client_count) same, ap (λ (w : Server). w.table) same))

-- After a deletion at a valid server whose clientCount was the number of the members, it still is
-- exactly when some member had the identifier.
pub delete_counts :
    (s t : Server) (reg : RegisterMsg) (out : List Out)
    → reg.client_id ≢ 0
    → IsValid s
    → IsCounted s
    → delete s reg ≡ running t out
    → IsCounted t ↔ (¬ All (λ c. c.client_id ≢ reg.client_id) s.table)
unfolding decr
delete_counts s t reg out h v c e = elim (delete_refines s reg h v) [
  | inl (absent, made) ↦
      let same : t ≡ record s { client_count = decr s.client_count } = cc in
      (λ counted. absurd (not-IsCounted-decr s t same c counted), λ there. absurd (there absent))
  | inr (u, made, r) ↦
      let u_is_t : u ≡ t = cc in
      (
        λ counted. r.was_there,
        λ there. subst IsCounted u_is_t (ground (arith, length-perm r.one_less)),
      )
]
