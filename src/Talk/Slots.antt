-- ===== src/Talk/Slots.antt =====
-- The searches stop at the first slot that fits, or at the end of the table; the writes keep its
-- length, and change the members of the table by one entry.
use mathlib.Core.List.Perm
use mathlib.Core.List.{Perm, Permᴰ}
use mathlib.Core.Logic.{∥∥₁_elim}
use native.Mathlib.Nat.{ℕ_set}
use code_strudy.Prelude.{
  ℕ, zero, suc, ◌≤◌, ◌<◌, ◌≡◌, refl, ap, ◌∙◌, ◌≢◌, inl, inr, true, false, Option, none, some, List,
  [], ◌∷◌, arith, ◌==◌, if◌then◌else◌, ==_false, Bool-cases, length, set, All,
}
use code_strudy.CString.{same_bytes, same_bytes_iff, Bytes, terminated, text, same_string-text}
use code_strudy.Talk.Table.{
  ClientInfo, Table, find_free, find_id, find_name, clear_slot, clear_at, id_at,
}

-- The entries that a client holds.
abbrev pub members : Table → List ClientInfo
members [] = []
members (c ∷ t) = if c.client_id == 0 then members t else c ∷ members t

pub find_free-le : (t : Table) → find_free t ≤ length t
unfolding find_free
find_free-le [] = omega arith
find_free-le (c ∷ t) = ground (arith, find_free-le t)

pub find_id-le : (k : ℕ) (t : Table) → find_id k t ≤ length t
unfolding find_id
find_id-le k [] = omega arith
find_id-le k (c ∷ t) = ground (arith, find_id-le k t)

pub length-clear_at : (t : Table) (i : ℕ) → length (clear_at t i) ≡ length t
unfolding clear_at
length-clear_at [] i = refl
length-clear_at (c ∷ t) zero = refl
length-clear_at (c ∷ t) (suc i) = ap suc (length-clear_at t i)

-- A slot that stays in front does not change how two tables' members differ.
members-cons :
    (x c : ClientInfo) (t u : Table)
    → Perm (members t) (c ∷ members u)
    → Perm (members (x ∷ t)) (c ∷ members (x ∷ u))
members-cons x c t u p = elim (Bool-cases (x.client_id == 0)) [
  | inl e ↦ rw e p
  | inr e ↦ rw e (Perm.trans (Perm.cons x p) (Perm.swap c x (members u)))
]

-- A free slot is filled: the members gain the new client, in whatever place.
pub members-set_free :
    (t : Table) (c : ClientInfo)
    → c.client_id ≢ 0
    → find_free t < length t
    → Perm (members (set t (find_free t) c)) (c ∷ members t)
unfolding find_free
members-set_free [] c h lt = absurd (omega arith)
members-set_free (x ∷ t) c h lt = elim (Bool-cases (x.client_id == 0)) [
  | inl e ↦ rw (e, ==_false c.client_id 0 h) (Perm.refl (c ∷ members t))
  | inr e ↦
      let p = members-cons x c (set t (find_free t) c) t (members-set_free t c h (ground arith)) in
      rw (e, e) (rw e at p)
]

-- The first entry of a registered client is cleared: the members lose that entry alone.
pub members-clear_at :
    (t : Table) (k : ℕ)
    → k ≢ 0
    → find_id k t < length t
    → (c : ClientInfo) × (c.client_id ≡ k)
      × Perm (members t) (c ∷ members (clear_at t (find_id k t)))
unfolding find_id clear_at
members-clear_at [] k h lt = absurd (omega arith)
members-clear_at (x ∷ t) k h lt = elim (Bool-cases (x.client_id == k)) [
  | inl e ↦
      let busy : (x.client_id == 0) ≡ false = ground arith in
      (x, ground arith, rw (e, busy) (Perm.refl (x ∷ members t)))
  | inr e ↦
      let (c, same, p) = members-clear_at t k h (ground arith) in
      (c, same, rw e (members-cons x c t (clear_at t (find_id k t)) p))
]

-- Every name is terminated, and a free slot has the empty name.
abbrev pub Slot : ClientInfo → Type 0
Slot c = (terminated c.client_name ≡ true) × (c.client_id ≡ 0 → text c.client_name ≡ [])

abbrev pub IsClean : Table → Type 0
IsClean = All Slot

pub set-IsClean : (t : Table) (i : ℕ) (c : ClientInfo) → IsClean t → Slot c → IsClean (set t i c)
set-IsClean [] i c v h = tt
set-IsClean (x ∷ t) zero c v h = (h, v.1)
set-IsClean (x ∷ t) (suc i) c v h = (v.0, set-IsClean t i c v.1 h)

-- Four zero bytes are enough to empty the name.
clear_slot-Slot : (c : ClientInfo) → Slot (clear_slot c)
unfolding clear_slot terminated text
clear_slot-Slot c = (refl, λ _. refl)

pub clear_at-IsClean : (t : Table) (i : ℕ) → IsClean t → IsClean (clear_at t i)
unfolding clear_at
clear_at-IsClean [] i v = tt
clear_at-IsClean (x ∷ t) zero v = (clear_slot-Slot x, v.1)
clear_at-IsClean (x ∷ t) (suc i) v = (v.0, clear_at-IsClean t i v.1)

-- The first of the members that has the name.
unfoldable pub recipient : Bytes → List ClientInfo → Option ℕ
recipient name [] = none
recipient name (c ∷ cs) =
    if same_bytes (text c.client_name) name then some c.client_id else recipient name cs

-- The search by name over the slots finds what the search over the members finds.
pub find_name-recipient :
    (name : Bytes) (t : Table)
    → IsClean t
    → terminated name ≡ true
    → text name ≢ []
    → (i : ℕ) × (find_name name t ≡ some i)
      × (i ≤ length t)
      × (recipient (text name) (members t) ≡ (if i == length t then none else some (id_at t i)))
unfolding find_name recipient id_at
find_name-recipient name [] v tn ne = (0, refl, omega arith, refl)
find_name-recipient name (x ∷ t) v tn ne =
    let (i, e, le, r) = find_name-recipient name t v.1 tn ne in
    elim (same_string-text x.client_name name v.0.0 tn) [
      | inl hit ↦ (
        0,
        rw (hit.0, find_name),
        omega arith,
        ground (arith, v.0.1, same_bytes_iff (text x.client_name) (text name)),
      )
      | inr miss ↦ (
        suc i,
        rw (miss.0, e, find_name),
        omega arith,
        ground (arith, v.0.1, same_bytes_iff (text x.client_name) (text name)),
      )
    ]

-- A new client whose name no other member has is the one that its name leads to.
pub recipient-set_free :
    (name : Bytes) (t : Table) (c : ClientInfo)
    → c.client_id ≢ 0
    → find_free t < length t
    → text c.client_name ≡ name
    → recipient name (members t) ≡ none
    → recipient name (members (set t (find_free t) c)) ≡ some c.client_id
unfolding find_free recipient
recipient-set_free name [] c h lt e r = absurd (omega arith)
recipient-set_free name (x ∷ t) c h lt e r = ground (
  arith,
  recipient-set_free name t c h,
  same_bytes_iff (text c.client_name) name,
  same_bytes_iff (text x.client_name) name,
)

pub find_id-absent : (k : ℕ) (t : Table) → find_id k t ≡ length t → All (λ c. c.client_id ≢ k) t
unfolding find_id
find_id-absent k [] e = tt
find_id-absent k (x ∷ t) e = ground (arith, find_id-absent k t)

pub find_id-present : (k : ℕ) (t : Table) → find_id k t < length t → ¬ All (λ c. c.client_id ≢ k) t
unfolding find_id
find_id-present k [] lt a = absurd (omega arith)
find_id-present k (x ∷ t) lt a = ground (arith, find_id-present k t, a.0, a.1)

pub length-members-full : (t : Table) → find_free t ≡ length t → length (members t) ≡ length t
unfolding find_free
length-members-full [] e = refl
length-members-full (x ∷ t) e = ground (arith, length-members-full t)

length-permᴰ {ℓ} : {A : Type ℓ} {xs ys : List A} → Permᴰ xs ys → length xs ≡ length ys
length-permᴰ Permᴰ.nil = refl
length-permᴰ (Permᴰ.cons e d) = ap suc (length-permᴰ d)
length-permᴰ (Permᴰ.swap e f) = refl
length-permᴰ (Permᴰ.trans d f) = length-permᴰ d ∙ length-permᴰ f

pub length-perm {ℓ} : {A : Type ℓ} {xs ys : List A} → Perm xs ys → length xs ≡ length ys
length-perm {xs} {ys} p = ∥∥₁_elim p (ℕ_set (length xs) (length ys)) length-permᴰ
