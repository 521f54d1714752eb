-- ===== src/Talk/Table.antt =====
-- The array `pCi` of talk_server.c and the three loops that search it.
use code_strudy.Prelude.{
  ℕ, zero, suc, true, false, Option, none, some, List, [], ◌∷◌, ◌++◌, ◌==◌, if◌then◌else◌, drop,
  replicate,
}
use code_strudy.CString.{Bytes, same_string}

abbrev pub client_name_len : ℕ
client_name_len = 48

abbrev pub client_num_max : ℕ
client_num_max = 1024

pub record ClientInfo : Type 0 where
  pub client_id : ℕ
  pub client_name : Bytes

abbrev pub Table : Type 0
Table = List ClientInfo

abbrev pub blank : ClientInfo
blank = record { client_id = 0; client_name = replicate client_name_len 0 }

-- for (i = 0; i < CLIENT_NUM_MAX; i++) if (pCi[i].clientId == 0) break;
unfoldable pub find_free : Table → ℕ
find_free [] = 0
find_free (c ∷ t) = if c.client_id == 0 then 0 else suc (find_free t)

-- The same loop with the test pCi[i].clientId == reg->clientId.
unfoldable pub find_id : ℕ → Table → ℕ
find_id k [] = 0
find_id k (c ∷ t) = if c.client_id == k then 0 else suc (find_id k t)

-- The same loop with the test strcmp(pCi[i].clientName, recv->targetName) == 0.
unfoldable pub find_name : Bytes → Table → Option ℕ
find_name name [] = some 0
find_name name (c ∷ t) = elim (same_string c.client_name name) [
  | none ↦ none
  | some true ↦ some 0
  | some false ↦ elim (find_name name t) [ none ↦ none | some i ↦ some (suc i) ]
]

-- memset(p, 0, n) on an array.
unfoldable pub zero_prefix : ℕ → Bytes → Bytes
zero_prefix n s = replicate n 0 ++ drop n s

-- sizeof(CLIENT_NAME_LEN) is the size of the constant 48, an `int`, and not of the name.
unfoldable pub clear_slot : ClientInfo → ClientInfo
unfolding zero_prefix
clear_slot c = record { client_id = 0; client_name = zero_prefix 4 c.client_name }

unfoldable pub clear_at : Table → ℕ → Table
unfolding clear_slot
clear_at [] i = []
clear_at (c ∷ t) zero = clear_slot c ∷ t
clear_at (c ∷ t) (suc i) = c ∷ clear_at t i

unfoldable pub id_at : Table → ℕ → ℕ
id_at [] i = 0
id_at (c ∷ t) zero = c.client_id
id_at (c ∷ t) (suc i) = id_at t i
