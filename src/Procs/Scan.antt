-- ===== src/Procs/Scan.antt =====
-- The loop of practice/12.1/main.c over the entries of /proc.
use code_strudy.Prelude.{ℕ, List, [], ◌∷◌, take, replicate}
use code_strudy.CString.{Bytes}
use code_strudy.Transfer.Chunks.{overlay}
use code_strudy.Procs.Status.{fault, nothing, entry, show_status}

abbrev pub file_size : ℕ
file_size = 1024

-- What `open` and `read` find for an entry: no file, no byte, an error, or a file of some bytes.
pub data Entry : Type 0 where
  closed empty unreadable : Entry
  holds : Bytes → Entry

pub record Process : Type 0 where
  pub name : Bytes
  pub pid : Bytes

-- What has been shown, and how the loop ended: at the last entry, at one that it takes again and
-- again, or by a fault.
pub data Scan : Type 0 where
  finished looping crashed : List Process → Scan

unfoldable pub also : Process → Scan → Scan
also p (finished ps) = finished (p ∷ ps)
also p (looping ps) = looping (p ∷ ps)
also p (crashed ps) = crashed (p ∷ ps)

-- A read takes 1024 bytes at most. The array is cleared behind an entry. `continue` comes before the next readdir.
unfoldable pub scan : (Bytes → ℕ) → ℕ → Bytes → List Entry → Scan
unfolding show_status also
scan atol uid file [] = finished []
scan atol uid file (closed ∷ es) = scan atol uid file es
scan atol uid file (empty ∷ es) = looping []
scan atol uid file (unreadable ∷ es) =
    let rest = scan atol uid (replicate file_size 0) es in
    elim (show_status atol uid file) [
      | fault ↦ crashed []
      | nothing ↦ rest
      | entry name pid ↦ also (record { name = name; pid = pid }) rest
    ]
scan atol uid file (holds bytes ∷ es) =
    let rest = scan atol uid (replicate file_size 0) es in
    elim (show_status atol uid (overlay (take file_size bytes) file)) [
      | fault ↦ crashed []
      | nothing ↦ rest
      | entry name pid ↦ also (record { name = name; pid = pid }) rest
    ]
