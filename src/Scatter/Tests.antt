-- ===== src/Scatter/Tests.antt =====
-- Transfers of several buffers, and the theorems at them.
use code_strudy.Prelude.{◌≡◌, refl, some, List, [], ◌∷◌, map, length}
use code_strudy.CString.{Bytes}
use code_strudy.Scatter.{Written, Filled, my_writev, my_readv, my_readv-my_writev}

abbrev buffers : List Bytes
buffers = (b'a' ∷ b'b' ∷ []) ∷ [] ∷ (b'c' ∷ []) ∷ []

my_readv-my_writev_example :
    (file : Bytes) × (my_writev (λ j b. some (length b)) (map some buffers) []
      ≡ Written.count 3 file)
    × (my_readv (λ j n. some n) (map (λ b. some (length b)) buffers) file
        ≡ Filled.count 3 buffers [])
my_readv-my_writev_example =
    my_readv-my_writev (λ j b. some (length b)) (λ j n. some n) buffers (λ j b. refl) (λ j n. refl)
