-- ===== src/Ftok/Tests.antt =====
-- A file on a device, and its key.
use code_strudy.Prelude.{◌-◌, ◌^◌, ◌≡◌, refl, ◌≢◌, ◌⊎◌, true, false, some}
use code_strudy.Ftok.Defs.{
  failed, shift_left, extend, calculate, compared, compare_keys, main, Status,
}
use code_strudy.Ftok.Equal.{ftok_key, fields_kept, main-compares}

abbrev file : Status
file = record { minor = 2; ino = 0x1234 }

-- Its inode's bit 15 is set.
abbrev far_file : Status
far_file = record { minor = 2; ino = 0x9234 }

same_key :
    main true (some file) (λ p. some 0x41021234) false (some 0x41)
    ≡ compared 0x41021234 0x41021234 true
unfolding main compare_keys calculate extend shift_left
same_key = refl

other_key :
    main true (some far_file) (λ p. some 0x41029234) false (some 0x41)
    ≡ compared 0x41029234 0xffff9234 false
unfolding main compare_keys calculate extend shift_left
other_key = refl

main-compares_example :
    ((ftok_key file 0x41 ≡ 2 ^ 32 - 1)
      × (main true (some file) (λ p. some (ftok_key file p)) false (some 0x41) ≡ failed))
    ⊎ ((ftok_key file 0x41 ≢ 2 ^ 32 - 1)
        × (main true (some file) (λ p. some (ftok_key file p)) false (some 0x41)
            ≡ compared (ftok_key file 0x41) (calculate 0x41 2 0x1234) (fields_kept 0x41 2 0x1234)))
main-compares_example = main-compares file (λ p. some (ftok_key file p)) 0x41 (λ p. refl)

-- A key of 32 ones is taken for an error.
all_ones :
    main true
      (some (record { minor = 0xff; ino = 0xffff }))
      (λ p. some 0xffffffff)
      false
      (some 0xff)
    ≡ failed
unfolding main compare_keys
all_ones = refl
