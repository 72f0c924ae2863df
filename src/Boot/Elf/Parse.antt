-- ===== src/Boot/Elf/Parse.antt =====
-- The parser of crates/nova-boot/src/elf.rs on headers that its bounds let pass.
use nova_vm.Common.{
  ℕ, zero, suc, ◌+◌, ◌*◌, ◌^◌, ◌≤◌, ◌<◌, ◌≡◌, false, List, ok, err, ltb, length, slice, arith,
  ge→ltb,
}
use nova_vm.Common.Bytes.{from_le}
use nova_vm.Boot.Error.{Fault, panicked, read_at}
use nova_vm.Boot.Elf.{wrap, read_segments, parse}

-- The number of `k` bytes at an offset.
abbrev pub at : List ℕ → ℕ → ℕ → ℕ
at image offset k = from_le (slice image offset k)

read_at-inside :
    (image : List ℕ) (offset k : ℕ)
    → offset + k ≤ length image
    → read_at image offset k ≡ ok (at image offset k)
unfolding read_at
read_at-inside image offset k h = ground arith

read_at-outside :
    (image : List ℕ) (offset k : ℕ)
    → length image < offset + k
    → read_at image offset k ≡ err panicked
unfolding read_at
read_at-outside image offset k h = ground arith

-- An image that begins like a 64-bit executable.
pub record IsElf64 (image : List ℕ) : Type 0 where
  pub long : 64 ≤ length image
  pub magic : at image 0 4 ≡ 0x464C457F
  pub class_ : at image 4 1 ≡ 2
  pub type_ : at image 16 2 ≡ 2

abbrev pub ph_offset : List ℕ → ℕ
ph_offset image = at image 32 8

abbrev pub ph_entry_size : List ℕ → ℕ
ph_entry_size image = at image 54 2

abbrev pub ph_count : List ℕ → ℕ
ph_count image = at image 56 2

-- What follows the tests of the header.
parse-read_segments :
    (image : List ℕ) (f : Fault)
    → IsElf64 image
    → read_segments image (ph_offset image) (ph_entry_size image) (ph_count image) 0 ≡ err f
    → parse image ≡ err f
unfolding parse
parse-read_segments image f v h =
    let short = ge→ltb (length image) 64 v.long in
    rw short (
      rw (read_at-inside image 0 4 (omega (arith, v.long)), v.magic)
        (rw (read_at-inside image 4 1 (omega (arith, v.long)), v.class_)
          (rw (read_at-inside image 16 2 (omega (arith, v.long)), v.type_)
            (rw (read_at-inside image 24 8 (omega (arith, v.long))) (
              rw (read_at-inside image 32 8 (omega (arith, v.long))) (
                rw (read_at-inside image 54 2 (omega (arith, v.long)))
                  (rw (read_at-inside image 56 2 (omega (arith, v.long))) (rw h))))))))

first_panics :
    (image : List ℕ) (start size count : ℕ)
    → 0 < count
    → start < 2 ^ 64
    → length image < start + 4
    → wrap (start + size) ≤ length image
    → read_segments image start size count 0 ≡ err panicked
unfolding read_segments
first_panics image start size zero pos fits beyond wrapped = absurd (omega arith)
first_panics image start size (suc n) pos fits beyond wrapped =
    let here : wrap (start + 0 * size) ≡ start = omega arith in
    let passes : ltb (length image) (wrap (start + size)) ≡ false = ground arith in
    rw here (rw passes (rw (read_at-outside image start 4 beyond)))

-- The end of the first program header may wrap around: for any image with the header of a 64-bit
-- executable that names an offset so near the end of the address space that the sum passes the test,
-- parsing panics where it should report an error.
pub parse_panics :
    (image : List ℕ)
    → IsElf64 image
    → 0 < ph_count image
    → ph_offset image < 2 ^ 64
    → length image < ph_offset image + 4
    → wrap (ph_offset image + ph_entry_size image) ≤ length image
    → parse image ≡ err panicked
parse_panics image v some_header fits beyond wrapped = parse-read_segments image panicked v (
    first_panics image (ph_offset image) (ph_entry_size image) (ph_count image) some_header fits
      beyond wrapped)
