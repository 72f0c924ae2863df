-- ===== src/Mem/Dirty.antt =====
-- crates/nova-mem/src/dirty.rs: which pages a dirty bitmap names.
use Prim.Native.Nat.{bit_and-bitwise}
use native.Mathlib.Decide.{ℕ_discrete, dec_lt}
use nova_vm.Common.{
  ℕ, zero, suc, ◌+◌, ◌-◌, ◌*◌, ◌/◌, ◌%◌, ◌^◌, ◌≤◌, ◌<◌, ◌≡◌, refl, ap, ◌∙◌, Bool, false, not, ◌&&◌,
  ◌||◌, none, some, List, [], ◌∷◌, ◌++◌, get_elem?, arith, leb, ltb, ◌==◌, if◌then◌else◌, bit_and,
  map,
}

abbrev pub page_size : ℕ
page_size = 4096

-- `usize::div_ceil`
abbrev pub div_ceil : ℕ → ℕ → ℕ
div_ceil n d = (n + d - 1) / d

-- `DirtyLogTracker::new`: the pages of each slot.
unfoldable pub pages_per_slot : List ℕ → List ℕ
pages_per_slot slot_sizes = map (λ n. div_ceil n page_size) slot_sizes

-- `get_dirty_log` up to its ioctl: the words of the bitmap of a slot of so many pages.
unfoldable pub bitmap_len : ℕ → ℕ
bitmap_len num_pages = div_ceil num_pages 64

-- `word & (1 << bit) != 0`
unfoldable pub bit_set : ℕ → ℕ → Bool
bit_set word bit = not (bit_and word (2 ^ bit) == 0)

-- The inner loop over the bits of a word, with `left` bits to go; `start` is `i * 64`.
unfoldable pub word_pages : ℕ → ℕ → ℕ → ℕ → List ℕ
word_pages start word bit zero = []
word_pages start word bit (suc left) =
    let rest = word_pages start word (suc bit) left in
    if bit_set word bit then (start + bit) ∷ rest else rest

-- The loop over the words of the bitmap, at word `i`.
unfoldable pub pages_from : ℕ → List ℕ → List ℕ
pages_from i [] = []
pages_from i (word ∷ ws) =
    let rest = pages_from (suc i) ws in
    if word == 0 then rest else word_pages (i * 64) word 0 64 ++ rest

unfoldable pub dirty_pages : List ℕ → List ℕ
unfolding pages_from word_pages
dirty_pages bitmap = pages_from 0 bitmap

abbrev pub contains : ℕ → List ℕ → Bool
contains p [] = false
contains p (q ∷ qs) = p == q || contains p qs

-- Whether the bitmap has the bit of page `p`.
abbrev pub is_dirty : List ℕ → ℕ → Bool
is_dirty bitmap p = elim (get_elem? bitmap (p / 64)) [
  | none ↦ false
  | some word ↦ bit_set word (p % 64)
]

contains-append :
    (p : ℕ) (xs ys : List ℕ) → contains p (xs ++ ys) ≡ (contains p xs || contains p ys)
contains-append p [] ys = refl
contains-append p (x ∷ xs) ys = ground (arith, contains-append p xs ys)

contains-word :
    (start word p bit left : ℕ)
    → contains p (word_pages start word bit left)
      ≡ (leb (start + bit) p && ltb p (start + bit + left) && bit_set word (p - start))
unfolding word_pages
contains-word start word p bit zero = ground arith
contains-word start word p bit (suc left) =
    let ih = contains-word start word p (suc bit) left in
    elim (ℕ_discrete p (start + bit)) [
      | yes e ↦
          let same : bit_set word (p - start) ≡ bit_set word bit =
            ap (bit_set word) (omega arith) in
          ground (arith, ih, same)
      | no ne ↦ ground (arith, ih)
    ]

zero-bit_and : (b : ℕ) → bit_and 0 b ≡ 0
zero-bit_and b = bit_and-bitwise 0 b

bit_set_zero : (b : ℕ) → bit_set 0 b ≡ false
unfolding bit_set
bit_set_zero b = rw (zero-bit_and (2 ^ b))

abbrev dirty_from : ℕ → List ℕ → ℕ → Bool
dirty_from i ws p =
    leb (i * 64) p
    && (elim (get_elem? ws (p / 64 - i)) [ none ↦ false | some word ↦ bit_set word (p % 64) ])

-- The pages of one word, in front of those of the words after it.
contains-block :
    (i word : ℕ) (rest : List ℕ) (p : ℕ)
    → contains p (if word == 0 then rest else word_pages (i * 64) word 0 64 ++ rest)
      ≡ (leb (i * 64) p && ltb p (i * 64 + 64) && bit_set word (p - i * 64) || contains p rest)
contains-block i word rest p =
    let block = contains-word (i * 64) word p 0 64 in
    let both = contains-append p (word_pages (i * 64) word 0 64) rest in
    elim (ℕ_discrete word 0) [
      | yes e ↦ rw e (ground (arith, bit_set_zero (p - i * 64)))
      | no ne ↦ ground (arith, block, both)
    ]

contains-from : (i : ℕ) (ws : List ℕ) (p : ℕ) → contains p (pages_from i ws) ≡ dirty_from i ws p
unfolding pages_from
contains-from i [] p = ground arith
contains-from i (word ∷ ws) p =
    let ih = contains-from (suc i) ws p in
    let block = contains-block i word (pages_from (suc i) ws) p in
    elim (dec_lt p (i * 64)) [
      | yes before ↦ ground (arith, ih, block)
      | no from ↦ elim (dec_lt p (i * 64 + 64)) [
        | yes inside ↦
            let first : p / 64 - i ≡ 0 = omega arith in
            let bit : p - i * 64 ≡ p % 64 = omega arith in
            rw first (rw (← bit) (ground (arith, ih, block)))
        | no after ↦
            let later : p / 64 - i ≡ suc (p / 64 - suc i) = omega arith in
            rw later (ground (arith, ih, block))
      ]
    ]

-- `dirty_pages` lists a page exactly when the bitmap has its bit: bit `p % 64` of word `p / 64`.
pub contains-dirty_pages :
    (bitmap : List ℕ) (p : ℕ) → contains p (dirty_pages bitmap) ≡ is_dirty bitmap p
unfolding dirty_pages
contains-dirty_pages bitmap p = contains-from 0 bitmap p ∙ ground arith

-- The pages of a slot cover its bytes, and its bitmap has a bit for each; neither has a page or a
-- word to spare.
pub slot-covered :
    (n : ℕ)
    → let pages = div_ceil n page_size in
      (n ≤ pages * page_size)
      × (pages * page_size < n + page_size)
      × (pages ≤ bitmap_len pages * 64)
      × (bitmap_len pages * 64 < pages + 64)
unfolding bitmap_len
slot-covered n = omega arith
