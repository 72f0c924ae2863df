-- ===== src/Boot/LongMode/Identity.antt =====
-- The page tables of crates/nova-boot/src/cpu_setup.rs map the first GiB to itself.
use nova_vm.Common.{
  ℕ, zero, suc, ◌+◌, ◌*◌, ◌/◌, ◌%◌, ◌^◌, ◌≤◌, ◌<◌, ◌≡◌, refl, sym, ap, ◌∙◌, ◌⊎◌, inl, inr, Bool,
  true, ok, err, Option, none, some, ◌==◌, ==_iff, ◌&&◌, not, if◌then◌else◌, arith, >>=-eq-ok,
  map_err-eq-ok, ok-injective,
}
use nova_vm.Common.Table.{every_below, every_below-at}
use native.Mathlib.Decide.{dec_lt}
use nova_vm.Mem.Memory.{Memory, write_uint, read_uint}
use nova_vm.Mem.Access.{read_uint-write_uint, read_uint-write_uint_ne}
use nova_vm.Boot.LongMode.{
  page_table_addr, pdpt_addr, pd_addr, table_entry, pd_entry, write_pd, setup_long_mode_page_tables,
}

load : Memory → ℕ → Option ℕ
load m a = elim (read_uint m a 8) [ ok v ↦ some v | err e ↦ none ]

-- Bit `k` of an entry, and the address in it of a table and of a page of 2 MiB (bits 12 to 51, 21 to 51).
abbrev bit : ℕ → ℕ → Bool
bit k e = e / 2 ^ k % 2 == 1

abbrev frame : ℕ → ℕ
frame e = e / 4096 % 2 ^ 40 * 4096

abbrev large_frame : ℕ → ℕ
large_frame e = e / 2 ^ 21 % 2 ^ 31 * 2 ^ 21

-- An entry for a table, present and writable, and one for a writable page of 2 MiB.
abbrev is_table : ℕ → Bool
is_table e = bit 0 e && (bit 1 e && not (bit 7 e))

abbrev is_large_page : ℕ → Bool
is_large_page e = bit 0 e && (bit 1 e && bit 7 e)

infixl 5 ◌>>?◌
abbrev ◌>>?◌ : Option ℕ → (ℕ → Option ℕ) → Option ℕ
some a >>? f = f a
none >>? f = none

-- The processor's walk of four-level tables from `cr3`, down to a page of 2 MiB: the physical address of
-- a virtual one that may be read and written.
unfoldable pub translate : Memory → ℕ → ℕ → Option ℕ
unfolding load
translate m cr3 v = load m (frame cr3 + v / 2 ^ 39 % 512 * 8) >>? λ pml4e.
    if not (is_table pml4e)
    then none
    else (load m (frame pml4e + v / 2 ^ 30 % 512 * 8) >>? λ pdpte.
        if not (is_table pdpte)
        then none
        else (load m (frame pdpte + v / 2 ^ 21 % 512 * 8) >>? λ pde.
            if is_large_page pde then some (large_frame pde + v % 2 ^ 21) else none))

pd_entry_lem : (i : ℕ) → i < 512 → pd_entry i ≡ i * 0x200000 + 131
unfolding pd_entry every_below
pd_entry_lem i h =
    (==_iff _ _).0 (every_below-at (λ i. pd_entry i == (i * 0x200000 + 131)) 512 h refl)

write_pd-step :
    (n i : ℕ) (m m' : Memory)
    → write_pd (suc n) i m ≡ ok m'
    → (m1 : Memory) × (write_uint m (pd_addr + i * 8) 8 (pd_entry i) ≡ ok m1)
      × (write_pd n (suc i) m1 ≡ ok m')
unfolding write_pd
write_pd-step n i m m' h =
    let (m1, first, rest) = >>=-eq-ok _ _ h in (m1, map_err-eq-ok _ _ first, rest)

-- The loop changes nothing apart from the entries that it writes.
write_pd-others :
    (n i : ℕ) (m m' : Memory) (b k : ℕ)
    → write_pd n i m ≡ ok m'
    → (b + k ≤ pd_addr + i * 8) ⊎ (pd_addr + (i + n) * 8 ≤ b)
    → read_uint m' b k ≡ read_uint m b k
unfolding write_pd
write_pd-others zero i m m' b k h apart = ap (λ x. read_uint x b k) (sym (ok-injective h))
write_pd-others (suc n) i m m' b k h apart =
    let (m1, first, rest) = write_pd-step n i m m' h in
    write_pd-others n (suc i) m1 m' b k rest (later apart)
    ∙ read_uint-write_uint_ne m (pd_addr + i * 8) 8 (pd_entry i) m1 b k first (now apart)
  where
    later :
        (b + k ≤ pd_addr + i * 8) ⊎ (pd_addr + (i + suc n) * 8 ≤ b)
        → (b + k ≤ pd_addr + suc i * 8) ⊎ (pd_addr + (suc i + n) * 8 ≤ b)
    later (inl a) = inl (omega arith)
    later (inr a) = inr (omega arith)

    now :
        (b + k ≤ pd_addr + i * 8) ⊎ (pd_addr + (i + suc n) * 8 ≤ b)
        → (b + k ≤ pd_addr + i * 8) ⊎ (pd_addr + i * 8 + 8 ≤ b)
    now (inl a) = inl a
    now (inr a) = inr (omega arith)

write_pd-read :
    (n i : ℕ) (m m' : Memory) (j : ℕ)
    → i + n ≤ 512
    → write_pd n i m ≡ ok m'
    → i ≤ j
    → j < i + n
    → read_uint m' (pd_addr + j * 8) 8 ≡ ok (pd_entry j)
write_pd-read zero i m m' j le h a b = absurd (omega arith)
write_pd-read (suc n) i m m' j le h a b =
    let (m1, first, rest) = write_pd-step n i m m' h in
    elim (dec_lt i j) [
      | yes lt ↦ write_pd-read n (suc i) m1 m' j (omega arith) rest lt (omega arith)
      | no ge ↦
          let same : j ≡ i = omega arith in
          rw same (
            write_pd-others n (suc i) m1 m' (pd_addr + i * 8) 8 rest (inl (omega arith))
            ∙ read_uint-write_uint m (pd_addr + i * 8) 8 (pd_entry i) m1
                (omega (arith, pd_entry_lem i (omega arith))) first)
    ]

-- The three levels as they lie in memory.
record Tables (m : Memory) : Type 0 where
  pml4_read : read_uint m page_table_addr 8 ≡ ok (pdpt_addr + 3)
  pdpt_read : read_uint m pdpt_addr 8 ≡ ok (pd_addr + 3)
  pd_read : (j : ℕ) → j < 512 → read_uint m (pd_addr + j * 8) 8 ≡ ok (j * 0x200000 + 131)

setup-Tables : (m m' : Memory) → setup_long_mode_page_tables m ≡ ok m' → Tables m'
unfolding setup_long_mode_page_tables table_entry
setup-Tables m m' h =
    let (m1, pml4, h1) = >>=-eq-ok _ _ h in
    let (m2, pdpt, h2) = >>=-eq-ok _ _ h1 in
    record {
      pml4_read =
          write_pd-others 512 0 m2 m' page_table_addr 8 h2 (inl (omega arith))
          ∙ read_uint-write_uint_ne m1 pdpt_addr 8 _ m2 page_table_addr 8 (map_err-eq-ok _ _ pdpt)
              (inl (omega arith))
          ∙ read_uint-write_uint m page_table_addr 8 _ m1 (omega arith) (map_err-eq-ok _ _ pml4);
      pdpt_read =
          write_pd-others 512 0 m2 m' pdpt_addr 8 h2 (inl (omega arith))
          ∙ read_uint-write_uint m1 pdpt_addr 8 _ m2 (omega arith) (map_err-eq-ok _ _ pdpt);
      pd_read = λ j lt.
          write_pd-read 512 0 m2 m' j (omega arith) h2 (omega arith) (omega arith)
          ∙ ap ok (pd_entry_lem j lt);
    }

-- The tables take the 12 KiB from 0x9000 on, and nothing below is changed.
pub page_tables-below :
    (m m' : Memory) (b k : ℕ)
    → setup_long_mode_page_tables m ≡ ok m'
    → b + k ≤ page_table_addr
    → read_uint m' b k ≡ read_uint m b k
unfolding setup_long_mode_page_tables
page_tables-below m m' b k h below =
    let (m1, pml4, h1) = >>=-eq-ok _ _ h in
    let (m2, pdpt, h2) = >>=-eq-ok _ _ h1 in
    write_pd-others 512 0 m2 m' b k h2 (inl (omega arith))
    ∙ read_uint-write_uint_ne m1 pdpt_addr 8 _ m2 b k (map_err-eq-ok _ _ pdpt) (inl (omega arith))
    ∙ read_uint-write_uint_ne m page_table_addr 8 _ m1 b k (map_err-eq-ok _ _ pml4) (inl below)

load_of_read : (m : Memory) (a b v : ℕ) → read_uint m b 8 ≡ ok v → a ≡ b → load m a ≡ some v
unfolding load
load_of_read m a b v h e = rw e (rw (h, load))

large_page : (j : ℕ) → is_large_page (j * 0x200000 + 131) ≡ true
large_page j = ground arith

-- With the tables that are set up and their root in CR3, each address below 1 GiB stands for itself, and
-- may be written.
pub translate-identity :
    (m m' : Memory) (v : ℕ)
    → setup_long_mode_page_tables m ≡ ok m'
    → v < 2 ^ 30
    → translate m' page_table_addr v ≡ some v
unfolding translate
translate-identity m m' v h below =
    let t = setup-Tables m m' h in
    let j = v / 2 ^ 21 in
    let pml4 =
      load_of_read m' (page_table_addr + v / 2 ^ 39 % 512 * 8) _ _ t.pml4_read (omega arith) in
    let pdpt = load_of_read m' (pdpt_addr + v / 2 ^ 30 % 512 * 8) _ _ t.pdpt_read (omega arith) in
    let pd =
      load_of_read m' (pd_addr + v / 2 ^ 21 % 512 * 8) _ _ (t.pd_read j (omega arith))
        (omega arith) in
    rw pml4 (
      rw pdpt (
        rw pd (
          rw (large_page j)
            (ap some {x = large_frame (j * 0x200000 + 131) + v % 2 ^ 21} (omega arith)))))
