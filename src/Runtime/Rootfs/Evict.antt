-- ===== src/Runtime/Rootfs/Evict.antt =====
-- Eviction brings the cache under its limit.
use nova_vm.Common.{
  ℕ, ◌+◌, ◌-◌, ◌≤◌, ◌≡◌, refl, ap, false, none, some, List, [], ◌∷◌, String, str_eq, eq_iff, leb,
  StringMap, lookup, remove, lookup-remove, arith, Bool-cases, inl, inr, ◌⊎◌, subst, ok,
}
use nova_vm.Runtime.Rootfs.{
  RootfsCacheEntry, RootfsCache, values, sum_sizes, total_size, insert_by_use, sort_by_use,
  evict_each, evict, FlushResult,
}

abbrev pub Entries : Type 0
Entries = StringMap RootfsCacheEntry

-- Each entry is stored once, under its own digest.
abbrev pub IsIndexed : Entries → Type 0
IsIndexed [] = Unit {0}
IsIndexed ((k, e) ∷ m) = (k ≡ e.manifest_digest) × (lookup k m ≡ none) × IsIndexed m

-- No entry of the list has this digest.
abbrev Fresh : String → List RootfsCacheEntry → Type 0
Fresh k [] = Unit {0}
Fresh k (e ∷ es) = (str_eq e.manifest_digest k ≡ false) × Fresh k es

-- The list holds different entries of the index.
abbrev Listed : List RootfsCacheEntry → Entries → Type 0
Listed [] m = Unit {0}
Listed (e ∷ es) m = (lookup e.manifest_digest m ≡ some e) × Fresh e.manifest_digest es × Listed es m

remove_absent : (k : String) (m : Entries) → lookup k m ≡ none → remove k m ≡ m
unfolding lookup remove
remove_absent k [] h = refl
remove_absent k ((j, e) ∷ m) h = elim (Bool-cases (str_eq j k)) [
  | inl same ↦ absurd (ground arith)
  | inr differ ↦ rw (differ, remove) (ap (λ r. (j, e) ∷ r) (remove_absent k m (ground arith)))
]

sum_sizes-remove :
    (k : String) (m : Entries) (e : RootfsCacheEntry)
    → IsIndexed m
    → lookup k m ≡ some e
    → sum_sizes (values (remove k m)) + e.size_bytes ≡ sum_sizes (values m)
unfolding lookup remove
sum_sizes-remove k [] e i h = absurd (ground arith)
sum_sizes-remove k ((j, x) ∷ m) e i h = elim (Bool-cases (str_eq j k)) [
  | inl same ↦
      let gone : lookup k m ≡ none = ground (arith, eq_iff j k) in
      ground (arith, ap (λ r. sum_sizes (values r)) (remove_absent k m gone))
  | inr differ ↦ ground (arith, sum_sizes-remove k m e i.2 (ground arith))
]

pub remove-IsIndexed : (k : String) (m : Entries) → IsIndexed m → IsIndexed (remove k m)
unfolding remove
remove-IsIndexed k [] i = tt
remove-IsIndexed k ((j, x) ∷ m) i = elim (Bool-cases (str_eq j k)) [
  | inl same ↦ rw (same, remove) (remove-IsIndexed k m i.2)
  | inr differ ↦
      rw (differ, remove) (i.0, ground (arith, lookup-remove k j m), remove-IsIndexed k m i.2)
]

remove-Listed :
    (k : String) (es : List RootfsCacheEntry) (m : Entries)
    → Fresh k es
    → Listed es m
    → Listed es (remove k m)
remove-Listed k [] m f l = tt
remove-Listed k (e ∷ es) m f l = (
  ground (
    arith,
    lookup-remove k e.manifest_digest m,
    eq_iff e.manifest_digest k,
    eq_iff k e.manifest_digest,
  ),
  l.1,
  remove-Listed k es m f.1 l.2,
)

str_eq-swap : (a b : String) → str_eq a b ≡ false → str_eq b a ≡ false
str_eq-swap a b h = ground (arith, eq_iff a b, eq_iff b a)

insert-Fresh :
    (k : String) (e : RootfsCacheEntry) (es : List RootfsCacheEntry)
    → str_eq e.manifest_digest k ≡ false
    → Fresh k es
    → Fresh k (insert_by_use e es)
unfolding insert_by_use
insert-Fresh k e [] h f = (h, tt)
insert-Fresh k e (x ∷ xs) h f = elim (Bool-cases (leb e.use_count x.use_count)) [
  | inl le ↦ rw (le, insert_by_use) (h, f)
  | inr gt ↦ rw (gt, insert_by_use) (f.0, insert-Fresh k e xs h f.1)
]

insert-Listed :
    (e : RootfsCacheEntry) (es : List RootfsCacheEntry) (m : Entries)
    → Listed (e ∷ es) m
    → Listed (insert_by_use e es) m
unfolding insert_by_use
insert-Listed e [] m l = l
insert-Listed e (x ∷ xs) m l = elim (Bool-cases (leb e.use_count x.use_count)) [
  | inl le ↦ rw (le, insert_by_use) l
  | inr gt ↦
      rw (gt, insert_by_use)
        (
          l.2.0,
          insert-Fresh x.manifest_digest e xs
              (str_eq-swap x.manifest_digest e.manifest_digest l.1.0) l.2.1,
          insert-Listed e xs m (l.0, l.1.1, l.2.2),
        )
]

sort-Fresh : (k : String) (es : List RootfsCacheEntry) → Fresh k es → Fresh k (sort_by_use es)
unfolding sort_by_use
sort-Fresh k [] f = tt
sort-Fresh k (e ∷ es) f = insert-Fresh k e (sort_by_use es) f.0 (sort-Fresh k es f.1)

sort-Listed : (es : List RootfsCacheEntry) (m : Entries) → Listed es m → Listed (sort_by_use es) m
unfolding sort_by_use
sort-Listed [] m l = tt
sort-Listed (e ∷ es) m l =
    insert-Listed e (sort_by_use es) m
      (l.0, sort-Fresh e.manifest_digest es l.1, sort-Listed es m l.2)

sum_sizes-insert :
    (e : RootfsCacheEntry) (es : List RootfsCacheEntry)
    → sum_sizes (insert_by_use e es) ≡ e.size_bytes + sum_sizes es
unfolding insert_by_use
sum_sizes-insert e [] = refl
sum_sizes-insert e (x ∷ xs) = ground (arith, sum_sizes-insert e xs)

sum_sizes-sort : (es : List RootfsCacheEntry) → sum_sizes (sort_by_use es) ≡ sum_sizes es
unfolding sort_by_use
sum_sizes-sort [] = refl
sum_sizes-sort (e ∷ es) = omega (arith, sum_sizes-insert e (sort_by_use es), sum_sizes-sort es)

differs_from :
    (j k : String) (e : RootfsCacheEntry) (m : Entries)
    → j ≡ e.manifest_digest
    → lookup k ((j, e) ∷ m) ≡ none
    → str_eq e.manifest_digest k ≡ false
unfolding lookup
differs_from j k e m d h = elim (Bool-cases (str_eq j k)) [
  | inl same ↦ absurd (ground arith)
  | inr differ ↦ subst (λ x. str_eq x k ≡ false) d differ
]

total_sorted : (c : RootfsCache) → sum_sizes (sort_by_use (values c.entries)) ≡ total_size c
unfolding total_size
total_sorted c = sum_sizes-sort (values c.entries)

values-Fresh : (k : String) (m : Entries) → IsIndexed m → lookup k m ≡ none → Fresh k (values m)
unfolding lookup
values-Fresh k [] i h = tt
values-Fresh k ((j, e) ∷ m) i h = (differs_from j k e m i.0 h, values-Fresh k m i.2 (ground arith))

cons-Listed :
    (k : String) (x : RootfsCacheEntry) (es : List RootfsCacheEntry) (m : Entries)
    → Fresh k es
    → Listed es m
    → Listed es ((k, x) ∷ m)
unfolding lookup
cons-Listed k x [] m f l = tt
cons-Listed k x (e ∷ es) m f l =
    (ground (arith, str_eq-swap e.manifest_digest k f.0), l.1, cons-Listed k x es m f.1 l.2)

values-Listed : (m : Entries) → IsIndexed m → Listed (values m) m
unfolding lookup
values-Listed [] i = tt
values-Listed ((k, e) ∷ m) i =
    let free = values-Fresh k m i.2 i.1 in
    (
      ground (arith, eq_iff k e.manifest_digest),
      subst (λ d. Fresh d (values m)) i.0 free,
      cons-Listed k e (values m) m free (values-Listed m i.2),
    )

evict_each-total :
    (es : List RootfsCacheEntry) (c : RootfsCache) (max_total evicted current : ℕ)
    → IsIndexed c.entries
    → Listed es c.entries
    → sum_sizes es ≡ current
    → total_size c ≡ current
    → total_size (evict_each es c max_total evicted current).0 ≤ max_total
unfolding evict_each total_size
evict_each-total [] c max_total evicted current i l s t = omega arith
evict_each-total (e ∷ es) c max_total evicted current i l s t =
    let removed : RootfsCache = record {
      entries = remove e.manifest_digest c.entries;
      files = remove e.rootfs_filename c.files;
    } in
    let less = sum_sizes-remove e.manifest_digest c.entries e i l.0 in
    elim (Bool-cases (leb current max_total)) [
      | inl fits ↦ rw (fits, evict_each) (ground arith)
      | inr over ↦
          rw (over, evict_each)
            (evict_each-total es removed max_total (evicted + 1) (current - e.size_bytes)
              (remove-IsIndexed e.manifest_digest c.entries i)
              (remove-Listed e.manifest_digest es c.entries l.1 l.2) (omega arith) (omega arith))
    ]

-- After eviction the cached files together are within the limit, whatever it is; a cache that was
-- within it loses nothing.
pub total_size-evict :
    (flushed : FlushResult) (c : RootfsCache) (max_total : ℕ)
    → IsIndexed c.entries
    → let (c', r) = evict flushed c max_total in
      (total_size c' ≤ max_total)
      × ((leb (total_size c) max_total ≡ false) ⊎ ((c' ≡ c) × (r ≡ ok 0)))
unfolding evict
total_size-evict flushed c max_total i = elim (Bool-cases (leb (total_size c) max_total)) [
  | inl fits ↦ rw (fits, evict) (ground arith, inr (refl, refl))
  | inr over ↦
      rw (over, evict)
        (
          evict_each-total (sort_by_use (values c.entries)) c max_total 0 (total_size c) i
              (sort-Listed (values c.entries) c.entries (values-Listed c.entries i))
              (total_sorted c) refl,
          inl refl,
        )
]
