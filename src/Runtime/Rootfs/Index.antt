-- ===== src/Runtime/Rootfs/Index.antt =====
-- Every operation of the cache keeps its index in order.
use nova_vm.Common.{
  ℕ, ◌+◌, ◌-◌, ◌≡◌, refl, some, List, [], ◌∷◌, String, str_eq, eq_iff, leb, lookup, insert, remove,
  lookup-insert, arith, Bool-cases, Option-cases, inl, inr, Result, ok, err,
}
use nova_vm.Runtime.Error.{RuntimeError}
use nova_vm.Runtime.Rootfs.{
  RootfsCacheEntry, RootfsCache, values, total_size, sort_by_use, evict_each, evict, insert_rootfs,
  clone_rootfs, FlushResult, wrap,
}
use nova_vm.Runtime.Rootfs.Evict.{IsIndexed, Entries, remove-IsIndexed}

insert-IsIndexed :
    (k : String) (e : RootfsCacheEntry) (m : Entries)
    → k ≡ e.manifest_digest
    → IsIndexed m
    → IsIndexed (insert k e m)
unfolding insert lookup
insert-IsIndexed k e [] d i = (d, refl, tt)
insert-IsIndexed k e ((j, x) ∷ m) d i = elim (Bool-cases (str_eq j k)) [
  | inl same ↦ rw (same, insert) (d, ground (arith, eq_iff j k, i.1), i.2)
  | inr differ ↦
      rw (differ, insert)
        (
          i.0,
          ground (arith, lookup-insert k j e m, eq_iff j k, eq_iff k j, i.1),
          insert-IsIndexed k e m d i.2,
        )
]

indexed_at :
    (k : String) (e : RootfsCacheEntry) (m : Entries)
    → IsIndexed m
    → lookup k m ≡ some e
    → k ≡ e.manifest_digest
unfolding lookup
indexed_at k e [] i h = absurd (ground arith)
indexed_at k e ((j, x) ∷ m) i h = elim (Bool-cases (str_eq j k)) [
  | inl same ↦ ground (arith, eq_iff j k, i.0)
  | inr differ ↦ indexed_at k e m i.2 (ground arith)
]

evict_each-IsIndexed :
    (es : List RootfsCacheEntry) (c : RootfsCache) (max_total evicted current : ℕ)
    → IsIndexed c.entries
    → IsIndexed (evict_each es c max_total evicted current).0.entries
unfolding evict_each
evict_each-IsIndexed [] c max_total evicted current i = i
evict_each-IsIndexed (e ∷ es) c max_total evicted current i =
    let removed : RootfsCache = record {
      entries = remove e.manifest_digest c.entries;
      files = remove e.rootfs_filename c.files;
    } in
    elim (Bool-cases (leb current max_total)) [
      | inl fits ↦ rw (fits, evict_each) i
      | inr over ↦
          rw (over, evict_each)
            (evict_each-IsIndexed es removed max_total (evicted + 1) (current - e.size_bytes)
              (remove-IsIndexed e.manifest_digest c.entries i))
    ]

insert_rootfs-IsIndexed :
    (flushed : FlushResult) (now : ℕ) (c : RootfsCache) (digest image_ref content_digest : String)
    (rootfs : Result RuntimeError (List ℕ))
    → IsIndexed c.entries
    → IsIndexed (insert_rootfs flushed now c digest image_ref rootfs content_digest).0.entries
unfolding insert_rootfs
insert_rootfs-IsIndexed flushed now c digest image_ref content_digest (err e) i = i
insert_rootfs-IsIndexed flushed now c digest image_ref content_digest (ok rootfs) i =
    insert-IsIndexed digest _ c.entries refl i

clone_rootfs-IsIndexed :
    (flushed : FlushResult) (c : RootfsCache) (digest : String)
    → IsIndexed c.entries
    → IsIndexed (clone_rootfs flushed c digest).0.entries
unfolding clone_rootfs
clone_rootfs-IsIndexed flushed c digest i = elim (Option-cases (lookup digest c.entries)) [
  | inl e ↦ rw (e, clone_rootfs) i
  | inr (x, e) ↦
      let used =
        insert-IsIndexed digest (record x { use_count = wrap (x.use_count + 1) }) c.entries
          (indexed_at digest x c.entries i e) i in
      elim (Option-cases (lookup x.rootfs_filename c.files)) [
        | inl f ↦ rw (e, clone_rootfs) (rw f used)
        | inr (bytes, f) ↦ rw (e, clone_rootfs) (rw f used)
      ]
]

evict-IsIndexed :
    (flushed : FlushResult) (c : RootfsCache) (max_total : ℕ)
    → IsIndexed c.entries
    → IsIndexed (evict flushed c max_total).0.entries
unfolding evict
evict-IsIndexed flushed c max_total i = elim (Bool-cases (leb (total_size c) max_total)) [
  | inl fits ↦ rw (fits, evict) i
  | inr over ↦
      rw (over, evict)
        (evict_each-IsIndexed (sort_by_use (values c.entries)) c max_total 0 (total_size c) i)
]

-- Insertion, cloning and eviction, failed ones included, keep each entry stored once and under its own
-- digest, which is what eviction relies on.
pub operations-IsIndexed :
    (flushed : FlushResult) (now : ℕ) (c : RootfsCache) (digest image_ref content_digest : String)
    (rootfs : Result RuntimeError (List ℕ)) (max_total : ℕ)
    → IsIndexed c.entries
    → IsIndexed (insert_rootfs flushed now c digest image_ref rootfs content_digest).0.entries
      × IsIndexed (clone_rootfs flushed c digest).0.entries
      × IsIndexed (evict flushed c max_total).0.entries
operations-IsIndexed flushed now c digest image_ref content_digest rootfs max_total i = (
  insert_rootfs-IsIndexed flushed now c digest image_ref content_digest rootfs i,
  clone_rootfs-IsIndexed flushed c digest i,
  evict-IsIndexed flushed c max_total i,
)
