-- ===== src/Runtime/Rootfs.antt =====
-- crates/nova-runtime/src/image/rootfs_cache.rs: the index of prebuilt root file systems. Files are
-- a map from name to contents; `write_index` is what writing the index to the disk returns.
pub mod Evict
pub mod Index
use nova_vm.Common.{
  ℕ, ◌+◌, ◌-◌, ◌%◌, ◌^◌, Bool, true, false, Option, none, some, List, [], ◌∷◌, String, str_append,
  starts_with, Result, ok, err, ◌>>=◌, leb, if◌then◌else◌, StringMap, lookup, insert, remove,
  length,
}
use Prim.Native.String.{slice, len}
use nova_vm.Runtime.Error.{RuntimeError, cache, io}

pub record RootfsCacheEntry : Type 0 where
  pub manifest_digest : String
  pub image_ref : String
  pub rootfs_filename : String
  pub size_bytes : ℕ
  pub content_digest : String
  pub created_at : ℕ
  pub use_count : ℕ

-- The index and the files of the cache directory
pub record RootfsCache : Type 0 where
  pub entries : StringMap RootfsCacheEntry
  pub files : StringMap (List ℕ)

abbrev pub FlushResult : Type 0
FlushResult = Result RuntimeError (Unit {0})

abbrev pub wrap : ℕ → ℕ
wrap n = n % 2 ^ 64

-- The entries, without their keys
abbrev pub values : StringMap RootfsCacheEntry → List RootfsCacheEntry
values [] = []
values ((k, e) ∷ m) = e ∷ values m

abbrev pub sum_sizes : List RootfsCacheEntry → ℕ
sum_sizes [] = 0
sum_sizes (e ∷ es) = e.size_bytes + sum_sizes es

-- The sum of `u64`s is taken not to overflow: sizes of files on one disk.
unfoldable pub total_size : RootfsCache → ℕ
total_size c = sum_sizes (values c.entries)

unfoldable pub strip_sha256 : String → String
strip_sha256 digest = if starts_with digest "sha256:" then slice digest 7 (len digest) else digest

unfoldable pub filename_of : String → String
filename_of digest = str_append "rootfs_" (str_append (strip_sha256 digest) ".cpio")

-- `rootfs` is what copying the file from its path yields.
unfoldable pub insert_rootfs :
    FlushResult
    → ℕ
    → RootfsCache
    → String
    → String
    → Result RuntimeError (List ℕ)
    → String
    → RootfsCache × FlushResult
insert_rootfs flushed now c manifest_digest image_ref (err e) content_digest = (c, err e)
insert_rootfs flushed now c manifest_digest image_ref (ok rootfs) content_digest =
    let filename = filename_of manifest_digest in
    let entry : RootfsCacheEntry = record {
      manifest_digest = manifest_digest;
      image_ref = image_ref;
      rootfs_filename = filename;
      size_bytes = length rootfs;
      content_digest = content_digest;
      created_at = now;
      use_count = 0;
    } in
    (
      record {
        entries = insert manifest_digest entry c.entries;
        files = insert filename rootfs c.files;
      },
      flushed,
    )

-- The target file's contents, on success. The use is counted before the file is looked for; `written`
-- is what replacing the target and then writing the index return.
unfoldable pub clone_rootfs :
    FlushResult → RootfsCache → String → RootfsCache × Result RuntimeError (List ℕ)
clone_rootfs written c manifest_digest = elim (lookup manifest_digest c.entries) [
  | none ↦ (c, err (cache (str_append "rootfs not cached: " manifest_digest)))
  | some e ↦
      let used = record c {
        entries =
            insert manifest_digest (record e { use_count = wrap (e.use_count + 1) }) c.entries;
      } in
      elim (lookup e.rootfs_filename c.files) [
        | none ↦ (used, err (cache (str_append "cached rootfs file missing: " e.rootfs_filename)))
        | some bytes ↦ (used, written >>= λ done. ok bytes)
      ]
]

-- A stable sort by `use_count`
unfoldable pub insert_by_use : RootfsCacheEntry → List RootfsCacheEntry → List RootfsCacheEntry
insert_by_use e [] = e ∷ []
insert_by_use e (x ∷ xs) =
    let rest = insert_by_use e xs in if leb e.use_count x.use_count then e ∷ x ∷ xs else x ∷ rest

unfoldable pub sort_by_use : List RootfsCacheEntry → List RootfsCacheEntry
sort_by_use [] = []
sort_by_use (e ∷ es) = insert_by_use e (sort_by_use es)

-- `for entry in entries`, with the number evicted so far and the current total
unfoldable pub evict_each : List RootfsCacheEntry → RootfsCache → ℕ → ℕ → ℕ → RootfsCache × ℕ
evict_each [] c max_total evicted current = (c, evicted)
evict_each (e ∷ es) c max_total evicted current =
    let removed : RootfsCache = record {
      entries = remove e.manifest_digest c.entries;
      files = remove e.rootfs_filename c.files;
    } in
    let rest = evict_each es removed max_total (evicted + 1) (current - e.size_bytes) in
    if leb current max_total then (c, evicted) else rest

unfoldable pub evict : FlushResult → RootfsCache → ℕ → RootfsCache × Result RuntimeError ℕ
evict flushed c max_total =
    let total = total_size c in
    let (c', evicted) = evict_each (sort_by_use (values c.entries)) c max_total 0 total in
    if leb total max_total
    then (c, ok 0)
    else (c', (if leb evicted 0 then ok 0 else (flushed >>= λ done. ok evicted)))
