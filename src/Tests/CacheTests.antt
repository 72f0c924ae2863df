-- ===== src/Tests/CacheTests.antt =====
-- A cache of two root file systems, and a store of one blob under a hash that is constant.
use nova_vm.Common.{
  ℕ, ◌≤◌, ◌≡◌, refl, ◌⊎◌, true, false, List, [], ◌∷◌, String, ok, lookup, insert, leb, remove,
}
use nova_vm.Runtime.Rootfs.{
  RootfsCache, RootfsCacheEntry, evict, total_size, evict_each, sort_by_use, insert_by_use,
}
use nova_vm.Runtime.Rootfs.Evict.{IsIndexed, total_size-evict}
use nova_vm.Runtime.Blobs.{
  BlobStore, insert_bytes, normalize_digest, hex_from_digest, blob_path_for_key, contains,
}
use nova_vm.Runtime.Blobs.Reached.{Reach, Reach-AllVerified}
use nova_vm.Runtime.Blobs.Verified.{IsVerifiedIf}

abbrev entry : String → ℕ → ℕ → RootfsCacheEntry
entry digest size uses = record {
  manifest_digest = digest;
  image_ref = "alpine";
  rootfs_filename = digest;
  size_bytes = size;
  content_digest = "c";
  created_at = 0;
  use_count = uses;
}

abbrev two_images : RootfsCache
two_images = record {
  entries = ("a", entry "a" 3 5) ∷ ("b", entry "b" 2 1) ∷ [];
  files = ("a", 1 ∷ 2 ∷ 3 ∷ []) ∷ ("b", 4 ∷ 5 ∷ []) ∷ [];
}

-- The one that is used less goes.
evict_run : (evict (ok tt) two_images 4).0.entries ≡ ("a", entry "a" 3 5) ∷ []
unfolding evict evict_each sort_by_use insert_by_use total_size remove
evict_run = refl

two_images-IsIndexed : IsIndexed two_images.entries
unfolding lookup
two_images-IsIndexed = (refl, refl, (refl, refl, tt))

total_size-evict_example :
    let (c', r) = evict (ok tt) two_images 4 in
    (total_size c' ≤ 4)
    × ((leb (total_size two_images) 4 ≡ false) ⊎ ((c' ≡ two_images) × (r ≡ ok 0)))
total_size-evict_example = total_size-evict (ok tt) two_images 4 two_images-IsIndexed

abbrev constant_hash : List ℕ → String
constant_hash bytes = "ab"

abbrev empty_store : BlobStore
empty_store = record { blobs = []; files = [] }

abbrev one_blob : BlobStore
one_blob = (insert_bytes constant_hash (ok tt) (ok tt) 3 empty_store "ab" "tar" (1 ∷ 2 ∷ [])).0

one_blob_run : (contains one_blob "sha256:ab" ≡ true) × (contains one_blob "cd" ≡ false)
unfolding contains insert_bytes normalize_digest hex_from_digest blob_path_for_key lookup insert
one_blob_run = (refl, refl)

one_blob_reached : Reach constant_hash one_blob
one_blob_reached = Reach.inserts (ok tt) (ok tt) 3 empty_store "ab" "tar" (1 ∷ 2 ∷ []) Reach.opens

Reach-AllVerified_example :
    IsVerifiedIf constant_hash one_blob.files "sha256:ab" (lookup "sha256:ab" one_blob.blobs)
Reach-AllVerified_example = Reach-AllVerified constant_hash one_blob_reached "sha256:ab"
