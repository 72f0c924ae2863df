-- ===== src/Runtime/Blobs.antt =====
-- crates/nova-runtime/src/image/blob_store.rs: the content-addressed blobs. SHA-256 in hexadecimal is
-- an argument; the files are a map from the hexadecimal name to the contents. `written` is what
-- writing and renaming the file returns, `flushed` what writing the index returns. The text of a
-- digest mismatch leaves out the two digests.
pub mod Digest
pub mod Verified
pub mod Reached
use Prim.Native.String.{slice, len}
use nova_vm.Common.{
  ℕ, zero, suc, ◌+◌, ◌-◌, ◌%◌, ◌^◌, Bool, true, false, ◌&&◌, Option, none, some, List, [], ◌∷◌,
  String, str_append, str_eq, starts_with, Result, ok, err, ◌==◌, ltb, if◌then◌else◌, StringMap,
  lookup, insert, remove, length,
}
use nova_vm.Runtime.Error.{RuntimeError, cache}

pub record BlobEntry : Type 0 where
  pub digest : String
  pub media_type : String
  pub size : ℕ
  pub ref_count : ℕ
  pub last_accessed : ℕ

pub record BlobStore : Type 0 where
  pub blobs : StringMap BlobEntry
  pub files : StringMap (List ℕ)

abbrev pub IoResult : Type 0
IoResult = Result RuntimeError (Unit {0})

abbrev pub Outcome : Type 0
Outcome = BlobStore × IoResult

unfoldable pub normalize_digest : String → String
normalize_digest digest =
    if starts_with digest "sha256:" then digest else str_append "sha256:" digest

unfoldable pub hex_from_digest : String → String
hex_from_digest digest =
    if starts_with digest "sha256:" then slice digest 7 (len digest) else digest

-- The name of the file in the directory `sha256`
unfoldable pub blob_path_for_key : String → Option String
blob_path_for_key key = let hex = hex_from_digest key in if str_eq hex "" then none else some hex

abbrev is_stored : Option (List ℕ) → Bool
is_stored none = false
is_stored (some bytes) = true

unfoldable pub contains : BlobStore → String → Bool
contains s digest =
    let key = normalize_digest digest in
    elim (lookup key s.blobs) [
      | none ↦ false
      | some e ↦ elim (blob_path_for_key key) [
        | none ↦ false
        | some path ↦ is_stored (lookup path s.files) && ltb 0 e.size
      ]
    ]

unfoldable pub blob_path : BlobStore → String → Option String
blob_path s digest =
    let key = normalize_digest digest in
    elim (lookup key s.blobs) [ none ↦ none | some e ↦ blob_path_for_key key ]

-- The file at its place, and its entry with one reference
abbrev pub store_blob : ℕ → BlobStore → String → String → String → List ℕ → BlobStore
store_blob now s key path media_type bytes = record {
  blobs =
      insert key
        (record {
          digest = key;
          media_type = media_type;
          size = length bytes;
          ref_count = 1;
          last_accessed = now;
        })
        s.blobs;
  files = insert path bytes s.files;
}

-- `BlobStore::insert`
unfoldable pub insert_bytes :
    (List ℕ → String) → IoResult → IoResult → ℕ → BlobStore → String → String → List ℕ → Outcome
insert_bytes sha256 written flushed now s digest media_type bytes =
    let key = normalize_digest digest in
    if str_eq (sha256 bytes) (hex_from_digest key)
    then elim (blob_path_for_key key) [
      | none ↦ (s, err (cache "invalid digest format"))
      | some path ↦ elim written [
        | err e ↦ (s, err e)
        | ok done ↦ (store_blob now s key path media_type bytes, flushed)
      ]
    ]
    else (s, err (cache "digest mismatch"))

-- `insert_file`: `moved` is the file's contents when reading its size and moving it succeeds.
unfoldable pub insert_file :
    IoResult → ℕ → BlobStore → String → String → Result RuntimeError (List ℕ) → Outcome
insert_file flushed now s digest media_type moved =
    let key = normalize_digest digest in
    elim (blob_path_for_key key) [
      | none ↦ (s, err (cache "invalid digest format"))
      | some path ↦ elim moved [
        | err e ↦ (s, err e)
        | ok bytes ↦ (store_blob now s key path media_type bytes, flushed)
      ]
    ]

abbrev pub not_found : String → RuntimeError
not_found key = cache (str_append "blob not found: " key)

unfoldable pub add_ref : IoResult → ℕ → BlobStore → String → Outcome
add_ref flushed now s digest =
    let key = normalize_digest digest in
    elim (lookup key s.blobs) [
      | none ↦ (s, err (not_found key))
      | some e ↦ (
        record s {
          blobs =
              insert key (record e { ref_count = (e.ref_count + 1) % 2 ^ 32; last_accessed = now })
                s.blobs;
        },
        flushed,
      )
    ]

-- The entry goes, and its file if the name is not empty.
abbrev pub delete_blob : BlobStore → String → BlobStore
delete_blob s key = record {
  blobs = remove key s.blobs;
  files = elim (blob_path_for_key key) [ none ↦ s.files | some path ↦ remove path s.files ];
}

unfoldable pub release_ref : IoResult → BlobStore → String → Bool → Outcome
release_ref flushed s digest remove_if_zero =
    let key = normalize_digest digest in
    elim (lookup key s.blobs) [
      | none ↦ (s, err (not_found key))
      | some e ↦
          let released = record s {
            blobs = insert key (record e { ref_count = e.ref_count - 1 }) s.blobs;
          } in
          (
            if remove_if_zero && (e.ref_count - 1) == 0 then delete_blob released key else released,
            flushed,
          )
    ]

-- `duration_since` fails when the last access is later than now.
unfoldable pub is_garbage : ℕ → ℕ → BlobEntry → Bool
is_garbage now max_age e = e.ref_count == 0 && ltb (e.last_accessed + max_age) now

unfoldable pub garbage_keys : ℕ → ℕ → StringMap BlobEntry → List String
garbage_keys now max_age [] = []
garbage_keys now max_age ((k, e) ∷ m) =
    let rest = garbage_keys now max_age m in if is_garbage now max_age e then k ∷ rest else rest

unfoldable pub delete_all : BlobStore → List String → BlobStore
delete_all s [] = s
delete_all s (k ∷ ks) = delete_all (delete_blob s k) ks

unfoldable pub gc : IoResult → ℕ → ℕ → BlobStore → BlobStore × Result RuntimeError ℕ
gc flushed now max_age s =
    let keys = garbage_keys now max_age s.blobs in
    let n = length keys in
    (delete_all s keys, if n == 0 then ok 0 else elim flushed [ ok done ↦ ok n | err e ↦ err e ])
