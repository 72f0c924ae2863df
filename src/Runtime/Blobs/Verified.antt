-- ===== src/Runtime/Blobs/Verified.antt =====
-- What the index says of a blob is true of its file.
use nova_vm.Common.{
  ℕ, ◌+◌, ◌-◌, ◌%◌, ◌^◌, ◌≡◌, refl, ◌∙◌, inl, inr, subst, Bool, true, false, ◌&&◌, Option, none,
  some, List, String, str_eq, eq_iff, starts_with, ◌==◌, StringMap, lookup, insert, length,
  lookup-insert, lookup-remove, arith, Bool-cases, Option-cases, Result-cases,
}
use nova_vm.Runtime.Blobs.{
  BlobEntry, BlobStore, IoResult, normalize_digest, hex_from_digest, blob_path_for_key, store_blob,
  insert_bytes, add_ref, release_ref, delete_blob,
}
use nova_vm.Runtime.Blobs.Digest.{normalize_digest-prefix, hex_from_digest-inj}

abbrev new_entry : ℕ → String → String → List ℕ → BlobEntry
new_entry now key media_type bytes = record {
  digest = key;
  media_type = media_type;
  size = length bytes;
  ref_count = 1;
  last_accessed = now;
}

module _ (sha256 : List ℕ → String) where
  -- The key is in normal form, and its file has the digest that names it and the size of the entry.
  pub record IsVerified (files : StringMap (List ℕ)) (key : String) (e : BlobEntry) : Type 0 where
    pub normal : starts_with key "sha256:" ≡ true
    pub bytes : List ℕ
    pub stored : lookup (hex_from_digest key) files ≡ some bytes
    pub digest_right : sha256 bytes ≡ hex_from_digest key
    pub size_right : e.size ≡ length bytes

  abbrev pub IsVerifiedIf : StringMap (List ℕ) → String → Option BlobEntry → Type 0
  IsVerifiedIf files key none = Unit {0}
  IsVerifiedIf files key (some e) = IsVerified files key e

  abbrev pub AllVerified : BlobStore → Type 0
  AllVerified s = (key : String) → IsVerifiedIf s.files key (lookup key s.blobs)

  AllVerified-IsVerified :
      (s : BlobStore) (key : String) (e : BlobEntry)
      → AllVerified s
      → lookup key s.blobs ≡ some e
      → IsVerified s.files key e
  AllVerified-IsVerified s key e all h = subst (IsVerifiedIf s.files key) h (all key)

  -- Another entry under the same key, of the same size
  touch-AllVerified :
      (s : BlobStore) (key : String) (e e' : BlobEntry)
      → AllVerified s
      → lookup key s.blobs ≡ some e
      → e'.size ≡ e.size
      → AllVerified (record s { blobs = insert key e' s.blobs })
  touch-AllVerified s key e e' all h size j = elim (Bool-cases (str_eq key j)) [
    | inl same ↦
        let v = AllVerified-IsVerified s key e all h in
        let v' : IsVerified s.files key e' = record {
          normal = v.normal;
          bytes = v.bytes;
          stored = v.stored;
          digest_right = v.digest_right;
          size_right = size ∙ v.size_right;
        } in
        let renamed : key ≡ j = ground (arith, eq_iff key j) in
        rw (lookup-insert key j e' s.blobs, same) (subst (λ k. IsVerified s.files k e') renamed v')
    | inr differ ↦ rw (lookup-insert key j e' s.blobs, differ) (all j)
  ]

  -- The files of other keys do not change when the file of one does.
  other_file :
      (key j : String)
      → starts_with key "sha256:" ≡ true
      → starts_with j "sha256:" ≡ true
      → str_eq key j ≡ false
      → str_eq (hex_from_digest key) (hex_from_digest j) ≡ false
  other_file key j hk hj d = elim (Bool-cases (str_eq (hex_from_digest key) (hex_from_digest j))) [
    | inl same ↦
        let one : key ≡ j =
          hex_from_digest-inj key j hk hj
            ((eq_iff (hex_from_digest key) (hex_from_digest j)).0 same) in
        absurd (ground (arith, eq_iff key j))
    | inr differ ↦ differ
  ]

  keep-IsVerifiedIf :
      (files files' : StringMap (List ℕ)) (j : String) (m : Option BlobEntry)
      → (starts_with j "sha256:" ≡ true
          → lookup (hex_from_digest j) files' ≡ lookup (hex_from_digest j) files)
      → IsVerifiedIf files j m
      → IsVerifiedIf files' j m
  keep-IsVerifiedIf files files' j none h v = tt
  keep-IsVerifiedIf files files' j (some e) h v = record {
    normal = v.normal;
    bytes = v.bytes;
    stored = h v.normal ∙ v.stored;
    digest_right = v.digest_right;
    size_right = v.size_right;
  }

  pub delete_blob-AllVerified :
      (s : BlobStore) (key : String)
      → starts_with key "sha256:" ≡ true
      → AllVerified s
      → AllVerified (delete_blob s key)
  unfolding blob_path_for_key
  delete_blob-AllVerified s key hk all j = elim (Bool-cases (str_eq key j)) [
    | inl same ↦ rw (lookup-remove key j s.blobs, same) tt
    | inr differ ↦
        rw (lookup-remove key j s.blobs, differ)
          (keep-IsVerifiedIf s.files (delete_blob s key).files j (lookup j s.blobs)
            (λ hj. ground (
              arith,
              other_file key j hk hj differ,
              lookup-remove (hex_from_digest key) (hex_from_digest j) s.files,
            ))
            (all j))
  ]

  store_blob-AllVerified :
      (now : ℕ) (s : BlobStore) (key media_type : String) (bytes : List ℕ)
      → starts_with key "sha256:" ≡ true
      → sha256 bytes ≡ hex_from_digest key
      → AllVerified s
      → AllVerified (store_blob now s key (hex_from_digest key) media_type bytes)
  store_blob-AllVerified now s key media_type bytes hk right all j =
      elim (Bool-cases (str_eq key j)) [
        | inl same ↦
            let v : IsVerified (insert (hex_from_digest key) bytes s.files) key
                (new_entry now key media_type bytes) =
              record {
                normal = hk;
                bytes = bytes;
                stored = ground (
                  arith,
                  lookup-insert (hex_from_digest key) (hex_from_digest key) bytes s.files,
                  eq_iff (hex_from_digest key) (hex_from_digest key),
                );
                digest_right = right;
                size_right = refl;
              } in
            let renamed : key ≡ j = ground (arith, eq_iff key j) in
            rw (lookup-insert key j (new_entry now key media_type bytes) s.blobs, same)
              (subst
                (λ k.
                  IsVerified (insert (hex_from_digest key) bytes s.files) k
                    (new_entry now key media_type bytes))
                renamed v)
        | inr differ ↦
            rw (lookup-insert key j (new_entry now key media_type bytes) s.blobs, differ)
              (keep-IsVerifiedIf s.files (insert (hex_from_digest key) bytes s.files) j
                (lookup j s.blobs)
                (λ hj. ground (
                  arith,
                  other_file key j hk hj differ,
                  lookup-insert (hex_from_digest key) (hex_from_digest j) bytes s.files,
                ))
                (all j))
      ]

  pub insert_bytes-AllVerified :
      (written flushed : IoResult) (now : ℕ) (s : BlobStore) (digest media_type : String)
      (bytes : List ℕ)
      → AllVerified s
      → AllVerified (insert_bytes sha256 written flushed now s digest media_type bytes).0
  unfolding insert_bytes blob_path_for_key
  insert_bytes-AllVerified written flushed now s digest media_type bytes all =
      let key = normalize_digest digest in
      elim (Bool-cases (str_eq (sha256 bytes) (hex_from_digest key))) [
        | inr wrong ↦ rw (wrong, insert_bytes) all
        | inl right ↦ elim (Bool-cases (str_eq (hex_from_digest key) "")) [
          | inl empty ↦ rw (right, insert_bytes) (rw (empty, blob_path_for_key) all)
          | inr path ↦ elim (Result-cases written) [
            | inr (e, w) ↦ rw (right, insert_bytes) (rw (path, blob_path_for_key) (rw w all))
            | inl (u, w) ↦
                rw (right, insert_bytes)
                  (rw (path, blob_path_for_key)
                    (rw w (
                      store_blob-AllVerified now s key media_type bytes
                        (normalize_digest-prefix digest)
                        ((eq_iff (sha256 bytes) (hex_from_digest key)).0 right) all)))
          ]
        ]
      ]

  pub add_ref-AllVerified :
      (flushed : IoResult) (now : ℕ) (s : BlobStore) (digest : String)
      → AllVerified s
      → AllVerified (add_ref flushed now s digest).0
  unfolding add_ref
  add_ref-AllVerified flushed now s digest all =
      elim (Option-cases (lookup (normalize_digest digest) s.blobs)) [
        | inl e ↦ rw (e, add_ref) all
        | inr (x, e) ↦
            rw (e, add_ref)
              (touch-AllVerified s (normalize_digest digest) x
                (record x { ref_count = (x.ref_count + 1) % 2 ^ 32; last_accessed = now }) all e
                refl)
      ]

  pub release_ref-AllVerified :
      (flushed : IoResult) (s : BlobStore) (digest : String) (remove_if_zero : Bool)
      → AllVerified s
      → AllVerified (release_ref flushed s digest remove_if_zero).0
  unfolding release_ref
  release_ref-AllVerified flushed s digest remove_if_zero all =
      let key = normalize_digest digest in
      elim (Option-cases (lookup key s.blobs)) [
        | inl e ↦ rw (e, release_ref) all
        | inr (x, e) ↦
            let less : BlobEntry = record x { ref_count = x.ref_count - 1 } in
            let released : BlobStore = record s { blobs = insert key less s.blobs } in
            let kept : AllVerified released = touch-AllVerified s key x less all e refl in
            elim (Bool-cases (remove_if_zero && (x.ref_count - 1) == 0)) [
              | inl go ↦
                  rw (e, release_ref)
                    (rw go
                      (delete_blob-AllVerified released key (normalize_digest-prefix digest) kept))
              | inr stay ↦ rw (e, release_ref) (rw stay kept)
            ]
      ]
