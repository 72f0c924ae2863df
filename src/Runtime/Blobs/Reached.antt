-- ===== src/Runtime/Blobs/Reached.antt =====
-- The blobs over any sequence of operations.
use nova_vm.Common.{
  ℕ, ◌≡◌, ◌⊎◌, inl, inr, subst, Bool, true, none, List, [], ◌∷◌, String, eq_iff, starts_with,
  StringMap, lookup, arith, Bool-cases, Option-cases,
}
use nova_vm.Runtime.Blobs.{
  BlobEntry, BlobStore, IoResult, insert_bytes, add_ref, release_ref, delete_blob, delete_all,
  garbage_keys, gc, is_garbage,
}
use nova_vm.Runtime.Blobs.Verified.{
  IsVerifiedIf, AllVerified, delete_blob-AllVerified, insert_bytes-AllVerified, add_ref-AllVerified,
  release_ref-AllVerified,
}

abbrev AllNormal : List String → Type 0
AllNormal [] = Unit {0}
AllNormal (k ∷ ks) = (starts_with k "sha256:" ≡ true) × AllNormal ks

rest_of :
    (k j : String) (e : BlobEntry) (m : StringMap BlobEntry)
    → lookup j ((k, e) ∷ m) ≡ none
    → lookup j m ≡ none
unfolding lookup
rest_of k j e m h = ground arith

garbage_keys-AllNormal :
    (now max_age : ℕ) (m : StringMap BlobEntry)
    → ((k : String) → (lookup k m ≡ none) ⊎ (starts_with k "sha256:" ≡ true))
    → AllNormal (garbage_keys now max_age m)
unfolding garbage_keys lookup
garbage_keys-AllNormal now max_age [] h = tt
garbage_keys-AllNormal now max_age ((k, e) ∷ m) h =
    let first : starts_with k "sha256:" ≡ true = elim (h k) [
      | inl absent ↦ absurd (ground (arith, eq_iff k k))
      | inr normal ↦ normal
    ] in
    let rest =
      garbage_keys-AllNormal now max_age m
        (λ j. elim (h j) [ inl absent ↦ inl (rest_of k j e m absent) | inr normal ↦ inr normal ]) in
    elim (Bool-cases (is_garbage now max_age e)) [
      | inl go ↦ rw (go, garbage_keys) (first, rest)
      | inr stay ↦ rw (stay, garbage_keys) rest
    ]

module _ (sha256 : List ℕ → String) where
  delete_all-AllVerified :
      (ks : List String) (s : BlobStore)
      → AllNormal ks
      → AllVerified sha256 s
      → AllVerified sha256 (delete_all s ks)
  unfolding delete_all
  delete_all-AllVerified [] s n all = all
  delete_all-AllVerified (k ∷ ks) s n all =
      delete_all-AllVerified ks (delete_blob s k) n.1 (delete_blob-AllVerified sha256 s k n.0 all)

  normal_or_absent :
      (s : BlobStore) (k : String)
      → AllVerified sha256 s
      → (lookup k s.blobs ≡ none) ⊎ (starts_with k "sha256:" ≡ true)
  normal_or_absent s k all = elim (Option-cases (lookup k s.blobs)) [
    | inl e ↦ inl e
    | inr (x, e) ↦ inr (subst (IsVerifiedIf sha256 s.files k) e (all k)).normal
  ]

  gc-AllVerified :
      (flushed : IoResult) (now max_age : ℕ) (s : BlobStore)
      → AllVerified sha256 s
      → AllVerified sha256 (gc flushed now max_age s).0
  unfolding gc
  gc-AllVerified flushed now max_age s all =
      delete_all-AllVerified (garbage_keys now max_age s.blobs) s
        (garbage_keys-AllNormal now max_age s.blobs (λ k. normal_or_absent s k all)) all

  -- The operations but `insert_file`, with any results of their input and output
  pub data Reach : BlobStore → Type 0 where
    opens : Reach (record { blobs = []; files = [] })
    inserts :
        (written flushed : IoResult) (now : ℕ) (s : BlobStore) (digest media_type : String)
        (bytes : List ℕ)
        → Reach s
        → Reach (insert_bytes sha256 written flushed now s digest media_type bytes).0
    adds :
        (flushed : IoResult) (now : ℕ) (s : BlobStore) (digest : String)
        → Reach s
        → Reach (add_ref flushed now s digest).0
    releases :
        (flushed : IoResult) (s : BlobStore) (digest : String) (remove_if_zero : Bool)
        → Reach s
        → Reach (release_ref flushed s digest remove_if_zero).0
    collects :
        (flushed : IoResult) (now max_age : ℕ) (s : BlobStore)
        → Reach s
        → Reach (gc flushed now max_age s).0

  -- From an empty store, by any sequence of insertions of bytes, references added and released, and
  -- collections, failed ones included: each entry's key is in normal form, and its file is there, has
  -- the digest that the key names and the size that the entry says.
  pub Reach-AllVerified : {s : BlobStore} → Reach s → AllVerified sha256 s
  unfolding lookup
  Reach-AllVerified Reach.opens key = tt
  Reach-AllVerified (Reach.inserts written flushed now s digest media_type bytes r) key =
      insert_bytes-AllVerified sha256 written flushed now s digest media_type bytes
        (Reach-AllVerified r) key
  Reach-AllVerified (Reach.adds flushed now s digest r) key =
      add_ref-AllVerified sha256 flushed now s digest (Reach-AllVerified r) key
  Reach-AllVerified (Reach.releases flushed s digest remove_if_zero r) key =
      release_ref-AllVerified sha256 flushed s digest remove_if_zero (Reach-AllVerified r) key
  Reach-AllVerified (Reach.collects flushed now max_age s r) key =
      gc-AllVerified flushed now max_age s (Reach-AllVerified r) key
