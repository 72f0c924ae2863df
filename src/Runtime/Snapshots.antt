-- ===== src/Runtime/Snapshots.antt =====
-- crates/nova-runtime/src/snapshot_cache.rs. `exists` says which directories are on the disk;
-- `flushed` is what writing the index to the disk returns.
use nova_vm.Common.{
  ℕ, Bool, true, false, ◌&&◌, Option, none, some, String, str_eq, eq_iff, Result, ok, if◌then◌else◌,
  StringMap, lookup, insert, ◌≡◌, refl, arith, lookup-insert, Option-cases, inl, inr, Bool-cases,
}
use nova_vm.Runtime.Error.{RuntimeError}

pub record SnapshotEntry : Type 0 where
  pub key : String
  pub snapshot_dir : String
  pub config_hash : String
  pub image_digest : String
  pub created_at : ℕ
  pub valid : Bool

abbrev pub SnapshotCache : Type 0
SnapshotCache = StringMap SnapshotEntry

abbrev pub Outcome : Type 0
Outcome = SnapshotCache × Result RuntimeError (Unit {0})

-- The entry, if it is valid and its directory exists
abbrev pub usable : (String → Bool) → Option SnapshotEntry → Option SnapshotEntry
usable exists none = none
usable exists (some e) = if e.valid && exists e.snapshot_dir then some e else none

unfoldable pub get : (String → Bool) → SnapshotCache → String → Option SnapshotEntry
get exists c key = usable exists (lookup key c)

unfoldable pub insert_entry :
    Result RuntimeError (Unit {0}) → SnapshotCache → SnapshotEntry → Outcome
insert_entry flushed c entry = (insert entry.key entry c, flushed)

unfoldable pub invalidate : Result RuntimeError (Unit {0}) → SnapshotCache → String → Outcome
invalidate flushed c key = elim (lookup key c) [
  | none ↦ (c, ok tt)
  | some e ↦ (insert key (record e { valid = false }) c, flushed)
]

unfoldable pub contains : (String → Bool) → SnapshotCache → String → Bool
contains exists c key = elim (get exists c key) [ none ↦ false | some e ↦ true ]

get-insert :
    (exists : String → Bool) (key other : String) (entry : SnapshotEntry) (c : SnapshotCache)
    → get exists (insert key entry c) other
      ≡ (if str_eq key other then usable exists (some entry) else get exists c other)
unfolding get
get-insert exists key other entry c =
    rw (lookup-insert key other entry c, get)
      (elim (Bool-cases (str_eq key other)) [
        | inl same ↦ rw same refl
        | inr differ ↦ rw differ refl
      ])

-- After `insert`, the entry is found under its key just when it is valid and its directory exists;
-- after `invalidate` no entry is found under the key; and neither changes what another key finds,
-- whether or not the index reaches the disk.
pub get-insert_entry :
    (exists : String → Bool) (flushed : Result RuntimeError (Unit {0})) (c : SnapshotCache)
    (entry : SnapshotEntry) (key other : String)
    → (get exists (insert_entry flushed c entry).0 other
        ≡ (if str_eq entry.key other then usable exists (some entry) else get exists c other))
      × (get exists (invalidate flushed c key).0 other
          ≡ (if str_eq key other then none else get exists c other))
unfolding get insert_entry invalidate
get-insert_entry exists flushed c entry key other = (
  get-insert exists entry.key other entry c,
  elim (Option-cases (lookup key c)) [
    | inl e ↦ ground (arith, eq_iff key other)
    | inr (old, e) ↦
        rw (e, invalidate) (get-insert exists key other (record old { valid = false }) c)
  ],
)
