-- ===== src/Runtime/Blobs/Digest.antt =====
-- Digests as keys: normal forms, and the names of the files.
use Prim.Native.String.{slice}
use text.Mathlib.TextPositions.{slice-append_right, len-append, starts_with-append}
use text.Mathlib.TextEquality.{starts_with_iff}
use nova_vm.Common.{◌≡◌, sym, ◌∙◌, ap, true, String, str_append, starts_with, Bool-cases, inl, inr}
use nova_vm.Runtime.Blobs.{normalize_digest, hex_from_digest}

pub normalize_digest-prefix : (d : String) → starts_with (normalize_digest d) "sha256:" ≡ true
unfolding normalize_digest
normalize_digest-prefix d = elim (Bool-cases (starts_with d "sha256:")) [
  | inl e ↦ rw (e, normalize_digest) e
  | inr e ↦ rw (e, normalize_digest) (starts_with-append "sha256:" d)
]

hex_from_digest-append : (t : String) → hex_from_digest (str_append "sha256:" t) ≡ t
unfolding hex_from_digest
hex_from_digest-append t =
    rw (starts_with-append "sha256:" t, hex_from_digest)
      (ap (λ n. slice (str_append "sha256:" t) 7 n) (len-append "sha256:" t)
        ∙ slice-append_right "sha256:" t)

pub digest_of_hex :
    (k : String) → starts_with k "sha256:" ≡ true → str_append "sha256:" (hex_from_digest k) ≡ k
digest_of_hex k h =
    let (t, e) = (starts_with_iff k "sha256:").0 h in
    ap (λ x. str_append "sha256:" (hex_from_digest x)) (sym e)
    ∙ ap (str_append "sha256:") (hex_from_digest-append t)
    ∙ e

-- Two keys in normal form with files of one name are one key.
pub hex_from_digest-inj :
    (j k : String)
    → starts_with j "sha256:" ≡ true
    → starts_with k "sha256:" ≡ true
    → hex_from_digest j ≡ hex_from_digest k
    → j ≡ k
hex_from_digest-inj j k hj hk e =
    sym (digest_of_hex j hj) ∙ ap (str_append "sha256:") e ∙ digest_of_hex k hk
