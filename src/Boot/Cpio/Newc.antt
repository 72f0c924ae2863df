-- ===== src/Boot/Cpio/Newc.antt =====
-- A reader of the "newc" format, as the kernel unpacks an initrd, and what it makes of the entries that
-- crates/nova-boot/src/initrd.rs writes. The reader shares no definition with the writers.
use mathlib.Core.List.{append_assoc, append-nil}
use native.Mathlib.Nat.{pow-suc}
use nova_vm.Common.{
  ℕ, zero, suc, ◌+◌, ◌-◌, ◌*◌, ◌/◌, ◌%◌, ◌^◌, ◌<◌, ◌≡◌, refl, ap, ◌∙◌, List, [], ◌∷◌, ◌++◌, Option,
  none, some, Bool, true, false, ◌&&◌, ltb, leb, ◌==◌, if◌then◌else◌, length, take, drop,
  length-append, take-append, drop-append, arith,
}
use nova_vm.Boot.Cpio.{
  hex_digit, hex_upper, hex8, newc_magic, newc_owner, newc_devices, newc_header, u32_mod,
}

infixl 5 ◌>>=◌
abbrev pub ◌>>=◌ {ℓ κ} : {A : Type ℓ} {B : Type κ} → Option A → (A → Option B) → Option B
some a >>= f = f a
none >>= f = none

pub record NewcEntry : Type 0 where
  pub ino : ℕ
  pub mode : ℕ
  pub name : List ℕ
  pub content : List ℕ

-- The next `n` bytes, if there are as many, and what follows them.
unfoldable pub next : ℕ → List ℕ → Option (List ℕ × List ℕ)
next n bs = if ltb (length bs) n then none else some (take n bs, drop n bs)

digit_value : ℕ → Option ℕ
digit_value c =
    if leb b'0' c && leb c b'9'
    then some (c - b'0')
    else if leb b'A' c && leb c b'F'
    then some (c - 55)
    else if leb b'a' c && leb c b'f'
    then some (c - 87)
    else none

hex_value : ℕ → List ℕ → Option ℕ
hex_value acc [] = some acc
hex_value acc (c ∷ cs) = digit_value c >>= λ d. hex_value (acc * 16 + d) cs

read_hex8 : List ℕ → Option (ℕ × List ℕ)
unfolding next
read_hex8 bs = do (digits, rest) ← next 8 bs; v ← hex_value 0 digits; some (v, rest)

same_bytes : List ℕ → List ℕ → Bool
same_bytes [] [] = true
same_bytes (a ∷ as') (b ∷ bs) = a == b && same_bytes as' bs
same_bytes [] (b ∷ bs) = false
same_bytes (a ∷ as') [] = false

-- A C string: up to the first zero byte.
unfoldable pub c_string : List ℕ → List ℕ
c_string [] = []
c_string (b ∷ bs) = if b == 0 then [] else b ∷ c_string bs

-- How far it is from a place in an entry to the next place that four divides.
abbrev pub to_aligned : ℕ → ℕ
to_aligned n = (n + 3) / 4 * 4 - n

-- The magic of the format, "070701" in ASCII.
abbrev magic_text : List ℕ
magic_text = 48 ∷ 55 ∷ 48 ∷ 55 ∷ 48 ∷ 49 ∷ []

-- What follows the header: a name of `namesize` bytes right behind its 110 bytes, then the content,
-- each padded to a multiple of four.
unfoldable pub read_body : ℕ → ℕ → ℕ → ℕ → List ℕ → Option (NewcEntry × List ℕ)
unfolding next c_string
read_body ino mode filesize namesize bs = do
  (name, bs) ← next namesize bs
  (_, bs) ← next (to_aligned (110 + namesize)) bs
  (content, bs) ← next filesize bs
  (_, bs) ← next (to_aligned filesize) bs
  some (record { ino = ino; mode = mode; name = c_string name; content = content }, bs)

-- One entry from the front of the buffer. Owner, links and time, devices and checksum are not looked at.
unfoldable pub read_newc : List ℕ → Option (NewcEntry × List ℕ)
unfolding next read_hex8 hex_value digit_value same_bytes read_body
read_newc bs = do
  (magic, bs) ← next 6 bs
  _ ← (if same_bytes magic magic_text then some magic else none)
  (ino, bs) ← read_hex8 bs
  (mode, bs) ← read_hex8 bs
  (_, bs) ← next 32 bs
  (filesize, bs) ← read_hex8 bs
  (_, bs) ← next 32 bs
  (namesize, bs) ← read_hex8 bs
  (_, bs) ← next 8 bs
  read_body ino mode filesize namesize bs

length-hex_upper : (k v : ℕ) → length (hex_upper k v) ≡ k
unfolding hex_upper
length-hex_upper zero v = refl
length-hex_upper (suc k) v = omega (
  arith,
  length-append (hex_upper k (v / 16)) (hex_digit (v % 16) ∷ []),
  length-hex_upper k (v / 16),
)

next-length : (xs ys : List ℕ) → next (length xs) (xs ++ ys) ≡ some (xs, ys)
unfolding next
next-length xs ys =
    let enough : ltb (length (xs ++ ys)) (length xs) ≡ false =
      ground (arith, length-append xs ys) in
    rw (enough, take-append xs ys, drop-append xs ys)

pub next-append : (xs ys : List ℕ) (n : ℕ) → length xs ≡ n → next n (xs ++ ys) ≡ some (xs, ys)
next-append xs ys n e = rw (← e) (next-length xs ys)

digit_value-hex_digit : (d : ℕ) → d < 16 → digit_value (hex_digit d) ≡ some d
unfolding digit_value
digit_value-hex_digit d h = ground arith

hex_value-hex_upper :
    (k v acc : ℕ) (ds : List ℕ)
    → v < 16 ^ k
    → hex_value acc (hex_upper k v ++ ds) ≡ hex_value (acc * 16 ^ k + v) ds
unfolding hex_value hex_upper
hex_value-hex_upper zero v acc ds h = ap (λ a. hex_value a ds) (omega arith)
hex_value-hex_upper (suc k) v acc ds h =
    let digit = hex_digit (v % 16) in
    rw (append_assoc (hex_upper k (v / 16)) (digit ∷ []) ds) (
      hex_value-hex_upper k (v / 16) acc (digit ∷ ds) (omega (arith, pow-suc 16 k))
      ∙ rw (digit_value-hex_digit (v % 16) (omega arith))
          (ap (λ a. hex_value a ds) (omega (arith, ap (λ (t : ℕ). acc * t) (pow-suc 16 k)))))

read_hex8-hex8 : (v : ℕ) (rest : List ℕ) → v < u32_mod → read_hex8 (hex8 v ++ rest) ≡ some (v, rest)
unfolding read_hex8 hex_value
read_hex8-hex8 v rest h =
    let value = hex_value-hex_upper 8 v 0 [] h in
    rw (next-append (hex8 v) rest 8 (length-hex_upper 8 v))
      (rw (← append-nil (hex8 v)) (rw value (ap (λ n. some (n, rest)) (omega arith))))

length-newc_owner : length newc_owner ≡ 32
unfolding newc_owner
length-newc_owner = refl

length-newc_devices : length newc_devices ≡ 32
unfolding newc_devices
length-newc_devices = refl

pub read_newc-newc_header :
    (ino mode filesize namesize : ℕ) (body : List ℕ)
    → ino < u32_mod
    → mode < u32_mod
    → filesize < u32_mod
    → namesize < u32_mod
    → read_newc (newc_header ino mode filesize namesize ++ body)
      ≡ read_body ino mode filesize namesize body
unfolding read_newc newc_header
read_newc-newc_header ino mode filesize namesize body a b c d = simp (
  append_assoc,
  next-append newc_magic _ 6 refl,
  read_hex8-hex8 ino _ a,
  read_hex8-hex8 mode _ b,
  read_hex8-hex8 filesize _ c,
  read_hex8-hex8 namesize _ d,
  skip newc_owner 32 length-newc_owner,
  skip newc_devices 32 length-newc_devices,
  next-append (hex8 0) body 8 (length-hex_upper 8 0),
)
  where
    skip : (xs : List ℕ) (n : ℕ) → length xs ≡ n → (ys : List ℕ) → next n (xs ++ ys) ≡ some (xs, ys)
    skip xs n e ys = next-append xs ys n e
