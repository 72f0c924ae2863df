-- ===== src/Agent/Vsock/Frames.antt =====
-- Messages survive any division into reads and writes: crates/nova-agent/src/vsock.rs.
use nova_vm.Common.{
  ℕ, zero, suc, ◌-◌, ◌%◌, ◌^◌, ◌≤◌, ◌<◌, ◌≡◌, refl, sym, ap, ap₂, ◌∙◌, ◌⊎◌, inl, inr, Option, none,
  some, List, [], ◌∷◌, ◌++◌, Result, ok, err, ◌>>=◌, ok_or, ◌==◌, ==_iff, subst, length, take, drop,
  min, arith, Bool-cases, length-take, length-drop, take-append, drop-append, take-append-drop,
  length-append, drop-nil, ge→ltb,
}
use mathlib.Core.List.{append_assoc}
use nova_vm.Agent.Vsock.{
  AgentError, io_error, json_error, Request, Response, to_be32, from_be32, Inbound, read_turn,
  read_more, read_loop, read_exact, max_message, recv_body, recv_request, write_all, frame,
  send_response,
}

-- No read fails.
abbrev pub NoneFails : List (Option ℕ) → Type 0
NoneFails [] = Unit {0}
NoneFails (none ∷ turns) = ⊥
NoneFails (some k ∷ turns) = NoneFails turns

module _ {ℓ} {A : Type ℓ} where
  take-nil : (n : ℕ) → take {A = A} n [] ≡ []
  take-nil zero = refl
  take-nil (suc n) = refl

  take-parts : (xs : List A) (k w : ℕ) → k ≤ w → take k xs ++ take (w - k) (drop k xs) ≡ take w xs
  take-parts xs zero w h = ap (λ n. take n xs) (omega arith)
  take-parts xs (suc k) zero h = absurd (omega arith)
  take-parts [] (suc k) (suc w) h = take-nil (suc w - suc k)
  take-parts (x ∷ xs) (suc k) (suc w) h =
      ap (λ t. x ∷ t)
        (ap (λ n. take k xs ++ take n (drop k xs)) (omega arith) ∙ take-parts xs k w (omega arith))

  drop-parts : (xs : List A) (k w : ℕ) → k ≤ w → drop (w - k) (drop k xs) ≡ drop w xs
  drop-parts xs zero w h = ap (λ n. drop n xs) (omega arith)
  drop-parts xs (suc k) zero h = absurd (omega arith)
  drop-parts [] (suc k) (suc w) h = drop-nil (suc w - suc k)
  drop-parts (x ∷ xs) (suc k) (suc w) h =
      ap (λ n. drop n (drop k xs)) (omega arith) ∙ drop-parts xs k w (omega arith)

-- Some state after `wanted` bytes are read.
pub record Read (wanted : ℕ) (s : Inbound) (r : Result AgentError (List ℕ) × Inbound) : Type 0 where
  pub bytes : r.0 ≡ ok (take wanted s.incoming)
  pub left : r.1.incoming ≡ drop wanted s.incoming
  pub fine : NoneFails r.1.turns

read_more-some :
    (next : ℕ → Inbound → Result AgentError (List ℕ) × Inbound) (wanted : ℕ) (bs : List ℕ)
    (s : Inbound)
    → 1 ≤ length bs
    → read_more next wanted (some bs) s ≡ (
      (next (wanted - length bs) s).0 >>= λ more. ok (bs ++ more),
      (next (wanted - length bs) s).1,
    )
unfolding read_more
read_more-some next wanted [] s h = absurd (omega arith)
read_more-some next wanted (b ∷ bs) s h = refl

-- One chunk of `k` bytes, and the rest by the loop.
Read-chunk :
    (next : ℕ → Inbound → Result AgentError (List ℕ) × Inbound) (k wanted : ℕ) (s s' : Inbound)
    → 1 ≤ k
    → k ≤ wanted
    → wanted ≤ length s.incoming
    → s'.incoming ≡ drop k s.incoming
    → Read (wanted - k) s' (next (wanted - k) s')
    → Read wanted s (read_more next wanted (some (take k s.incoming)) s')
Read-chunk next k wanted s s' pos le enough e r =
    let chunk = take k s.incoming in
    let size : length chunk ≡ k = omega (arith, length-take k s.incoming) in
    let step = read_more-some next wanted chunk s' (omega arith) in
    record {
      bytes =
          ap (λ (x : Result AgentError (List ℕ) × Inbound). x.0) step
          ∙ rw size (
              ap (λ (x : Result AgentError (List ℕ)). x >>= λ more. ok (chunk ++ more)) r.bytes
              ∙ ap ok (rw e (take-parts s.incoming k wanted le)));
      left =
          ap (λ (x : Result AgentError (List ℕ) × Inbound). x.1.incoming) step
          ∙ rw size (r.left ∙ rw e (drop-parts s.incoming k wanted le));
      fine =
          subst (λ (x : Result AgentError (List ℕ) × Inbound). NoneFails x.1.turns) (sym step)
            (rw size r.fine);
    }

-- A turn at which something is wanted, before the loop goes on.
turns-Read :
    (fuel wanted : ℕ) (incoming : List ℕ) (turns : List (Option ℕ))
    → ((k : ℕ) (s' : Inbound)
        → 1 ≤ k
        → k ≤ wanted
        → s'.incoming ≡ drop k incoming
        → NoneFails s'.turns
        → Read (wanted - k) s' (read_loop fuel (wanted - k) s'))
    → 0 < wanted
    → wanted ≤ length incoming
    → NoneFails turns
    → let s : Inbound = record { incoming = incoming; turns = turns } in
      Read wanted s
        (read_more (read_loop fuel) wanted (read_turn wanted s).0 (read_turn wanted s).1)
unfolding read_turn
turns-Read fuel wanted incoming [] later pos enough fine =
    let s' : Inbound = record { incoming = drop wanted incoming; turns = [] } in
    Read-chunk (read_loop fuel) wanted wanted _ s' pos (omega arith) enough refl
      (later wanted s' pos (omega arith) refl tt)
turns-Read fuel wanted incoming (none ∷ turns) later pos enough fine = absurd fine
turns-Read fuel wanted incoming (some j ∷ turns) later pos enough fine =
    let k = min wanted (suc j) in
    let s' : Inbound = record { incoming = drop k incoming; turns = turns } in
    Read-chunk (read_loop fuel) k wanted _ s' (omega arith) (omega arith) enough refl
      (later k s' (omega arith) (omega arith) refl fine)

shorter :
    (s s' : Inbound) (k wanted : ℕ)
    → s'.incoming ≡ drop k s.incoming
    → wanted ≤ length s.incoming
    → k ≤ wanted
    → wanted - k ≤ length s'.incoming
shorter s s' k wanted e enough le = omega (arith, ap (length {A = ℕ}) e, length-drop k s.incoming)

read_loop-Read :
    (fuel wanted : ℕ) (s : Inbound)
    → wanted ≤ fuel
    → wanted ≤ length s.incoming
    → NoneFails s.turns
    → Read wanted s (read_loop fuel wanted s)
unfolding read_loop
read_loop-Read zero wanted s le enough fine =
    let none_wanted : wanted ≡ 0 = omega arith in
    record {
      bytes = ap (λ n. ok (take n s.incoming)) {x = 0} (sym none_wanted);
      left = ap (λ n. drop n s.incoming) {x = 0} (sym none_wanted);
      fine = fine;
    }
read_loop-Read (suc fuel) wanted s le enough fine = elim (Bool-cases (wanted == 0)) [
  | inl y ↦
      let none_wanted : wanted ≡ 0 = (==_iff wanted 0).0 y in
      rw y (record {
        bytes = ap (λ n. ok (take n s.incoming)) {x = 0} (sym none_wanted);
        left = ap (λ n. drop n s.incoming) {x = 0} (sym none_wanted);
        fine = fine;
      })
  | inr n ↦ rw n (
      turns-Read fuel wanted s.incoming s.turns
        (λ k s' a b e f.
          read_loop-Read fuel (wanted - k) s' (omega arith) (shorter s s' k wanted e enough b) f)
        (ground arith) enough fine)
]

read_exact-append :
    (bs rest : List ℕ) (n : ℕ) (s : Inbound)
    → s.incoming ≡ bs ++ rest
    → length bs ≡ n
    → NoneFails s.turns
    → ((read_exact n s).0 ≡ ok bs)
      × ((read_exact n s).1.incoming ≡ rest)
      × NoneFails (read_exact n s).1.turns
unfolding read_exact
read_exact-append bs rest n s e size fine =
    let r =
      read_loop-Read n n s (omega arith)
        (omega (arith, ap (length {A = ℕ}) e, length-append bs rest)) fine in
    (
      r.bytes ∙ ap ok (rw (e, ← size) (take-append bs rest)),
      r.left ∙ rw (e, ← size) (drop-append bs rest),
      r.fine,
    )

from_be32-to_be32 : (n : ℕ) → n < 2 ^ 32 → from_be32 (to_be32 n) ≡ n
from_be32-to_be32 n h = omega arith

module _ (from_slice : List ℕ → Option Request) where
  -- A message of at most 1 MiB is received whole, however the stream comes in pieces, and what follows it
  -- is left for the next.
  pub recv_request-frame :
      (json rest : List ℕ) (s : Inbound)
      → s.incoming ≡ frame json ++ rest
      → length json ≤ max_message
      → NoneFails s.turns
      → ((recv_request from_slice s).0 ≡ ok_or (from_slice json) json_error)
        × ((recv_request from_slice s).1.incoming ≡ rest)
        × NoneFails (recv_request from_slice s).1.turns
  unfolding recv_request recv_body frame
  recv_request-frame json rest s e small fine =
      let size : length json % 2 ^ 32 ≡ length json = omega arith in
      let (head, left, fine') =
        read_exact-append (to_be32 (length json)) (json ++ rest) 4 s (e ∙ rw size refl) refl fine in
      let (body, left', fine'') =
        read_exact-append json rest (length json) ((read_exact 4 s).1) left refl fine' in
      let number = from_be32-to_be32 (length json) (omega arith) in
      let fits = ge→ltb max_message (length json) small in
      rw (head, recv_request)
        (rw number (
          rw fits (
            ap
                (λ (x : Result AgentError (List ℕ)).
                  x >>= λ bytes. ok_or (from_slice bytes) json_error)
                body,
            left',
            fine'',
          )))

-- What reaches the socket is the data, whole if the call succeeds and else a part from its front.
pub write_all-lem :
    (bs : List ℕ) (turns : List (Option ℕ))
    → ((left : List (Option ℕ)) × ((write_all bs turns).1 ≡ ok left)
        × ((write_all bs turns).0 ≡ bs))
      ⊎ (((write_all bs turns).1 ≡ err io_error)
          × (rest : List ℕ) × (bs ≡ (write_all bs turns).0 ++ rest))
unfolding write_all
write_all-lem [] turns = inl (turns, refl, refl)
write_all-lem (b ∷ bs) [] = inl ([], refl, refl)
write_all-lem (b ∷ bs) (none ∷ turns) = inr (refl, b ∷ bs, refl)
write_all-lem (b ∷ bs) (some k ∷ turns) =
    let all = take-append-drop k (b ∷ bs) in
    elim (write_all-lem (drop k (b ∷ bs)) turns) [
      | inl (left, e, sent) ↦ inl (left, e, ap (λ t. take k (b ∷ bs) ++ t) sent ∙ all)
      | inr (e, rest, parts) ↦
          let front = take k (b ∷ bs) in
          inr (
            e,
            rest,
            sym all
                ∙ ap (λ t. front ++ t) parts
                ∙ sym (append_assoc front (write_all (drop k (b ∷ bs)) turns).0 rest),
          )
    ]

-- A response that is sent is on the wire as one frame.
pub send_response-frame :
    (to_vec : Response → List ℕ) (response : Response) (turns left : List (Option ℕ))
    → (send_response to_vec response turns).1 ≡ ok left
    → (send_response to_vec response turns).0 ≡ frame (to_vec response)
unfolding send_response frame
send_response-frame to_vec response turns left h =
    let json = to_vec response in
    elim (write_all-lem (to_be32 (length json % 2 ^ 32)) turns) [
      | inl (left', e, sent) ↦ elim (write_all-lem json left') [
        | inl (left'', e', sent') ↦ rw (e, send_response) (ap₂ (λ a b. a ++ b) sent sent')
        | inr (e', rest, parts) ↦ let failed = rw e' at (rw (e, send_response) at h) in cc
      ]
      | inr (e, rest, parts) ↦ let failed = rw (e, send_response) at h in cc
    ]
