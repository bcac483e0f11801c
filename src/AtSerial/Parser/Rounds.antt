-- ===== src/AtSerial/Parser/Rounds.antt =====
-- One round of `poll` on a longer buffer, and one call of `poll` on a longer buffer.
use robstride_driver.Common.{
  ℕ, zero, suc, ◌-◌, ◌≤◌, ◌<◌, ◌≡◌, ◌≢◌, refl, sym, ap, ◌∙◌, arith, List, [], ◌∷◌, ◌++◌, get_or,
  take, drop, length, length-append, length-drop, none, some, ◌⊎◌, inl, inr,
}
use robstride_driver.Protocol.Types.{CanFrame}
use robstride_driver.AtSerial.Framing.{decode_packet, header_size}
use robstride_driver.AtSerial.Parser.{Verdict, wait, skip, accept, total_size, inspect, act, poll}

module _ {ℓ} {A : Type ℓ} where
  get_or-append :
      (xs ys : List A) (i : ℕ) (z : A) → i < length xs → get_or (xs ++ ys) i z ≡ get_or xs i z
  get_or-append [] ys i z h = absurd (omega arith)
  get_or-append (x ∷ xs) ys zero z h = refl
  get_or-append (x ∷ xs) ys (suc i) z h = get_or-append xs ys i z (omega arith)

  drop-append : (n : ℕ) (xs ys : List A) → n ≤ length xs → drop n (xs ++ ys) ≡ drop n xs ++ ys
  drop-append zero xs ys h = refl
  drop-append (suc n) [] ys h = absurd (omega arith)
  drop-append (suc n) (x ∷ xs) ys h = drop-append n xs ys (omega arith)

  take-append : (n : ℕ) (xs ys : List A) → n ≤ length xs → take n (xs ++ ys) ≡ take n xs
  take-append zero xs ys h = refl
  take-append (suc n) [] ys h = absurd (omega arith)
  take-append (suc n) (x ∷ xs) ys h = ap (◌∷◌ x) (take-append n xs ys (omega arith))

pub Verdict-cases : (v : Verdict) → (v ≡ wait) ⊎ (v ≡ skip) ⊎ (v ≡ accept)
Verdict-cases wait = inl refl
Verdict-cases skip = inr (inl refl)
Verdict-cases accept = inr (inr refl)

-- An accepted buffer holds the whole packet.
pub accept-le : (buffer : List ℕ) → inspect buffer ≡ accept → total_size buffer ≤ length buffer
unfolding inspect
accept-le buffer e = ground arith

-- A decision, once made, does not depend on the bytes still to come.
pub inspect-append : (xs ys : List ℕ) → inspect xs ≢ wait → inspect (xs ++ ys) ≡ inspect xs
unfolding inspect
inspect-append xs ys h = ground (
  arith,
  length-append xs ys,
  get_or-append xs ys 0 0,
  get_or-append xs ys 1 0,
  get_or-append xs ys 6 0,
  get_or-append xs ys (total_size xs - 2) 0,
  get_or-append xs ys (total_size xs - 1) 0,
)

decode_packet-append :
    (xs ys : List ℕ) → total_size xs ≤ length xs → decode_packet (xs ++ ys) ≡ decode_packet xs
unfolding decode_packet
decode_packet-append xs ys h = rw (
  get_or-append xs ys 2 0 (omega arith),
  get_or-append xs ys 3 0 (omega arith),
  get_or-append xs ys 4 0 (omega arith),
  get_or-append xs ys 5 0 (omega arith),
  get_or-append xs ys 6 0 (omega arith),
  drop-append header_size xs ys (omega arith),
  take-append (get_or xs 6 0) (drop header_size xs) ys (omega (arith, length-drop header_size xs)),
)

pub poll_wait : (x : ℕ) (xs : List ℕ) → inspect (x ∷ xs) ≡ wait → poll (x ∷ xs) ≡ (none, x ∷ xs)
unfolding poll act
poll_wait x xs e = rw e

pub poll_skip : (x : ℕ) (xs : List ℕ) → inspect (x ∷ xs) ≡ skip → poll (x ∷ xs) ≡ poll xs
unfolding poll act
poll_skip x xs e = rw e

pub poll_accept :
    (xs : List ℕ)
    → inspect xs ≡ accept
    → poll xs ≡ (some (decode_packet xs), drop (total_size xs) xs)
unfolding poll act
poll_accept [] e = unfold inspect in cc
poll_accept (x ∷ xs) e = rw e

-- `poll` returns the same frame when more bytes stand behind the buffer, and they stay.
pub poll-append_some :
    (xs ys : List ℕ) {f : CanFrame} {r : List ℕ}
    → poll xs ≡ (some f, r)
    → poll (xs ++ ys) ≡ (some f, r ++ ys)
poll-append_some [] ys e = unfold poll in cc
poll-append_some (x ∷ xs) ys {f} {r} e = elim (Verdict-cases (inspect (x ∷ xs))) [
  | inl w ↦ cc (poll_wait x xs w)
  | inr (inl s) ↦
      poll_skip x (xs ++ ys) (inspect-append (x ∷ xs) ys (λ w. cc) ∙ s)
      ∙ poll-append_some xs ys (sym (poll_skip x xs s) ∙ e)
  | inr (inr a) ↦
      let whole = accept-le (x ∷ xs) a in
      let same = decode_packet-append (x ∷ xs) ys whole in
      let rest = drop-append (total_size (x ∷ xs)) (x ∷ xs) ys whole in
      let size = get_or-append (x ∷ xs) ys 6 0 (omega arith) in
      cc (
        poll_accept (x ∷ xs) a,
        poll_accept ((x ∷ xs) ++ ys) (inspect-append (x ∷ xs) ys (λ w. cc) ∙ a),
        same,
        rest,
        size,
      )
]

-- Where `poll` found no frame, the bytes that it dropped are dropped from a longer buffer too.
pub poll-append_none :
    (xs ys : List ℕ) {r : List ℕ} → poll xs ≡ (none, r) → poll (xs ++ ys) ≡ poll (r ++ ys)
poll-append_none [] ys e = unfold poll in cc
poll-append_none (x ∷ xs) ys {r} e = elim (Verdict-cases (inspect (x ∷ xs))) [
  | inl w ↦ cc (poll_wait x xs w)
  | inr (inl s) ↦
      poll_skip x (xs ++ ys) (inspect-append (x ∷ xs) ys (λ w. cc) ∙ s)
      ∙ poll-append_none xs ys (sym (poll_skip x xs s) ∙ e)
  | inr (inr a) ↦ cc (poll_accept (x ∷ xs) a)
]
