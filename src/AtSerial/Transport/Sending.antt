-- ===== src/AtSerial/Transport/Sending.antt =====
-- What the serial line carries after `send`.
use robstride_driver.Common.{
  ℕ, ◌+◌, ◌≤◌, ◌≡◌, ◌≢◌, refl, sym, ap, ◌∙◌, arith, List, [], ◌∷◌, ◌++◌, length, take, drop, ok,
  err, Call, finished, waiting, system_error, ltb, Bool-cases, false, All, if◌then◌else◌, inl, inr,
  zero, suc,
}
use mathlib.Core.List.{append_assoc, append-nil}
use robstride_driver.Protocol.Types.{CanFrame}
use robstride_driver.AtSerial.Framing.{encode_frame}
use robstride_driver.AtSerial.Transport.{
  WriteAnswer, written, write_interrupted, write_failed, send_loop, send,
}

-- The line holds a front of the packet, and all of it if the call returned normally.
abbrev pub Carries : List ℕ → Call (Unit {0}) × List ℕ → Type 0
Carries packet (finished (ok u), line) = line ≡ packet
Carries packet (finished (err e), line) = (rest : List ℕ) × (packet ≡ line ++ rest)
Carries packet (waiting, line) = (rest : List ℕ) × (packet ≡ line ++ rest)

module _ {ℓ} {A : Type ℓ} where
  take-drop_front : (n : ℕ) (xs : List A) → xs ≡ take n xs ++ drop n xs
  take-drop_front zero xs = refl
  take-drop_front (suc n) [] = refl
  take-drop_front (suc n) (x ∷ xs) = ap (◌∷◌ x) (take-drop_front n xs)

  drop-nil : (n : ℕ) → drop {A = A} n [] ≡ []
  drop-nil zero = refl
  drop-nil (suc n) = refl

  drop-add : (n m : ℕ) (xs : List A) → drop (n + m) xs ≡ drop m (drop n xs)
  drop-add zero m xs = let e : 0 + m ≡ m = omega arith in rw e
  drop-add (suc n) m [] = drop-nil (suc n + m) ∙ sym (drop-nil m)
  drop-add (suc n) m (x ∷ xs) =
      let e : suc n + m ≡ suc (n + m) = omega arith in rw e (drop-add n m xs)

  drop_past : (n : ℕ) (xs : List A) → length xs ≤ n → drop n xs ≡ []
  drop_past zero [] h = refl
  drop_past (suc n) [] h = refl
  drop_past zero (x ∷ xs) h = absurd (omega arith)
  drop_past (suc n) (x ∷ xs) h = drop_past n xs (omega arith)

-- What the device has taken, and what it has not.
abbrev IsAt : List ℕ → ℕ → List ℕ → Type 0
IsAt packet sent line = packet ≡ line ++ drop sent packet

IsAt-written :
    (packet : List ℕ) (sent n : ℕ) (line : List ℕ)
    → IsAt packet sent line
    → IsAt packet (sent + n) (line ++ take n (drop sent packet))
IsAt-written packet sent n line h =
    h
    ∙ rw (append_assoc, drop-add sent n packet)
        (ap (◌++◌ line) (take-drop_front n (drop sent packet)))

IsAt-end :
    (packet : List ℕ) (sent : ℕ) (line : List ℕ)
    → IsAt packet sent line
    → ltb sent (length packet) ≡ false
    → line ≡ packet
IsAt-end packet sent line h e =
    sym (h ∙ rw (drop_past sent packet (ground arith)) (append-nil line))

-- A round of the loop: it ends if the packet is sent, and otherwise does as the answer says.
by_test :
    (packet line : List ℕ) (sent : ℕ) (more : Call (Unit {0}) × List ℕ)
    → IsAt packet sent line
    → Carries packet more
    → Carries packet (if ltb sent (length packet) then more else (finished (ok tt), line))
by_test packet line sent more h next = elim (Bool-cases (ltb sent (length packet))) [
  | inl e ↦ rw e next
  | inr e ↦ rw e (IsAt-end packet sent line h e)
]

send_loop-Carries :
    (script : List WriteAnswer) (packet : List ℕ) (sent : ℕ) (line : List ℕ)
    → IsAt packet sent line
    → Carries packet (send_loop script packet sent line)
unfolding send_loop
send_loop-Carries [] packet sent line h =
    by_test packet line sent (waiting, line) h (drop sent packet, h)
send_loop-Carries (written n ∷ script) packet sent line h =
    by_test packet line sent _ h
      (send_loop-Carries script packet (sent + n) _ (IsAt-written packet sent n line h))
send_loop-Carries (write_interrupted ∷ script) packet sent line h =
    by_test packet line sent _ h (send_loop-Carries script packet sent line h)
send_loop-Carries (write_failed ∷ script) packet sent line h =
    by_test packet line sent (finished (err system_error), line) h (drop sent packet, h)

-- If `send` returns, the line carries the whole packet, and if it throws or still waits, a front
-- of the packet, whatever partial writes, interrupts and errors there are.
pub send-Carries :
    (script : List WriteAnswer) (f : CanFrame) → Carries (encode_frame f) (send script f)
unfolding send
send-Carries script f = send_loop-Carries script (encode_frame f) 0 [] refl

-- The bytes that a script's writes take, and that no write fails.
abbrev pub accepted : List WriteAnswer → ℕ
accepted [] = 0
accepted (written n ∷ script) = n + accepted script
accepted (write_interrupted ∷ script) = accepted script
accepted (write_failed ∷ script) = accepted script

abbrev pub NoFailure : List WriteAnswer → Type 0
NoFailure = All (λ a. a ≢ write_failed)

send_loop_ends :
    (script : List WriteAnswer) (packet : List ℕ) (sent : ℕ) (line : List ℕ)
    → NoFailure script
    → length packet ≤ sent + accepted script
    → (send_loop script packet sent line).0 ≡ finished (ok tt)
unfolding send_loop
send_loop_ends [] packet sent line ok_all enough = ground arith
send_loop_ends (written n ∷ script) packet sent line (_, ok_all) enough =
    ground
      (arith, send_loop_ends script packet (sent + n) (line ++ take n (drop sent packet)) ok_all)
send_loop_ends (write_interrupted ∷ script) packet sent line (_, ok_all) enough =
    ground (arith, send_loop_ends script packet sent line ok_all enough)
send_loop_ends (write_failed ∷ script) packet sent line (bad, _) enough = absurd (bad refl)

Carries-finished :
    (packet : List ℕ) (r : Call (Unit {0}) × List ℕ)
    → Carries packet r
    → r.0 ≡ finished (ok tt)
    → r ≡ (finished (ok tt), packet)
Carries-finished packet (finished (ok u), line) c e = λ i. (e i, c i)
Carries-finished packet (finished (err x), line) c e = cc
Carries-finished packet (waiting, line) c e = cc

-- If no write fails and the writes take as many bytes as the packet has, `send` returns, and the
-- line carries the packet.
pub send_delivers :
    (script : List WriteAnswer) (f : CanFrame)
    → NoFailure script
    → length (encode_frame f) ≤ accepted script
    → send script f ≡ (finished (ok tt), encode_frame f)
unfolding send
send_delivers script f ok_all enough =
    let ends = send_loop_ends script (encode_frame f) 0 [] ok_all (omega arith) in
    Carries-finished (encode_frame f) _ (send_loop-Carries script (encode_frame f) 0 [] refl) ends
