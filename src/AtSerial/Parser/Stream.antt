-- ===== src/AtSerial/Parser/Stream.antt =====
-- A client that polls the parser until no frame is left, and a stream that arrives in chunks.
use robstride_driver.Common.{
  ℕ, zero, suc, ◌+◌, ◌≤◌, ◌<◌, ◌≡◌, refl, sym, ap, ◌∙◌, arith, List, [], ◌∷◌, ◌++◌, length,
  length-drop, Option, none, some, ◌⊎◌, inl, inr,
}
use mathlib.Core.List.{append_assoc, append-nil}
use robstride_driver.Protocol.Types.{CanFrame}
use robstride_driver.AtSerial.Parser.{wait, total_size, inspect, poll, push}
use robstride_driver.AtSerial.Parser.Rounds.{
  Verdict-cases, accept-le, poll_wait, poll_skip, poll_accept, poll-append_some, poll-append_none,
}

abbrev pub Output : Type 0
Output = List CanFrame × List ℕ

abbrev cons_frame : CanFrame → Output → Output
cons_frame f (fs, r) = (f ∷ fs, r)

abbrev after_poll : (List ℕ → Output) → Option CanFrame × List ℕ → Output
after_poll again (none, r) = ([], r)
after_poll again (some f, r) = cons_frame f (again r)

-- Polls until no frame comes, at most `n` times.
drain_loop : ℕ → List ℕ → Output
drain_loop zero buffer = ([], buffer)
drain_loop (suc n) buffer = after_poll (drain_loop n) (poll buffer)

-- Each frame takes a byte at least, so that many polls are enough (`drain_lem`).
unfoldable pub drain : List ℕ → Output
unfolding drain_loop
drain buffer = drain_loop (suc (length buffer)) buffer

pub poll-cases :
    (xs : List ℕ)
    → ((r : List ℕ) × (poll xs ≡ (none, r)))
      ⊎ ((f : CanFrame) × (r : List ℕ) × (poll xs ≡ (some f, r)))
poll-cases xs = go (poll xs) refl
  where
    go :
        (p : Option CanFrame × List ℕ)
        → poll xs ≡ p
        → ((r : List ℕ) × (poll xs ≡ (none, r)))
          ⊎ ((f : CanFrame) × (r : List ℕ) × (poll xs ≡ (some f, r)))
    go (none, r) e = inl (r, e)
    go (some f, r) e = inr (f, r, e)

-- A frame takes nine bytes at least.
pub poll_shrinks :
    (xs : List ℕ) {f : CanFrame} {r : List ℕ} → poll xs ≡ (some f, r) → length r + 9 ≤ length xs
poll_shrinks [] e = unfold poll in cc
poll_shrinks (x ∷ xs) {f} {r} e = elim (Verdict-cases (inspect (x ∷ xs))) [
  | inl w ↦ cc (poll_wait x xs w)
  | inr (inl s) ↦ omega (arith, poll_shrinks xs (sym (poll_skip x xs s) ∙ e))
  | inr (inr a) ↦
      let size = total_size (x ∷ xs) in
      let same : r ≡ _ =
        ap (λ (p : Option CanFrame × List ℕ). p.1) (sym e ∙ poll_accept (x ∷ xs) a) in
      rw same (omega (arith, length-drop size (x ∷ xs), accept-le (x ∷ xs) a))
]

waits-lt : (xs : List ℕ) → inspect xs ≡ wait → length xs < 17
unfolding inspect
waits-lt xs e = ground arith

-- What a call without a frame leaves in the buffer is shorter than the longest packet.
pub poll_residue : (xs : List ℕ) {r : List ℕ} → poll xs ≡ (none, r) → length r < 17
poll_residue [] e = unfold poll in ground arith
poll_residue (x ∷ xs) {r} e = elim (Verdict-cases (inspect (x ∷ xs))) [
  | inl w ↦
      let same : r ≡ _ = ap (λ (p : Option CanFrame × List ℕ). p.1) (sym e ∙ poll_wait x xs w) in
      rw same (waits-lt (x ∷ xs) w)
  | inr (inl s) ↦ poll_residue xs (sym (poll_skip x xs s) ∙ e)
  | inr (inr a) ↦ cc (poll_accept (x ∷ xs) a)
]

drain_loop_enough :
    (n m : ℕ) (xs : List ℕ) → length xs < n → length xs < m → drain_loop n xs ≡ drain_loop m xs
unfolding drain_loop
drain_loop_enough zero m xs p q = absurd (omega arith)
drain_loop_enough (suc n) zero xs p q = absurd (omega arith)
drain_loop_enough (suc n) (suc m) xs p q = elim (poll-cases xs) [
  | inl (r, e) ↦ rw e
  | inr (f, r, e) ↦ rw e (
      ap (cons_frame f) (
        drain_loop_enough n m r (omega (arith, poll_shrinks xs e))
          (omega (arith, poll_shrinks xs e))))
]

-- `drain` is the loop that ends when `poll` gives no frame.
pub drain_lem : (xs : List ℕ) → drain xs ≡ after_poll drain (poll xs)
unfolding drain drain_loop
drain_lem xs = elim (poll-cases xs) [
  | inl (r, e) ↦ rw e
  | inr (f, r, e) ↦ rw e (
      ap (cons_frame f) (
        drain_loop_enough (length xs) (suc (length r)) r (omega (arith, poll_shrinks xs e))
          (omega arith)))
]

drain-none : (xs : List ℕ) {r : List ℕ} → poll xs ≡ (none, r) → drain xs ≡ ([], r)
drain-none xs e = rw (drain_lem xs, e)

pub drain-some :
    (xs : List ℕ) {f : CanFrame} {r : List ℕ}
    → poll xs ≡ (some f, r)
    → drain xs ≡ (f ∷ (drain r).0, (drain r).1)
drain-some xs e = rw (drain_lem xs, e)

-- What stays behind is looked at again with the bytes that come later, and only then.
drain-append_below :
    (n : ℕ) (xs ys : List ℕ)
    → length xs < n
    → let out = drain xs in
      let rest = drain (out.1 ++ ys) in drain (xs ++ ys) ≡ (out.0 ++ rest.0, rest.1)
drain-append_below zero xs ys h = absurd (omega arith)
drain-append_below (suc n) xs ys h = elim (poll-cases xs) [
  | inl (r, e) ↦
      rw (drain-none xs e)
        (drain_lem (xs ++ ys) ∙ rw (poll-append_none xs ys e) (sym (drain_lem (r ++ ys))))
  | inr (f, r, e) ↦ rw (
    drain-some xs e,
    drain-some (xs ++ ys) (poll-append_some xs ys e),
    drain-append_below n r ys (omega (arith, poll_shrinks xs e)),
  )
]

pub drain-append :
    (xs ys : List ℕ)
    → let out = drain xs in
      let rest = drain (out.1 ++ ys) in drain (xs ++ ys) ≡ (out.0 ++ rest.0, rest.1)
drain-append xs ys = drain-append_below (suc (length xs)) xs ys (omega arith)

-- No frame is left in what a drained parser keeps, and that is at most 16 bytes.
abbrev pub IsIdle : List ℕ → Type 0
IsIdle buffer = (drain buffer ≡ ([], buffer)) × (length buffer < 17)

drain-IsIdle_below : (n : ℕ) (xs : List ℕ) → length xs < n → IsIdle (drain xs).1
drain-IsIdle_below zero xs h = absurd (omega arith)
drain-IsIdle_below (suc n) xs h = elim (poll-cases xs) [
  | inl (r, e) ↦
      let again : poll r ≡ (none, r) = simp append-nil at (sym (poll-append_none xs [] e)) ∙ e in
      rw (drain-none xs e) (drain-none r again, poll_residue xs e)
  | inr (f, r, e) ↦ rw (drain-some xs e) (drain-IsIdle_below n r (omega (arith, poll_shrinks xs e)))
]

-- A parser from which all frames were taken gives no further frame until more bytes come, and
-- keeps at most 16 bytes.
pub drain-IsIdle : (xs : List ℕ) → IsIdle (drain xs).1
drain-IsIdle xs = drain-IsIdle_below (suc (length xs)) xs (omega arith)

abbrev pub flat {ℓ} : {A : Type ℓ} → List (List A) → List A
flat [] = []
flat (c ∷ cs) = c ++ flat cs

-- The bytes arrive in chunks; after each the client takes all the frames there are.
unfoldable pub receive_chunks : List ℕ → List (List ℕ) → Output
receive_chunks buffer [] = ([], buffer)
receive_chunks buffer (c ∷ cs) =
    let out = drain (push buffer c) in
    let rest = receive_chunks out.1 cs in (out.0 ++ rest.0, rest.1)

-- However the bytes of a stream are cut into chunks, a client that takes all frames after each
-- chunk gets the same frames, and the parser keeps the same bytes, as if the bytes had come at
-- once. The parser holds no frame at the start.
pub receive_chunks_lem :
    (buffer : List ℕ) (cs : List (List ℕ))
    → IsIdle buffer
    → receive_chunks buffer cs ≡ drain (buffer ++ flat cs)
unfolding receive_chunks push
receive_chunks_lem buffer [] idle = rw append-nil (sym idle.0)
receive_chunks_lem buffer (c ∷ cs) idle = rw (
  ← append_assoc buffer c (flat cs),
  drain-append (buffer ++ c) (flat cs),
  receive_chunks_lem (drain (buffer ++ c)).1 cs (drain-IsIdle (buffer ++ c)),
)
