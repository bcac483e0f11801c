-- ===== src/Unwrapper/Tracking.antt =====
-- The unwrapper follows the true position, in exact arithmetic: the numbers are fixed-point
-- decimals, whose sums, differences and halves do not round here.
use robstride_driver.Common.{
  ℕ, zero, suc, ◌+◌, ◌*◌, ◌≤◌, ◌<◌, ◌≡◌, ◌⊎◌, inl, inr, refl, arith, List, [], ◌∷◌, some, ap,
}
use mathlib.Core.Path.{ap₂}
use robstride_driver.Common.Int.{
  pos, pos_part, neg_part, ◌+ℤ◌, ◌-ℤ◌, +ℤ_parts, -ℤ_parts, eq_of_parts,
}
use robstride_driver.Double.Micro.{Micro, micro_double}
use robstride_driver.Unwrapper.{
  PositionUnwrapper, next_offset, update, updates, updated, position, reset, make_unwrapper,
}

-- `x` is a whole multiple of `s`.
abbrev pub IsMultiple : ℕ → Micro → Type 0
IsMultiple s x = (n : ℕ) × ((pos_part x ≡ neg_part x + n * s) ⊎ (neg_part x ≡ pos_part x + n * s))

-- `w` is the wrapped form of the position `p`: whole turns apart, and in the middle span.
pub record IsWrapped (s : ℕ) (p w : Micro) : Type 0 where
  pub turns : IsMultiple s (p -ℤ w)
  pub at_most : 2 * pos_part w ≤ s
  pub at_least : 2 * neg_part w ≤ s

-- From `p` to `q` is less than half the span.
pub record IsShort (s : ℕ) (p q : Micro) : Type 0 where
  pub forward : 2 * (pos_part q + neg_part p) < 2 * (pos_part p + neg_part q) + s
  pub backward : 2 * (pos_part p + neg_part q) < 2 * (pos_part q + neg_part p) + s

-- A difference of multiples that is less than two spans is none, or one span up or down.
turns_differ :
    (n m s : ℕ)
    → n * s < m * s + 2 * s
    → m * s < n * s + 2 * s
    → (n * s ≡ m * s) ⊎ (n * s ≡ m * s + s) ⊎ (m * s ≡ n * s + s)
turns_differ zero zero s h k = inl refl
turns_differ zero (suc zero) s h k = inr (inr (omega arith))
turns_differ zero (suc (suc m)) s h k = absurd (omega arith)
turns_differ (suc zero) zero s h k = inr (inl (omega arith))
turns_differ (suc (suc n)) zero s h k = absurd (omega arith)
turns_differ (suc n) (suc m) s h k =
    let ih = turns_differ n m s (omega arith) (omega arith) in omega arith

turns_add : (n m s : ℕ) → n * s + m * s < 2 * s → (n * s + m * s ≡ 0) ⊎ (n * s + m * s ≡ s)
turns_add zero zero s h = inl (omega arith)
turns_add zero (suc zero) s h = inr (omega arith)
turns_add zero (suc (suc m)) s h = absurd (omega arith)
turns_add (suc zero) zero s h = inr (omega arith)
turns_add (suc (suc n)) zero s h = absurd (omega arith)
turns_add (suc n) (suc m) s h = absurd (omega arith)

-- How the turns of two samples differ: `q - w` is `p - v`, or one span more, or one span less.
abbrev Drift : ℕ → Micro → Micro → Micro → Micro → Type 0
Drift s p q v w =
    let new = pos_part q + neg_part w + (neg_part p + pos_part v) in
    let old = neg_part q + pos_part w + (pos_part p + neg_part v) in
    (new ≡ old) ⊎ (new ≡ old + s) ⊎ (old ≡ new + s)

drift :
    (s : ℕ) (p q v w : Micro) → IsWrapped s p v → IsWrapped s q w → IsShort s p q → Drift s p q v w
drift s p q v w wp wq short = go wp.turns.1 wq.turns.1
  where
    m : ℕ
    m = wp.turns.0

    n : ℕ
    n = wq.turns.0

    go :
        (pos_part (p -ℤ v) ≡ neg_part (p -ℤ v) + m * s)
          ⊎ (neg_part (p -ℤ v) ≡ pos_part (p -ℤ v) + m * s)
        → (pos_part (q -ℤ w) ≡ neg_part (q -ℤ w) + n * s)
          ⊎ (neg_part (q -ℤ w) ≡ pos_part (q -ℤ w) + n * s)
        → Drift s p q v w
    go (inl a) (inl b) =
        let few =
          turns_differ n m s (omega (arith, -ℤ_parts p v, -ℤ_parts q w))
            (omega (arith, -ℤ_parts p v, -ℤ_parts q w)) in
        omega (arith, few, -ℤ_parts p v, -ℤ_parts q w)
    go (inr a) (inr b) =
        let few =
          turns_differ n m s (omega (arith, -ℤ_parts p v, -ℤ_parts q w))
            (omega (arith, -ℤ_parts p v, -ℤ_parts q w)) in
        omega (arith, few, -ℤ_parts p v, -ℤ_parts q w)
    go (inl a) (inr b) =
        let few = turns_add n m s (omega (arith, -ℤ_parts p v, -ℤ_parts q w)) in
        omega (arith, few, -ℤ_parts p v, -ℤ_parts q w)
    go (inr a) (inl b) =
        let few = turns_add n m s (omega (arith, -ℤ_parts p v, -ℤ_parts q w)) in
        omega (arith, few, -ℤ_parts p v, -ℤ_parts q w)

-- One sample: if the result was off by `c` before, it is off by `c` after.
next_offset_tracks :
    (s : ℕ) (p q v w offset c : Micro)
    → IsWrapped s p v
    → IsWrapped s q w
    → IsShort s p q
    → v +ℤ offset ≡ p +ℤ c
    → w +ℤ next_offset (pos s) offset (some v) w ≡ q +ℤ c
unfolding next_offset
next_offset_tracks zero p q v w offset c wp wq short e =
    absurd (omega (arith, short.forward, short.backward))
next_offset_tracks (suc t) p q v w offset c wp wq short e =
    let s = suc t in
    ground (
      arith,
      drift s p q v w wp wq short,
      short.forward,
      short.backward,
      -ℤ_parts w v,
      -ℤ_parts offset (pos s),
      +ℤ_parts offset (pos s),
      +ℤ_parts v offset,
      +ℤ_parts p c,
      +ℤ_parts q c,
      +ℤ_parts w offset,
      +ℤ_parts w (offset -ℤ pos s),
      +ℤ_parts w (offset +ℤ pos s),
      eq_of_parts (w +ℤ offset) (q +ℤ c),
      eq_of_parts (w +ℤ (offset -ℤ pos s)) (q +ℤ c),
      eq_of_parts (w +ℤ (offset +ℤ pos s)) (q +ℤ c),
    )

-- A sample is a true position and its wrapped form. Each is a short step from the one before.
abbrev pub Sample : Type 0
Sample = Micro × Micro

abbrev pub Follows : ℕ → Micro → List Sample → Type 0
Follows s p [] = Unit
Follows s p ((q, w) ∷ rest) = IsWrapped s q w × IsShort s p q × Follows s q rest

abbrev pub wrapped_forms : List Sample → List Micro
wrapped_forms [] = []
wrapped_forms ((p, w) ∷ rest) = w ∷ wrapped_forms rest

-- The true positions, each with the same correction.
abbrev pub corrected : Micro → List Sample → List Micro
corrected c [] = []
corrected c ((p, w) ∷ rest) = (p +ℤ c) ∷ corrected c rest

updates-corrected :
    (s : ℕ) (p v offset c : Micro) (samples : List Sample)
    → IsWrapped s p v
    → v +ℤ offset ≡ p +ℤ c
    → Follows s p samples
    → updates
        (record { span = pos s; offset = offset; last_wrapped = some v })
        (wrapped_forms samples)
      ≡ corrected c samples
unfolding updates update
updates-corrected s p v offset c [] wp e f = refl
updates-corrected s p v offset c ((q, w) ∷ rest) wp e (wq, short, f) =
    let now = next_offset_tracks s p q v w offset c wp wq short e in
    ap₂ ◌∷◌ now (updates-corrected s q w (next_offset (pos s) offset (some v) w) c rest wq now f)

-- The last of a list that starts with `x`.
abbrev pub last_from : Micro → List Micro → Micro
last_from x [] = x
last_from x (y ∷ ys) = last_from y ys

position-updated :
    (s : ℕ) (p v offset c : Micro) (samples : List Sample)
    → IsWrapped s p v
    → v +ℤ offset ≡ p +ℤ c
    → Follows s p samples
    → position (
        updated
          (record { span = pos s; offset = offset; last_wrapped = some v })
          (wrapped_forms samples))
      ≡ some (last_from (p +ℤ c) (corrected c samples))
unfolding updated update position
position-updated s p v offset c [] wp e f = ap some e
position-updated s p v offset c ((q, w) ∷ rest) wp e (wq, short, f) =
    let now = next_offset_tracks s p q v w offset c wp wq short e in
    position-updated s q w (next_offset (pos s) offset (some v) w) c rest wq now f

-- In exact arithmetic, an unwrapper follows the true position, new or after `reset` with any
-- history: if each sample is the position modulo the span, in the middle span, and the steps are
-- less than half the span, all results of `update` differ from the true positions by one constant,
-- the turns made before the first sample, and `position` is the last of them afterwards.
pub updates_track :
    (u : PositionUnwrapper Micro) (s : ℕ) (p v : Micro) (samples : List Sample)
    → u.span ≡ pos s
    → IsWrapped s p v
    → Follows s p samples
    → let forms = wrapped_forms ((p, v) ∷ samples) in
      let track = corrected (v -ℤ p) ((p, v) ∷ samples) in
      (updates (reset u) forms ≡ track)
      × (updates (make_unwrapper (pos s)) forms ≡ track)
      × (position (updated (reset u) forms) ≡ some (last_from v track))
unfolding updates updated update make_unwrapper next_offset reset
updates_track u s p v samples span wp f =
    let first : v +ℤ pos 0 ≡ p +ℤ (v -ℤ p) =
      omega (arith, -ℤ_parts v p, +ℤ_parts v (pos 0), +ℤ_parts p (v -ℤ p), eq_of_parts) in
    let track = ap₂ ◌∷◌ first (updates-corrected s p v (pos 0) (v -ℤ p) samples wp first f) in
    rw span (track, track, position-updated s p v (pos 0) (v -ℤ p) samples wp first f)
