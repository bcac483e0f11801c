-- ===== src/SocketCan/Filter.antt =====
-- What goes through the socket and its filter.
use robstride_driver.Common.{
  ◌<◌, ℕ, ◌+◌, ◌*◌, ◌/◌, ◌%◌, ◌^◌, ◌≡◌, ◌↔◌, refl, arith, bit_and, Option, none, some, ok, ◌==◌,
  if◌then◌else◌, ltb, false, ◌∙◌, sym, ap, Bool-cases, inl, inr,
}
use robstride_driver.Common.Bits.{
  IsByte, IsU32, shl, bit_or-shl_right, mask_29, mask_ff, mask_high, mask_high_second,
}
use robstride_driver.Protocol.Types.{CanFrame}
use robstride_driver.Protocol.Ids.{get_source_motor_id}
use robstride_driver.SocketCan.{
  timeval_of, RawFrame, CanFilter, can_eff_flag, raw_size, motor_id_filter, raw_frame, send, read,
  receive,
}

-- The socket carries 29 bits of the identifier.
abbrev pub carried_raw : CanFrame → CanFrame
carried_raw f = record f { id = f.id % 2 ^ 29 }

pub raw_frame-can_id : (f : CanFrame) → (raw_frame f).can_id ≡ 2 ^ 31 + f.id % 2 ^ 29
unfolding raw_frame
raw_frame-can_id f =
    rw (mask_29 f.id) (omega (arith, bit_or-shl_right 31 1 (f.id % 2 ^ 29) (omega arith)))

extended :
    (raw : RawFrame)
    → IsU32 raw.can_id
    → (bit_and raw.can_id can_eff_flag == 0) ≡ ltb raw.can_id (2 ^ 31)
extended raw h = ground (arith, mask_high raw.can_id h)

-- A complete frame is received exactly if it is extended.
receive_complete :
    (raw : RawFrame)
    → IsU32 raw.can_id
    → receive (read raw_size raw)
      ≡ ok (
          if ltb raw.can_id (2 ^ 31)
          then none
          else some (record { id = raw.can_id % 2 ^ 29; payload = raw.bytes; dlc = raw.can_dlc }))
unfolding receive
receive_complete raw h = rw (extended raw h, mask_29 raw.can_id) (ground arith)

pub receive-raw_frame :
    (f : CanFrame) → receive (read raw_size (raw_frame f)) ≡ ok (some (carried_raw f))
receive-raw_frame f =
    let id = raw_frame-can_id f in
    let high : ltb (raw_frame f).can_id (2 ^ 31) ≡ false = ground (arith, id) in
    let low : (raw_frame f).can_id % 2 ^ 29 ≡ f.id % 2 ^ 29 = omega (arith, id) in
    receive_complete (raw_frame f) (omega (arith, id)) ∙ rw (high, low) (unfold raw_frame in refl)

-- A frame that a socket wrote to the bus and another reads in full arrives with its data, its
-- length and the low 29 bits of its identifier.
pub receive-send :
    (written : Option ℕ) (f : CanFrame) (raw : RawFrame)
    → (send written f).1 ≡ some raw
    → receive (read raw_size raw) ≡ ok (some (carried_raw f))
unfolding send
receive-send none f raw e = cc
receive-send (some n) f raw e = elim (Bool-cases (n == raw_size)) [
  | inl full ↦
      let found : some (raw_frame f) ≡ some raw = rw full at e in
      let same : raw_frame f ≡ raw = cc in rw (← same) (receive-raw_frame f)
  | inr short ↦ let nothing : none ≡ some raw = rw short at e in cc
]

-- The kernel's documented test of a filter.
abbrev pub Passes : CanFilter → RawFrame → Type 0
Passes filter raw = bit_and raw.can_id filter.can_mask ≡ bit_and filter.can_id filter.can_mask

motor_id_filter_sum :
    (motor_id : ℕ) → IsByte motor_id → (motor_id_filter motor_id).can_id ≡ 2 ^ 31 + motor_id * 2 ^ 8
unfolding motor_id_filter
motor_id_filter_sum motor_id h = omega (arith, bit_or-shl_right 31 1 (shl motor_id 8) (omega arith))

-- The test of the filter as arithmetic on the identifier.
Passes-sum :
    (motor_id : ℕ) (raw : RawFrame)
    → IsByte motor_id
    → IsU32 raw.can_id
    → Passes (motor_id_filter motor_id) raw ↔ (
        raw.can_id / 2 ^ 31 * 2 ^ 31 + raw.can_id / 2 ^ 8 % 2 ^ 8 * 2 ^ 8
        ≡ 2 ^ 31 + motor_id * 2 ^ 8)
Passes-sum motor_id raw h g =
    let sum = motor_id_filter_sum motor_id h in
    let left : bit_and raw.can_id (motor_id_filter motor_id).can_mask
        ≡ raw.can_id / 2 ^ 31 * 2 ^ 31 + raw.can_id / 2 ^ 8 % 2 ^ 8 * 2 ^ 8 =
      unfold motor_id_filter in mask_high_second raw.can_id g in
    let right : bit_and (motor_id_filter motor_id).can_id (motor_id_filter motor_id).can_mask
        ≡ 2 ^ 31 + motor_id * 2 ^ 8 =
      unfold motor_id_filter in
      (mask_high_second (motor_id_filter motor_id).can_id (omega (arith, sum))
        ∙ omega (arith, sum)) in
    rw (left, right) ((λ e. e), (λ e. e))

source_of :
    (raw : RawFrame) (f : CanFrame)
    → f.id ≡ raw.can_id % 2 ^ 29
    → get_source_motor_id f ≡ raw.can_id / 2 ^ 8 % 2 ^ 8
unfolding get_source_motor_id
source_of raw f e = rw (mask_ff (f.id / 2 ^ 8)) (omega (arith, e))

-- For a raw frame that is read in full, the test of the filter, `id & mask == filter_id & mask`,
-- holds exactly if `receive` returns a frame and bits 15-8 of its identifier are the motor's id.
-- The motor's id is a byte and the raw identifier has 32 bits.
pub motor_id_filter-Passes :
    (motor_id : ℕ) (raw : RawFrame)
    → IsByte motor_id
    → IsU32 raw.can_id
    → Passes (motor_id_filter motor_id) raw
      ↔ (f : CanFrame) × (receive (read raw_size raw) ≡ ok (some f))
        × (get_source_motor_id f ≡ motor_id)
motor_id_filter-Passes motor_id raw h g =
    let received = receive_complete raw g in
    let test = Passes-sum motor_id raw h g in
    elim (Bool-cases (ltb raw.can_id (2 ^ 31))) [
      | inl low ↦
          let ignored : receive (read raw_size raw) ≡ ok none = rw low at received in
          ((λ p. absurd (ground (arith, test.0 p))), (λ (f, e, source). cc))
      | inr high ↦
          let frame : CanFrame = record {
            id = raw.can_id % 2 ^ 29;
            payload = raw.bytes;
            dlc = raw.can_dlc;
          } in
          let found : receive (read raw_size raw) ≡ ok (some frame) = rw high at received in
          let sum = λ (f : CanFrame) (e : f.id ≡ raw.can_id % 2 ^ 29). source_of raw f e in
          (
            (λ p. (frame, found, ground (arith, test.0 p, sum frame refl))),
            (λ (f, e, source).
                let same : frame ≡ f = cc in
                test.1 (ground (arith, sum f (ap (λ (x : CanFrame). x.id) (sym same))))),
          )
    ]

-- The timeout that `receive` passes to `select` is the given number of milliseconds, with less
-- than a million in its field for microseconds.
pub timeval_of_lem :
    (timeout : ℕ)
    → let tv = timeval_of timeout in
      (tv.tv_usec < 1000000) × (tv.tv_sec * 1000000 + tv.tv_usec ≡ timeout * 1000)
unfolding timeval_of
timeval_of_lem timeout = (omega arith, omega arith)
