-- ===== src/AtSerial/Parser/Packets.antt =====
-- The parser on what `encode_frame` writes.
use robstride_driver.Common.{
  ℕ, zero, suc, ◌+◌, ◌%◌, ◌^◌, ◌-◌, ◌≤◌, ◌≡◌, ◌≢◌, refl, ap, ◌∙◌, arith, List, [], ◌∷◌, ◌++◌,
  length, get_or, take, drop, length-append, some, map, All,
}
use mathlib.Core.List.{append_assoc}
use robstride_driver.Common.Bits.{u8, shr}
use robstride_driver.Protocol.Types.{CanFrame, bytes8, copy8}
use robstride_driver.AtSerial.Framing.{encode_frame, decode_packet, packed_id, header_size}
use robstride_driver.AtSerial.Framing.RoundTrip.{unpack-packed_id}
use robstride_driver.AtSerial.Parser.{skip, accept, total_size, inspect, poll}
use robstride_driver.AtSerial.Parser.Rounds.{poll_skip, poll_accept}
use robstride_driver.AtSerial.Parser.Stream.{
  drain, drain-some, drain_lem, poll_shrinks, flat, receive_chunks, receive_chunks_lem,
}

-- The serial line carries 29 bits of the identifier and `dlc` bytes of the data.
abbrev pub carried : CanFrame → CanFrame
carried f = record {
  id = f.id % 2 ^ 29;
  payload = copy8 (take f.dlc (bytes8 f.payload));
  dlc = f.dlc;
}

module _ {ℓ} {A : Type ℓ} where
  length-take_le : (n : ℕ) (xs : List A) → n ≤ length xs → length (take n xs) ≡ n
  length-take_le zero xs h = refl
  length-take_le (suc n) [] h = absurd (omega arith)
  length-take_le (suc n) (x ∷ xs) h = omega (arith, length-take_le n xs (omega arith))

  take-length : (xs ys : List A) → take (length xs) (xs ++ ys) ≡ xs
  take-length [] ys = refl
  take-length (x ∷ xs) ys = ap (◌∷◌ x) (take-length xs ys)

  drop-length_two :
      (xs : List A) (y w : A) (ys : List A) → drop (suc (suc (length xs))) (xs ++ y ∷ w ∷ ys) ≡ ys
  drop-length_two [] y w ys = refl
  drop-length_two (x ∷ xs) y w ys = drop-length_two xs y w ys

  get_or-length :
      (xs : List A) (y : A) (ys : List A) (z : A) → get_or (xs ++ y ∷ ys) (length xs) z ≡ y
  get_or-length [] y ys z = refl
  get_or-length (x ∷ xs) y ys z = get_or-length xs y ys z

  get_or-length-suc :
      (xs : List A) (y w : A) (ys : List A) (z : A)
      → get_or (xs ++ y ∷ w ∷ ys) (suc (length xs)) z ≡ w
  get_or-length-suc [] y w ys z = refl
  get_or-length-suc (x ∷ xs) y w ys z = get_or-length-suc xs y w ys z

-- A packet with the bytes `body` of data, before `rest`.
module _ (a b c e n : ℕ) (body rest : List ℕ) (fits : length body ≡ n) (small : n ≤ 8) where
  abbrev packet : List ℕ
  packet = b'A' ∷ b'T' ∷ a ∷ b ∷ c ∷ e ∷ n ∷ (body ++ b'\r' ∷ b'\n' ∷ rest)

  packet_tail :
      (get_or packet (7 + n + 2 - 2) 0 ≡ b'\r') × (get_or packet (7 + n + 2 - 1) 0 ≡ b'\n')
  packet_tail =
      let i : 7 + n + 2 - 2 ≡ suc (suc (suc (suc (suc (suc (suc n)))))) = omega arith in
      let j : 7 + n + 2 - 1 ≡ suc (suc (suc (suc (suc (suc (suc (suc n))))))) = omega arith in
      rw (i, j, ← fits) (get_or-length body b'\r' _ 0, get_or-length-suc body b'\r' b'\n' rest 0)

  packet-length : 7 + n + 2 ≤ length packet
  packet-length = omega (arith, length-append body (b'\r' ∷ b'\n' ∷ rest))

  packet-accept : inspect packet ≡ accept
  unfolding inspect
  packet-accept = ground (arith, packet_tail, packet-length)

  packet-rest : drop (total_size packet) packet ≡ rest
  packet-rest =
      let i : 7 + n + 2 ≡ suc (suc (suc (suc (suc (suc (suc (suc (suc n)))))))) = omega arith in
      rw (i, ← fits) (drop-length_two body b'\r' b'\n' rest)

  packet_body : take n (drop header_size packet) ≡ body
  packet_body = rw (← fits) (take-length body _)

-- A packet at the front of the buffer gives its frame, with the identifier modulo 2 ^ 29 and the
-- data cut to `dlc` bytes, and exactly the bytes behind the packet stay. The frame has at most 8
-- bytes of data.
pub poll-encode_frame :
    (f : CanFrame) (rest : List ℕ)
    → f.dlc ≤ 8
    → poll (encode_frame f ++ rest) ≡ (some (carried f), rest)
unfolding encode_frame
poll-encode_frame f rest h =
    let p = packed_id f.id in
    let body = take f.dlc (bytes8 f.payload) in
    let fits : length body ≡ f.dlc = length-take_le f.dlc (bytes8 f.payload) h in
    let b2 = u8 (shr p 24) in
    let b3 = u8 (shr p 16) in
    let b4 = u8 (shr p 8) in
    let b5 = u8 p in
    let whole = packet b2 b3 b4 b5 f.dlc body rest fits h in
    let found = poll_accept whole (packet-accept b2 b3 b4 b5 f.dlc body rest fits h) in
    let frame : decode_packet whole ≡ carried f =
      unfold decode_packet in
      rw (unpack-packed_id f.id, packet_body b2 b3 b4 b5 f.dlc body rest fits h) in
    let left = packet-rest b2 b3 b4 b5 f.dlc body rest fits h in
    rw append_assoc (rw (frame, left) at found)

abbrev pub IsSendable : CanFrame → Type 0
IsSendable f = f.dlc ≤ 8

abbrev pub encode_all : List CanFrame → List ℕ
encode_all [] = []
encode_all (f ∷ fs) = encode_frame f ++ encode_all fs

drain-encode_all :
    (fs : List CanFrame) → All IsSendable fs → drain (encode_all fs) ≡ (map carried fs, [])
drain-encode_all [] h = drain_lem [] ∙ unfold poll in refl
drain-encode_all (f ∷ fs) (h, hs) = rw (
  drain-some (encode_frame f ++ encode_all fs) (poll-encode_frame f (encode_all fs) h),
  drain-encode_all fs hs,
)

-- However the packets of some frames are cut into chunks, a client that polls until there is no
-- frame receives these frames in their order, each as the serial line carries it (29 bits of the
-- identifier, `dlc` bytes of the data), and no byte is left over. The frames have at most 8 bytes
-- of data.
pub receive_chunks-encode_all :
    (fs : List CanFrame) (cs : List (List ℕ))
    → All IsSendable fs
    → flat cs ≡ encode_all fs
    → receive_chunks [] cs ≡ (map carried fs, [])
receive_chunks-encode_all fs cs h e =
    receive_chunks_lem [] cs (drain_lem [] ∙ unfold poll in refl, omega arith)
    ∙ ap drain e
    ∙ drain-encode_all fs h

not_a-skip : (b : ℕ) (xs : List ℕ) → b ≢ b'A' → 8 ≤ length xs → inspect (b ∷ xs) ≡ skip
unfolding inspect
not_a-skip b xs h n = ground arith

-- Noise in front of a buffer is skipped if none of its bytes is an `A`: the frame and the rest are
-- those of the buffer without the noise.
pub poll_skips :
    (noise xs : List ℕ) (f : CanFrame) (r : List ℕ)
    → All (λ b. b ≢ b'A') noise
    → poll xs ≡ (some f, r)
    → poll (noise ++ xs) ≡ (some f, r)
poll_skips [] xs f r h e = e
poll_skips (b ∷ noise) xs f r (hb, hs) e =
    let more : 8 ≤ length (noise ++ xs) =
      omega (arith, length-append noise xs, poll_shrinks xs e) in
    poll_skip b (noise ++ xs) (not_a-skip b (noise ++ xs) hb more) ∙ poll_skips noise xs f r hs e
