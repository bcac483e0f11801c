-- ===== src/AtSerial/Delivery.antt =====
-- The library's frames over the serial line.
use robstride_driver.Common.{ℕ, ◌%◌, ◌^◌, ◌≡◌, ◌∙◌, refl, arith, List, [], ◌∷◌, map, All, take}
use robstride_driver.Double.{Double}
use robstride_driver.Protocol.Types.{CanFrame, bytes8, copy8}
use robstride_driver.Protocol.Valid.{IsFrame, Made, Fits, frame, frame-IsFrame}
use robstride_driver.AtSerial.Parser.Stream.{flat, receive_chunks}
use robstride_driver.AtSerial.Parser.Packets.{
  carried, IsSendable, encode_all, receive_chunks-encode_all,
}

-- Nothing of a frame of the bus is lost in a packet.
pub carried-eq : (f : CanFrame) → IsFrame f → carried f ≡ f
carried-eq f h =
    let id : f.id % 2 ^ 29 ≡ f.id = omega (arith, h.id_bits) in
    λ i. record { id = id i; payload = copy8 (take (h.full i) (bytes8 f.payload)); dlc = f.dlc }

map-carried : (fs : List CanFrame) → All IsFrame fs → map carried fs ≡ fs
map-carried [] h = refl
map-carried (f ∷ fs) (h, hs) = rw (carried-eq f h, map-carried fs hs)

All-IsSendable : (fs : List CanFrame) → All IsFrame fs → All IsSendable fs
All-IsSendable [] h = tt
All-IsSendable (f ∷ fs) (h, hs) = (omega (arith, h.full), All-IsSendable fs hs)

module _ {D : Type 0} ⦃d : Double D⦄ where
  All-IsFrame : (ms : List (Made D)) → All Fits ms → All IsFrame (map frame ms)
  All-IsFrame [] h = tt
  All-IsFrame (m ∷ ms) (h, hs) = (frame-IsFrame m h, All-IsFrame ms hs)

  -- Frames that the library makes of arguments of their C++ types, encoded one after another and
  -- cut into chunks in any way, are received over the serial line exactly as they were, in order,
  -- and nothing is left over.
  pub receive_chunks-made :
      (ms : List (Made D)) (cs : List (List ℕ))
      → All Fits ms
      → flat cs ≡ encode_all (map frame ms)
      → receive_chunks [] cs ≡ (map frame ms, [])
  receive_chunks-made ms cs h e =
      let valid = All-IsFrame ms h in
      receive_chunks-encode_all (map frame ms) cs (All-IsSendable (map frame ms) valid) e
      ∙ rw (map-carried (map frame ms) valid)
