-- ===== src/Stub/Uses.antt =====
-- Any sequence of calls on the simulated bus.
use robstride_driver.Common.{ℕ, ◌≡◌, refl, List, [], ◌∷◌, ◌++◌, All, All-append, Option, none, some}
use robstride_driver.Double.{Double}
use robstride_driver.Protocol.Types.{CanFrame}
use robstride_driver.Protocol.Valid.{IsFrame}
use robstride_driver.Stub.{Stub, send, receive, set_fault_bits, set_temperature}
use robstride_driver.Stub.Sound.{IsSound, send-IsSound, set_fault_bits-IsSound}

-- `send` at a time, `receive`, and what a test injects.
pub data Use (D : Type 0) : Type 0 where
  sends : ℕ → CanFrame → Use D
  receives : Use D
  sets_fault_bits : ℕ → ℕ → Use D
  sets_temperature : D → Use D

-- Only frames of the bus are sent.
abbrev pub SendsFrame : {D : Type 0} → Use D → Type 0
SendsFrame (sends now f) = IsFrame f
SendsFrame _ = Unit

abbrev pub given : Option CanFrame → List CanFrame
given none = []
given (some f) = f ∷ []

module _ {D : Type 0} ⦃d : Double D⦄ where
  abbrev pub used : Use D → Stub D → List CanFrame × Stub D
  used (sends now f) stub = ([], send now f stub)
  used receives stub = (given (receive stub).0, (receive stub).1)
  used (sets_fault_bits id bits) stub = ([], set_fault_bits id bits stub)
  used (sets_temperature t) stub = ([], set_temperature t stub)

  -- The frames that are received, and the bus at the end.
  abbrev pub used_all : List (Use D) → Stub D → List CanFrame × Stub D
  used_all [] stub = ([], stub)
  used_all (u ∷ us) stub =
      let now = used u stub in let later = used_all us now.1 in (now.0 ++ later.0, later.1)

  pub receive-IsSound :
      (q : List CanFrame) (stub : Stub D)
      → IsSound stub
      → stub.responses ≡ q
      → All IsFrame (given (receive stub).0) × IsSound (receive stub).1
  receive-IsSound [] stub sound e =
      let same : receive stub ≡ (none, stub) = unfold receive in rw e in rw same (tt, sound)
  receive-IsSound (f ∷ q) stub sound e =
      let front : receive stub ≡ (some f, record stub { responses = q }) = unfold receive in rw e in
      let parts : All IsFrame (f ∷ q) = rw e at sound.queue in
      rw front ((parts.0, tt), record { queue = parts.1; modes = sound.modes })

  used-IsSound :
      (u : Use D) (stub : Stub D)
      → SendsFrame u
      → IsSound stub
      → All IsFrame (used u stub).0 × IsSound (used u stub).1
  used-IsSound (sends now f) stub h sound = (tt, send-IsSound now f stub h sound)
  used-IsSound receives stub h sound = receive-IsSound stub.responses stub sound refl
  used-IsSound (sets_fault_bits id bits) stub h sound =
      (tt, set_fault_bits-IsSound id bits stub sound)
  used-IsSound (sets_temperature t) stub h sound =
      unfold set_temperature in (tt, record { queue = sound.queue; modes = sound.modes })

  -- Whatever is called on the simulated bus, from a state where every queued frame is a frame of
  -- the CAN bus and every mode is a byte, only frames of the CAN bus are received, and the state
  -- stays such a state, as long as only frames of the CAN bus are sent.
  pub used_all-IsSound :
      (us : List (Use D)) (stub : Stub D)
      → All SendsFrame us
      → IsSound stub
      → All IsFrame (used_all us stub).0 × IsSound (used_all us stub).1
  used_all-IsSound [] stub h sound = (tt, sound)
  used_all-IsSound (u ∷ us) stub (h, hs) sound =
      let now = used-IsSound u stub h sound in
      let later = used_all-IsSound us (used u stub).1 hs now.1 in
      (All-append IsFrame (used u stub).0 _ now.0 later.0, later.1)
