-- ===== src/Examples/Process.antt =====
-- A program that uses the driver: what it can do beside the library's calls.
use robstride_driver.Common.{ℕ, zero, suc, Bool, if◌then◌else◌, ok, Call, finished, waiting}
use robstride_driver.Motor.Monad.{World, M, ◌>>=◌, ◌>>◌, pure}

-- `std::this_thread`: what sleeping until a time, or for a time, makes of the world. Nanoseconds.
pub record Thread (W : Type 0) : Type 0 where
  pub sleep_until : ℕ → W → W
  pub sleep_for : ℕ → W → W

-- The driver with its bus, and what the program has put out.
pub record Process (D W O : Type 0) : Type 0 where
  pub world : World D W
  pub output : O

abbrev pub P : Type 0 → Type 0 → Type 0 → Type 0 → Type 0
P D W O A = Process D W O → Call A × Process D W O

-- A call of the library.
abbrev pub call : {D W O A : Type 0} → M D W A → P D W O A
call m p = ((m p.world).0, record p { world = (m p.world).1 })

-- Something is put out.
abbrev pub put : {D W O : Type 0} → (O → O) → P D W O (Unit {0})
put f p = (finished (ok tt), record p { output = f p.output })

abbrev pub rest : {D W O : Type 0} → (W → W) → P D W O (Unit {0})
rest sleep p = (finished (ok tt), record p { world = record (p.world) { bus = sleep p.world.bus } })

-- A round of a `while` loop; `again` is the rest of the loop.
abbrev pub while_round :
    {S : Type 0}
    → (S → Call Bool × S)
    → (S → Call (Unit {0}) × S)
    → (S → Call (Unit {0}) × S)
    → S
    → Call (Unit {0}) × S
while_round test body again = do go ← test; if go then (body >> again) else pure tt

-- The loop, with a number of rounds that it may take at most.
unfoldable pub while :
    {S : Type 0} → ℕ → (S → Call Bool × S) → (S → Call (Unit {0}) × S) → S → Call (Unit {0}) × S
while zero test body = λ p. (waiting, p)
while (suc fuel) test body = while_round test body (while fuel test body)

-- The names of the columns, in the row of headers of a CSV file.
pub data Column : Type 0 where
  t target position velocity torque temperature iq : Column
