-- ===== src/AtSerial/Opening.antt =====
-- The constructor of `AtSerialCanInterface`, with the answers of the system calls.
use robstride_driver.Common.{
  ℕ, refl, Bool, true, false, List, ◌∷◌, Option, none, some, Result, ok, err, system_error,
  if◌then◌else◌,
}
use robstride_driver.Common.Files.{close, close-cons, IsBalanced}

-- The fields of `struct termios2` that are set. The control flags are constants of the kernel.
pub record Termios : Type 0 where
  pub c_iflag : ℕ
  pub c_oflag : ℕ
  pub c_lflag : ℕ
  pub c_cflag : ℕ
  pub c_ispeed : ℕ
  pub c_ospeed : ℕ
  pub vmin : ℕ
  pub vtime : ℕ

-- The settings for a raw line, given `CS8 | CREAD | CLOCAL | BOTHER`.
unfoldable pub raw_line : ℕ → ℕ → Termios
raw_line flags baud_rate = record {
  c_iflag = 0;
  c_oflag = 0;
  c_lflag = 0;
  c_cflag = flags;
  c_ispeed = baud_rate;
  c_ospeed = baud_rate;
  vmin = 0;
  vtime = 0;
}

-- `open` answers a descriptor or fails; `TCGETS2` succeeds or not; `TCSETS2` takes the settings or
-- not. The answer of `TCFLSH` is not looked at.
unfoldable pub open_device : Option ℕ → Bool → (Termios → Bool) → ℕ → ℕ → List ℕ → Result ℕ × List ℕ
open_device none got set flags baud_rate fds = (err system_error, fds)
open_device (some fd) got set flags baud_rate fds =
    if got
    then (if set (raw_line flags baud_rate)
        then (ok fd, fd ∷ fds)
        else (err system_error, close fd (fd ∷ fds)))
    else (err system_error, close fd (fd ∷ fds))

unfoldable pub close_device : Option ℕ → List ℕ → List ℕ
close_device none fds = fds
close_device (some fd) fds = close fd fds

by_set :
    (fd : ℕ) (taken : Bool) (fds : List ℕ)
    → IsBalanced fds (if taken then (ok fd, fd ∷ fds) else (err system_error, close fd (fd ∷ fds)))
by_set fd true fds = (refl, close-cons fd fds)
by_set fd false fds = close-cons fd fds

-- A constructor of the serial transport that throws, wherever it fails, leaves no descriptor open;
-- one that returns has opened its own, and closing it leaves those that were open before.
pub open_device-IsBalanced :
    (opened : Option ℕ) (got : Bool) (set : Termios → Bool) (flags baud_rate : ℕ) (fds : List ℕ)
    → IsBalanced fds (open_device opened got set flags baud_rate fds)
unfolding open_device
open_device-IsBalanced none got set flags baud_rate fds = refl
open_device-IsBalanced (some fd) true set flags baud_rate fds =
    by_set fd (set (raw_line flags baud_rate)) fds
open_device-IsBalanced (some fd) false set flags baud_rate fds = close-cons fd fds
