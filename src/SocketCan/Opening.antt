-- ===== src/SocketCan/Opening.antt =====
-- The constructor and destructor of `SocketCanInterface`, with the answers of the system calls.
use robstride_driver.Common.{
  ℕ, refl, Bool, true, false, List, ◌∷◌, Option, none, some, Result, ok, err, system_error,
  if◌then◌else◌,
}
use robstride_driver.Common.Files.{close, close-cons, IsBalanced}

-- `socket` answers a descriptor or fails, `ioctl` knows the interface or not, `bind` succeeds or not.
unfoldable pub open_socket : Option ℕ → Bool → Bool → List ℕ → Result ℕ × List ℕ
open_socket none known bound fds = (err system_error, fds)
open_socket (some fd) known bound fds =
    if known
    then (if bound then (ok fd, fd ∷ fds) else (err system_error, close fd (fd ∷ fds)))
    else (err system_error, close fd (fd ∷ fds))

unfoldable pub close_socket : Option ℕ → List ℕ → List ℕ
close_socket none fds = fds
close_socket (some fd) fds = close fd fds

-- A constructor of the socket that throws, wherever it fails, leaves no descriptor open; one that
-- returns has opened its own, and closing it leaves those that were open before.
pub open_socket-IsBalanced :
    (socket : Option ℕ) (known bound : Bool) (fds : List ℕ)
    → IsBalanced fds (open_socket socket known bound fds)
unfolding open_socket
open_socket-IsBalanced none known bound fds = refl
open_socket-IsBalanced (some fd) true true fds = (refl, close-cons fd fds)
open_socket-IsBalanced (some fd) true false fds = close-cons fd fds
open_socket-IsBalanced (some fd) false bound fds = close-cons fd fds
