-- ===== src/Common/Files.antt =====
-- The file descriptors that a process has open.
use robstride_driver.Common.{
  ℕ, ◌≡◌, arith, true, List, [], ◌∷◌, Result, ok, err, ◌==◌, if◌then◌else◌,
}

-- `::close`.
unfoldable pub close : ℕ → List ℕ → List ℕ
close fd [] = []
close fd (x ∷ fds) = if x == fd then fds else x ∷ close fd fds

pub close-cons : (fd : ℕ) (fds : List ℕ) → close fd (fd ∷ fds) ≡ fds
unfolding close
close-cons fd fds = let same : (fd == fd) ≡ true = ground arith in rw same

-- A constructor that fails leaves no descriptor open; one that succeeds opens its own, and the
-- destructor leaves those that were open before.
abbrev pub IsBalanced : List ℕ → Result ℕ × List ℕ → Type 0
IsBalanced fds (ok fd, after) = (after ≡ fd ∷ fds) × (close fd after ≡ fds)
IsBalanced fds (err e, after) = after ≡ fds
