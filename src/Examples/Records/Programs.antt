-- ===== src/Examples/Records/Programs.antt =====
-- A program that records, and the same calls with a log, go through the same worlds.
use robstride_driver.Common.{
  ℕ, zero, suc, ◌+◌, ◌≡◌, ◌∙◌, refl, ap, Bool, true, false, if◌then◌else◌, List, [], ◌∷◌, ok, err,
  Call, finished, waiting,
}
use robstride_driver.Double.{Double}
use robstride_driver.Protocol.Types.{Feedback}
use robstride_driver.Motor.Monad.{CanInterface, M, ◌>>=◌, ◌>>◌, continue, pure, on_clock}
use robstride_driver.Examples.Process.{Thread, Process, P, call, put, rest, while}
use robstride_driver.Examples.Profile.{
  Segment, Recording, put_cells, end_row, seconds_since, cycle, run_segment, run_segments,
  run_profile,
}
use robstride_driver.Examples.Captures.{Capture}
use robstride_driver.Examples.Records.{
  Item, Log, note, end_line, recorded, put_cells-recorded, end_row-recorded,
}
use robstride_driver.Examples.Records.Logged.{
  order, profile_of, log_extra, log_seconds, log_cycle, log_segment, log_segments, log_profile,
}

module _ {D W : Type 0} ⦃d : Double D⦄ (o : Recording D) where
  -- The process with the recording that its log stands for.
  abbrev pub shown : Process D W (Log D) → Process D W (Recording D)
  shown p = record { world = p.world; output = recorded o p.output }

  abbrev pub shown_after :
      {A : Type 0} → Call A × Process D W (Log D) → Call A × Process D W (Recording D)
  shown_after r = (r.0, shown r.1)

  abbrev pub Shows : {A : Type 0} → P D W (Recording D) A → P D W (Log D) A → Type 0
  Shows m n =
      (r : Process D W (Recording D)) (p : Process D W (Log D))
      → r ≡ shown p
      → m r ≡ shown_after (n p)

  pub pure-Shows : {A : Type 0} (a : A) → Shows (pure a) (pure a)
  pure-Shows a r p e = rw e refl

  pub call-Shows : {A : Type 0} (m : M D W A) → Shows (call m) (call m)
  call-Shows m r p e = rw e refl

  rest-Shows : (sleep : W → W) → Shows (rest sleep) (rest sleep)
  rest-Shows sleep r p e = rw e refl

  pub put-Shows :
      (f : Recording D → Recording D) (g : Log D → Log D)
      → ((log : Log D) → f (recorded o log) ≡ recorded o (g log))
      → Shows (put f) (put g)
  put-Shows f g same r p e =
      ap (put f) e
      ∙ ap (λ (x : Recording D). (finished (ok tt), record { world = p.world; output = x }))
          (same p.output)

  continue-Shows :
      {A B : Type 0} (f : A → P D W (Recording D) B) (g : A → P D W (Log D) B) (x : Call A)
      (p : Process D W (Log D))
      → ((a : A) → Shows (f a) (g a))
      → continue f (x, shown p) ≡ shown_after (continue g (x, p))
  continue-Shows f g (finished (ok a)) p next = next a (shown p) p refl
  continue-Shows f g (finished (err e)) p next = refl
  continue-Shows f g waiting p next = refl

  pub bind-Shows :
      {A B : Type 0} (m : P D W (Recording D) A) (n : P D W (Log D) A)
      (f : A → P D W (Recording D) B) (g : A → P D W (Log D) B)
      → Shows m n
      → ((a : A) → Shows (f a) (g a))
      → Shows (m >>= f) (n >>= g)
  bind-Shows m n f g same next r p e =
      ap (continue f) (same r p e) ∙ continue-Shows f g (n p).0 (n p).1 next

  pub then-Shows :
      {A B : Type 0} (m : P D W (Recording D) A) (n : P D W (Log D) A) (f : P D W (Recording D) B)
      (g : P D W (Log D) B)
      → Shows m n
      → Shows f g
      → Shows (m >> f) (n >> g)
  then-Shows m n f g same next = bind-Shows m n (λ _. f) (λ _. g) same (λ _. next)

  -- A call of the driver, and what follows.
  pub next-Shows :
      {A : Type 0} (m : M D W A) (f : P D W (Recording D) (Unit {0})) (g : P D W (Log D) (Unit {0}))
      → Shows f g
      → Shows (call m >> f) (call m >> g)
  next-Shows m f g = then-Shows (call m) (call m) f g (call-Shows m)

  while-Shows :
      (test : P D W (Recording D) Bool) (test' : P D W (Log D) Bool)
      (body : P D W (Recording D) (Unit {0})) (body' : P D W (Log D) (Unit {0}))
      → Shows test test'
      → Shows body body'
      → (fuel : ℕ) → Shows (while fuel test body) (while fuel test' body')
  unfolding while
  while-Shows test test' body body' ht hb zero = λ r p e. rw e refl
  while-Shows test test' body body' ht hb (suc fuel) =
      let again = while-Shows test test' body body' ht hb fuel in
      bind-Shows test test' _ _ ht λ go.
        elim go
          as (λ k.
            Shows (if k then (body >> while fuel test body) else pure tt)
              (if k then (body' >> while fuel test' body') else pure tt)) [
                | true ↦ then-Shows body body' _ _ hb again
                | false ↦ pure-Shows tt
              ]

  module _ ⦃can : CanInterface W⦄ where
    seconds-Shows : (start : ℕ) → Shows (seconds_since start) (log_seconds start)
    unfolding seconds_since
    seconds-Shows start =
        bind-Shows _ _ _ _ (call-Shows (on_clock can.now)) (λ now. pure-Shows (d.seconds start now))

    module _ ⦃thread : Thread W⦄ (fuel : ℕ) (c : Capture D)
        (append_extra : P D W (Recording D) (Unit {0}))
        (extra : Shows append_extra (log_extra fuel c)) where
      abbrev send_command : D → P D W (Recording D) (Feedback D)
      send_command target = call (order fuel c target)

      cycle-Shows :
          (start : ℕ) (target : D)
          → Shows (cycle start send_command append_extra target) (log_cycle fuel c start target)
      unfolding cycle
      cycle-Shows start target = bind-Shows _ _ _ _ (call-Shows (on_clock can.now)) λ now.
          bind-Shows _ _ _ _ (call-Shows (order fuel c target)) λ fb.
            bind-Shows _ _ _ _ (seconds-Shows start) λ elapsed.
              then-Shows _ _ _ _
                (put-Shows (put_cells elapsed target fb) (note (Item.measured elapsed target fb))
                  (λ log. put_cells-recorded o log elapsed target fb))
                (then-Shows _ _ _ _ extra (
                  then-Shows _ _ _ _ (put-Shows end_row end_line (end_row-recorded o))
                    (rest-Shows (thread.sleep_until (now + 10_000_000)))))

      segment-Shows :
          (start : ℕ) (segment : Segment D)
          → Shows
              (run_segment start send_command append_extra fuel segment)
              (log_segment fuel c start segment)
      unfolding run_segment
      segment-Shows start segment = bind-Shows _ _ _ _ (seconds-Shows start) λ before.
          while-Shows _ _ _ _
            (bind-Shows _ _ _ _ (seconds-Shows start)
              (λ now. pure-Shows (d.lt now (d.add before segment.duration_s))))
            (cycle-Shows start segment.target) fuel

      segments-Shows :
          (start : ℕ) (profile : List (Segment D))
          → Shows
              (run_segments start send_command append_extra fuel profile)
              (log_segments fuel c start profile)
      unfolding run_segments
      segments-Shows start [] = pure-Shows tt
      segments-Shows start (segment ∷ profile) =
          then-Shows _ _ _ _ (segment-Shows start segment) (segments-Shows start profile)

      pub run_profile-Shows :
          Shows (run_profile fuel (profile_of c) send_command append_extra) (log_profile fuel c)
      unfolding run_profile
      run_profile-Shows =
          bind-Shows _ _ _ _ (call-Shows (on_clock can.now))
            (λ start. segments-Shows start (profile_of c))
