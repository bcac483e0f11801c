-- ===== src/Examples/Attains/Profiles.antt =====
-- The profile of targets, over the simulated bus.
use robstride_driver.Common.{
  ℕ, suc, ◌+◌, ◌≤◌, ◌≡◌, ◌∙◌, refl, ap, arith, false, List, [], ◌∷◌, ◌++◌, All, All-append,
}
use mathlib.Core.List.{append_assoc}
use robstride_driver.Double.{Double}
use robstride_driver.Protocol.Types.{Feedback}
use robstride_driver.Protocol.Limits.{ActuatorLimits}
use robstride_driver.Motor.Monad.{◌>>◌, on_clock}
use robstride_driver.Motor.Simulated.{Bench, stub_can}
use robstride_driver.Servo.{Servo}
use robstride_driver.Servo.Runs.{Later-ticked, Refines, Refines-ticked}
use robstride_driver.Examples.Process.{Thread, Process, P, call, put, rest, while}
use robstride_driver.Examples.Profile.{
  Segment, Recording, put_cells, end_row, seconds_since, cycle, run_segment, run_segments,
  run_profile,
}
use robstride_driver.Examples.Attains.{
  napping, Attains, Attains-pure, Attains-bind, Attains-then, Attains-from, Attains-weaken,
  put-Attains, nap-Attains, clock-Attains,
}
use robstride_driver.Examples.Attains.Loops.{read, while-Attains}

-- The velocity of a row is a function of its target.
abbrev pub IsRow : {D : Type 0} → (D → D) → List D → Type 0
IsRow v (now ∷ target ∷ position ∷ velocity ∷ torque ∷ temperature ∷ extra) = velocity ≡ v target
IsRow v _ = ⊥

IsRow-append : {D : Type 0} (v : D → D) (cells xs : List D) → IsRow v cells → IsRow v (cells ++ xs)
IsRow-append v (now ∷ target ∷ position ∷ velocity ∷ torque ∷ temperature ∷ extra) xs h = h
IsRow-append v [] xs h = elim h [ ]
IsRow-append v (_ ∷ []) xs h = elim h [ ]
IsRow-append v (_ ∷ _ ∷ []) xs h = elim h [ ]
IsRow-append v (_ ∷ _ ∷ _ ∷ []) xs h = elim h [ ]
IsRow-append v (_ ∷ _ ∷ _ ∷ _ ∷ []) xs h = elim h [ ]
IsRow-append v (_ ∷ _ ∷ _ ∷ _ ∷ _ ∷ []) xs h = elim h [ ]

-- Rows have been added to those of before.
abbrev pub Adds : {D : Type 0} → (D → D) → List (List D) → List (List D) → Type 0
Adds {D} v before after = (rows : List (List D)) × (after ≡ before ++ rows) × All (IsRow v) rows

Adds-row :
    {D : Type 0} (v : D → D) (before after : List (List D)) (cells : List D)
    → Adds v before after
    → IsRow v cells
    → Adds v before (after ++ cells ∷ [])
Adds-row v before after cells (rows, e, h) good = (
  rows ++ cells ∷ [],
  ap (λ (x : List (List _)). x ++ cells ∷ []) e ∙ append_assoc before rows (cells ∷ []),
  All-append (IsRow v) rows (cells ∷ []) h (good, tt),
)

module _ {D : Type 0} ⦃d : Double D⦄ where
  open d use {lt, add, seconds}

  -- From any reading of the clock, `n` more take at least the time.
  abbrev pub Lasts : ℕ → (ℕ → ℕ) → D → Type 0
  Lasts n clock duration =
      (k i j : ℕ)
      → k ≤ i
      → i + n ≤ j
      → lt (seconds (clock k) (clock j)) (add (seconds (clock k) (clock i)) duration) ≡ false

  -- Every segment lasts for at most `n` readings.
  abbrev pub AllLast : ℕ → (ℕ → ℕ) → List (Segment D) → Type 0
  AllLast n clock profile = All (λ segment. Lasts n clock segment.duration_s) profile

  module _ (l : ActuatorLimits D) (until lasting : ℕ → ℕ) (v : D → D) (J : Servo → Type 0)
      (send_command : D → P D (Bench D) (Recording D) (Feedback D))
      (append_extra : P D (Bench D) (Recording D) (Unit {0}))
      (sends : (target : D) (p : Process D (Bench D) (Recording D)) (s : Servo)
        → J s
        → Refines l p.world s
        → Attains l
            (send_command target)
            p
            (λ fb t o. (fb.velocity ≡ v target) × J t × (o ≡ p.output)))
      (appends : (p : Process D (Bench D) (Recording D)) (s : Servo)
        → J s
        → Refines l p.world s
        → Attains l append_extra p (λ _ t o.
          J t × (xs : List D) × (o ≡ record (p.output) { cells = p.output.cells ++ xs })))
      (before : List (List D)) where
    instance abbrev thread : Thread (Bench D)
    thread = napping until lasting

    -- Between two rows, and behind the fields that a row has in any case.
    abbrev pub Between : Servo → Recording D → Type 0
    Between s o = J s × (o.cells ≡ []) × Adds v before o.rows

    abbrev Within : Servo → Recording D → Type 0
    Within s o = J s × IsRow v o.cells × Adds v before o.rows

    put_cells-Within :
        (now target : D) (fb : Feedback D) (s : Servo) (o : Recording D)
        → fb.velocity ≡ v target
        → Between s o
        → Within s (put_cells now target fb o)
    unfolding put_cells
    put_cells-Within now target fb s o e (j, empty, adds) = (j, rw empty e, adds)

    append-Within :
        (s t : Servo) (o : Recording D) (xs : List D)
        → J t
        → Within s o
        → Within t (record o { cells = o.cells ++ xs })
    append-Within s t o xs j' (j, good, adds) = (j', IsRow-append v o.cells xs good, adds)

    end_row-Between : (s : Servo) (o : Recording D) → Within s o → Between s (end_row o)
    end_row-Between s o (j, good, adds) = (j, refl, Adds-row v before o.rows o.cells adds good)

    seconds-Attains :
        (start : ℕ) (p : Process D (Bench D) (Recording D)) (s : Servo)
        → Refines l p.world s
        → Attains l (seconds_since start) p (λ now t o.
          (now ≡ seconds start (p.world.bus.clock p.world.bus.tick)) × (t ≡ s) × (o ≡ p.output))
    unfolding seconds_since
    seconds-Attains start p s r =
        Attains-bind l (call (on_clock stub_can.now)) _ p _ _ (clock-Attains l p s r)
          λ now p' t (e, et, eo) r' h.
            Attains-pure l (seconds start now) p' t _ (ap (λ x. seconds start x) e, et, eo) r'

    -- The end of a cycle: the row is ended, and the program sleeps.
    close-Attains :
        (time : ℕ) (p : Process D (Bench D) (Recording D)) (s : Servo)
        → Within s p.output
        → Refines l p.world s
        → Attains l (put end_row >> rest (thread.sleep_until time)) p (λ _ t o. Between t o)
    close-Attains time p s within r =
        Attains-then l (put end_row) _ p _ _ (put-Attains l end_row p s r) λ _ p' t (et, eo) r' h.
          Attains-weaken l (rest (thread.sleep_until time)) p' _ _
            (nap-Attains l (until time) p' t r')
            λ _ u o (eu, ew). rw (eu, ew, et, eo) (end_row-Between s p.output within)

    cycle-Attains :
        (start : ℕ) (target : D) (p : Process D (Bench D) (Recording D)) (s : Servo)
        → Between s p.output
        → Refines l p.world s
        → Attains l (cycle start send_command append_extra target) p (λ _ t o. Between t o)
    unfolding cycle
    cycle-Attains start target p s between r =
        Attains-bind l (call (on_clock stub_can.now)) _ p _ _ (clock-Attains l p s r)
          λ time p1 s1 (_, e1, o1) r1 h1.
            Attains-bind l (send_command target) _ p1 _ _ (sends target p1 s1 (rw e1 between.0) r1)
              λ fb p2 s2 (shown, j2, o2) r2 h2.
                Attains-bind l (seconds_since start) _ p2 _ _ (seconds-Attains start p2 s2 r2)
                  λ now p3 s3 (_, e3, o3) r3 h3.
                    Attains-then l (put (put_cells now target fb)) _ p3 _ _
                      (put-Attains l (put_cells now target fb) p3 s3 r3)
                      λ _ p4 s4 (e4, o4) r4 h4.
                        let within : Within s4 p4.output =
                          rw (e4, o4, e3, o3, o2, o1)
                            (put_cells-Within now target fb s2 p.output shown
                              (j2, between.1, between.2)) in
                        Attains-then l append_extra _ p4 _ _ (appends p4 s4 within.0 r4)
                          λ _ p5 s5 (j5, xs, o5) r5 h5.
                            close-Attains (time + 10_000_000) p5 s5
                              (rw o5 (append-Within s4 s5 p4.output xs j5 within)) r5

    -- A segment that starts at the reading `k` or later.
    segment-Attains :
        (n k : ℕ) (clock : ℕ → ℕ) (segment : Segment D) (p : Process D (Bench D) (Recording D))
        (s : Servo)
        → Lasts n clock segment.duration_s
        → p.world.bus.clock ≡ clock
        → k ≤ p.world.bus.tick
        → Between s p.output
        → Refines l p.world s
        → Attains l
            (run_segment (clock k) send_command append_extra (suc n) segment)
            p
            (λ _ t o. Between t o)
    unfolding run_segment seconds_since
    segment-Attains n k clock segment p s lasts c hk between r =
        let i = p.world.bus.tick in
        let end = add (seconds (clock k) (p.world.bus.clock i)) segment.duration_s in
        let over : (j : ℕ) → i + n ≤ j → lt (seconds (clock k) (clock j)) end ≡ false =
          λ j hj. rw c (lasts k i j hk hj) in
        Attains-from l (run_segment (clock k) send_command append_extra (suc n) segment)
          (while (suc n) _ (cycle (clock k) send_command append_extra segment.target)) p (read p) _
          refl (Later-ticked (suc p.world.bus.tick) p.world (omega arith))
          (while-Attains l _ (cycle (clock k) send_command append_extra segment.target)
            (λ now. lt (seconds (clock k) now) end) (λ q. refl) clock (i + n) over Between
            (λ q t b t_r. cycle-Attains (clock k) segment.target q t b t_r) n (read p) s between
            (Refines-ticked l (suc i) p.world s r) c (omega arith))

    segments-Attains :
        (n k : ℕ) (clock : ℕ → ℕ) (profile : List (Segment D))
        (p : Process D (Bench D) (Recording D)) (s : Servo)
        → AllLast n clock profile
        → p.world.bus.clock ≡ clock
        → k ≤ p.world.bus.tick
        → Between s p.output
        → Refines l p.world s
        → Attains l
            (run_segments (clock k) send_command append_extra (suc n) profile)
            p
            (λ _ t o. Between t o)
    unfolding run_segments
    segments-Attains n k clock [] p s lasts c hk between r = Attains-pure l tt p s _ between r
    segments-Attains n k clock (segment ∷ profile) p s (lasts, more) c hk between r =
        Attains-then l (run_segment (clock k) send_command append_extra (suc n) segment) _ p _ _
          (segment-Attains n k clock segment p s lasts c hk between r)
          λ _ p' t between' r' h.
            segments-Attains n k clock profile p' t more (h.clock ∙ c) (omega (arith, h.ticks, hk))
              between' r'

    pub run_profile-Attains :
        (n : ℕ) (profile : List (Segment D)) (p : Process D (Bench D) (Recording D)) (s : Servo)
        → AllLast n p.world.bus.clock profile
        → Between s p.output
        → Refines l p.world s
        → Attains l (run_profile (suc n) profile send_command append_extra) p (λ _ t o. Between t o)
    unfolding run_profile
    run_profile-Attains n profile p s lasts between r =
        let i = p.world.bus.tick in
        Attains-from l (run_profile (suc n) profile send_command append_extra)
          (run_segments (p.world.bus.clock i) send_command append_extra (suc n) profile) p (read p)
          _ refl (Later-ticked (suc p.world.bus.tick) p.world (omega arith))
          (segments-Attains n i p.world.bus.clock profile (read p) s lasts refl (omega arith)
            between (Refines-ticked l (suc i) p.world s r))
