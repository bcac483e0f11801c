-- ===== src/Examples/Records.antt =====
-- What the capture programs record, over any transport and however they end: the file as a
-- rendering of what the driver and the clock answered.
pub mod Logged
pub mod Programs
pub mod Captures
use robstride_driver.Common.{ℕ, ◌≡◌, ◌∙◌, refl, sym, ap, List, [], ◌∷◌, ◌++◌}
use mathlib.Core.List.{append_assoc}
use robstride_driver.Double.{Double}
use robstride_driver.Protocol.Types.{Feedback}
use robstride_driver.Unwrapper.{PositionUnwrapper, update}
use robstride_driver.Examples.Profile.{Recording, put_cells, put_cell, end_row}

-- What is measured in a cycle: the time since the start, the target and the feedback, and what an
-- extra column shows.
pub data Item (D : Type 0) : Type 0 where
  measured : D → D → Feedback D → Item D
  extra : D → Item D

-- The lines that are ended, and the line that is not.
pub record Log (D : Type 0) : Type 0 where
  pub lines : List (List (Item D))
  pub current : List (Item D)

abbrev pub empty_log : {D : Type 0} → Log D
empty_log = record { lines = []; current = [] }

abbrev pub note : {D : Type 0} → Item D → Log D → Log D
note i log = record log { current = log.current ++ i ∷ [] }

abbrev pub end_line : {D : Type 0} → Log D → Log D
end_line log = record { lines = log.lines ++ log.current ∷ []; current = [] }

module _ {D : Type 0} ⦃d : Double D⦄ where
  -- The unwrapper after the positions of a line, and of some lines.
  abbrev pub after_line : PositionUnwrapper D → List (Item D) → PositionUnwrapper D
  after_line u [] = u
  after_line u (Item.measured now target fb ∷ items) = after_line (update u fb.position).0 items
  after_line u (Item.extra x ∷ items) = after_line u items

  abbrev pub after_lines : PositionUnwrapper D → List (List (Item D)) → PositionUnwrapper D
  after_lines u [] = u
  after_lines u (line ∷ lines) = after_lines (after_line u line) lines

  -- The cells of a line: of the feedback, the position is unwrapped.
  abbrev pub cells_of : PositionUnwrapper D → List (Item D) → List D
  cells_of u [] = []
  cells_of u (Item.measured now target fb ∷ items) =
      let (u', continuous) = update u fb.position in
      now ∷ target ∷ continuous ∷ fb.velocity ∷ fb.torque ∷ fb.temperature ∷ cells_of u' items
  cells_of u (Item.extra x ∷ items) = x ∷ cells_of u items

  abbrev pub rows_of : PositionUnwrapper D → List (List (Item D)) → List (List D)
  rows_of u [] = []
  rows_of u (line ∷ lines) = cells_of u line ∷ rows_of (after_line u line) lines

  -- A recording that had no row begun, after what the log holds.
  unfoldable pub recorded : Recording D → Log D → Recording D
  recorded o log = record o {
    rows = o.rows ++ rows_of o.unwrapper log.lines;
    cells = cells_of (after_lines o.unwrapper log.lines) log.current;
    unwrapper = after_line (after_lines o.unwrapper log.lines) log.current;
  }

  after_line-append :
      (u : PositionUnwrapper D) (xs ys : List (Item D))
      → after_line u (xs ++ ys) ≡ after_line (after_line u xs) ys
  after_line-append u [] ys = refl
  after_line-append u (Item.measured now target fb ∷ xs) ys =
      after_line-append (update u fb.position).0 xs ys
  after_line-append u (Item.extra x ∷ xs) ys = after_line-append u xs ys

  cells_of-append :
      (u : PositionUnwrapper D) (xs ys : List (Item D))
      → cells_of u (xs ++ ys) ≡ cells_of u xs ++ cells_of (after_line u xs) ys
  cells_of-append u [] ys = refl
  cells_of-append u (Item.measured now target fb ∷ xs) ys =
      let (u', continuous) = update u fb.position in
      ap
        (λ (cells : List D).
          now ∷ target ∷ continuous ∷ fb.velocity ∷ fb.torque ∷ fb.temperature ∷ cells)
        (cells_of-append u' xs ys)
  cells_of-append u (Item.extra x ∷ xs) ys = ap (◌∷◌ x) (cells_of-append u xs ys)

  after_lines-append :
      (u : PositionUnwrapper D) (xs : List (List (Item D))) (line : List (Item D))
      → after_lines u (xs ++ line ∷ []) ≡ after_line (after_lines u xs) line
  after_lines-append u [] line = refl
  after_lines-append u (x ∷ xs) line = after_lines-append (after_line u x) xs line

  rows_of-append :
      (u : PositionUnwrapper D) (xs : List (List (Item D))) (line : List (Item D))
      → rows_of u (xs ++ line ∷ []) ≡ rows_of u xs ++ cells_of (after_lines u xs) line ∷ []
  rows_of-append u [] line = refl
  rows_of-append u (x ∷ xs) line = ap (◌∷◌ (cells_of u x)) (rows_of-append (after_line u x) xs line)

  module _ (o : Recording D) (log : Log D) where
    pub put_cells-recorded :
        (now target : D) (fb : Feedback D)
        → put_cells now target fb (recorded o log)
          ≡ recorded o (note (Item.measured now target fb) log)
    unfolding put_cells recorded
    put_cells-recorded now target fb =
        let u = after_lines o.unwrapper log.lines in
        let i = Item.measured now target fb ∷ [] in
        rw (after_line-append u log.current i, cells_of-append u log.current i) refl

    pub put_cell-recorded :
        (x : D) → put_cell x (recorded o log) ≡ recorded o (note (Item.extra x) log)
    unfolding recorded
    put_cell-recorded x =
        let u = after_lines o.unwrapper log.lines in
        let i = Item.extra x ∷ [] in
        rw (after_line-append u log.current i, cells_of-append u log.current i) refl

    pub end_row-recorded : end_row (recorded o log) ≡ recorded o (end_line log)
    unfolding recorded
    end_row-recorded =
        rw
          (
            after_lines-append o.unwrapper log.lines log.current,
            rows_of-append o.unwrapper log.lines log.current,
            append_assoc o.rows (rows_of o.unwrapper log.lines) _,
          )
          refl
