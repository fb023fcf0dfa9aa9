-- ===== src/Installer/Draw/Bar.antt =====
-- The progress bar of installer/installer_gui.c.
use cocos_os.Base.{
  ℕ, zero, suc, ◌+◌, ◌-◌, ◌*◌, ◌/◌, ◌<◌, ◌≤◌, ◌≡◌, refl, ap, ◌∙◌, inl, inr, false, arith, [], ◌∷◌,
  ◌++◌, ltb, ◌==◌, if◌then◌else◌, replicate, codes, Bool-cases,
}
use cocos_os.Installer.Draw.{go_to, filled_cells, bar_cells, draw_progress_bar}

bar_cells_past : (filled left i : ℕ) → filled ≤ i → bar_cells filled left i ≡ replicate left b' '
unfolding bar_cells
bar_cells_past filled zero i h = refl
bar_cells_past filled (suc left) i h =
    let past : ltb i filled ≡ false = ground arith in
    rw past (ap (λ t. b' ' ∷ t) (bar_cells_past filled left (i + 1) (omega arith)))

bar_cells-replicate :
    (filled left i : ℕ) → i ≤ filled → bar_cells filled left i ≡ replicate (i + left - filled) b' '
unfolding bar_cells
bar_cells-replicate filled zero i h =
    let none_left : i + 0 - filled ≡ 0 = omega arith in rw none_left
bar_cells-replicate filled (suc left) i h = elim (Bool-cases (ltb i filled)) [
  | inl drawn ↦
      (let step : i + suc left ≡ i + 1 + left = omega arith in
        rw (drawn, step) (bar_cells-replicate filled left (i + 1) (ground arith)))
  | inr empty ↦
      (let same : i + suc left - filled ≡ suc left = ground arith in
        rw (empty, same) (ap (λ t. b' ' ∷ t) (bar_cells_past filled left (i + 1) (ground arith))))
]

-- With a maximum above 0, the brackets of the bar hold blanks only: one for each of the `w - 2` cells
-- that is not filled, and nothing for the `value * (w - 2) / max` that are.
pub draw_progress_bar_lem :
    (x y w value max : ℕ)
    → 0 < max
    → let left = w - 2 - value * (w - 2) / max in
      draw_progress_bar x y w value max
      ≡ go_to y x ++ (codes "[" ++ (replicate left b' ' ++ (codes "]" ++ (10 ∷ []))))
unfolding draw_progress_bar
draw_progress_bar_lem x y w value max pos =
    let some_max : (max == 0) ≡ false = ground arith in
    let cells : bar_cells (filled_cells w value max) (w - 2) 0
        ≡ replicate (w - 2 - value * (w - 2) / max) b' ' =
      bar_cells-replicate (filled_cells w value max) (w - 2) 0 (omega arith)
      ∙ ap (λ n. replicate n b' ') (width (w - 2) (value * (w - 2) / max)) in
    rw some_max (ap (λ t. go_to y x ++ (codes "[" ++ (t ++ (codes "]" ++ (10 ∷ []))))) cells)
  where
    width : (n f : ℕ) → 0 + n - (if ltb n f then n else f) ≡ n - f
    width n f = ground arith
