-- ===== src/Installer/Draw.antt =====
-- installer/installer_gui.c: what the drawing functions print, byte by byte. The arguments are not
-- negative in any call, and an `int` that is printed is a natural number.
pub mod Bar
use cocos_os.Base.{
  ℕ, zero, suc, ◌+◌, ◌-◌, ◌*◌, ◌/◌, ◌%◌, List, [], ◌∷◌, ◌++◌, ltb, ◌==◌, if◌then◌else◌, replicate,
  Text, codes,
}

-- `printf`, `system`, `popen`, `sleep` and `usleep`
pub data Effect : Type 0 where
  print : Text → Effect
  system : Text → Effect
  popen : Text → Effect
  sleep : ℕ → Effect
  usleep : ℕ → Effect

-- The digits of a number, with fuel, before some text.
unfoldable pub digits_before : (fuel : ℕ) → ℕ → Text → Text
digits_before zero n rest = rest
digits_before (suc fuel) n rest =
    let last = (b'0' + n % 10) ∷ rest in
    let more = digits_before fuel (n / 10) last in if ltb n 10 then last else more

-- `%d` and `%llu`: a 64-bit number has twenty digits at most.
unfoldable pub decimal : ℕ → Text
unfolding digits_before
decimal n = digits_before 20 n []

-- `\033`
abbrev pub escape : Text → Text
escape t = 27 ∷ t

-- `"\033[%d;%dH"`
abbrev pub go_to : (y x : ℕ) → Text
go_to y x = escape (codes "[" ++ (decimal y ++ (codes ";" ++ (decimal x ++ codes "H"))))

abbrev pub set_window_title : Text → Text
set_window_title title = escape (codes "]0;" ++ (title ++ (7 ∷ [])))

-- `font_size` is not used.
abbrev pub draw_text : (x y : ℕ) → (text color : Text) → Text
draw_text x y text color =
    go_to y x ++ (escape (codes "[38;2;" ++ (color ++ codes "m")) ++ (text ++ escape (codes "[0m")))

-- The loops print empty strings; `w`, `h` and `action` are not used otherwise.
abbrev pub draw_button : (x y : ℕ) → Text → Text
draw_button x y text =
    go_to y x ++ (10 ∷ (go_to (y + 1) x ++ (text ++ (10 ∷ (go_to (y + 2) x ++ (10 ∷ []))))))

-- `filled`, cut to the bar's width.
abbrev pub filled_cells : (w value max : ℕ) → ℕ
filled_cells w value max =
    let filled = value * (w - 2) / max in if ltb (w - 2) filled then w - 2 else filled

-- The cells of the bar with `left` to go: an empty string for a cell that is filled, and a blank else.
unfoldable pub bar_cells : (filled left i : ℕ) → Text
bar_cells filled zero i = []
bar_cells filled (suc left) i =
    (if ltb i filled then [] else b' ' ∷ []) ++ bar_cells filled left (i + 1)

unfoldable pub draw_progress_bar : (x y w value max : ℕ) → Text
unfolding bar_cells
draw_progress_bar x y w value max =
    if max == 0
    then []
    else (go_to y x
        ++ (codes "["
            ++ (bar_cells (filled_cells w value max) (w - 2) 0 ++ (codes "]" ++ (10 ∷ [])))))
