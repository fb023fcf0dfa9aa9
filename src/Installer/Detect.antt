-- ===== src/Installer/Detect.antt =====
-- installer/installer_gui.c: the search for operating systems. What `fgets` reads from /proc/partitions is a
-- list of lines, and what `blkid` prints first for a device is a function of its name, `none` where it
-- cannot be run or prints nothing. The calls of `popen` are effects.
pub mod Texts
pub mod Lines
pub mod Asked
pub mod Found
use cocos_os.Base.{
  ℕ, zero, suc, ◌+◌, ◌-◌, ◌*◌, ◌%◌, ◌^◌, Bool, true, false, not, ◌&&◌, ◌||◌, Option, none, some,
  List, [], ◌∷◌, ◌++◌, ltb, leb, ◌==◌, if◌then◌else◌, take, Text, codes, str_eq,
}
use mathlib.Core.Option
use cocos_os.Installer.Draw.{Effect, popen}

-- `isspace`
abbrev pub is_space : ℕ → Bool
is_space c = c == 32 || leb 9 c && leb c 13

abbrev pub is_digit : ℕ → Bool
is_digit c = leb b'0' c && leb c b'9'

unfoldable pub skip_space : Text → Text
skip_space [] = []
skip_space (c ∷ cs) = let rest = skip_space cs in if is_space c then rest else c ∷ cs

-- The digits at the start, as a number after `n`, and the rest.
unfoldable pub take_digits : ℕ → Text → ℕ × Text
take_digits n [] = (n, [])
take_digits n (c ∷ cs) =
    let rest = take_digits (n * 10 + (c - b'0')) cs in if is_digit c then rest else (n, c ∷ cs)

-- At least one digit.
unfoldable pub scan_digits : Text → Option (ℕ × Text)
unfolding take_digits
scan_digits [] = none
scan_digits (c ∷ cs) = if is_digit c then some (take_digits 0 (c ∷ cs)) else none

-- A sign, if there is one, and whether it is a minus.
unfoldable pub take_sign : Text → Bool × Text
take_sign [] = (false, [])
take_sign (c ∷ cs) =
    if c == b'-' then (true, cs) else if c == b'+' then (false, cs) else (false, c ∷ cs)

-- `%llu`, with the C library's answer to what is too large and to a minus; `%*d` reads the same text.
unfoldable pub scan_number : Text → Option (ℕ × Text)
unfolding skip_space take_sign scan_digits
scan_number t =
    let (minus, digits) = take_sign (skip_space t) in
    Option.map
      (λ (n, rest).
        if leb (2 ^ 64) n
        then (2 ^ 64 - 1, rest)
        else if minus
        then ((2 ^ 64 - n) % 2 ^ 64, rest)
        else (n, rest))
      (scan_digits digits)

-- `%31s`: up to `left` bytes with no white space among them.
unfoldable pub take_name : (left : ℕ) → Text → Text
take_name zero t = []
take_name (suc left) [] = []
take_name (suc left) (c ∷ cs) = let rest = take_name left cs in if is_space c then [] else c ∷ rest

unfoldable pub scan_name : Text → Option Text
unfolding skip_space take_name
scan_name t = elim (take_name 31 (skip_space t)) [ [] ↦ none | c ∷ cs ↦ some (c ∷ cs) ]

-- `sscanf(line, " %*d %*d %llu %31s", &size, name) == 2`
unfoldable pub scan_partition : Text → Option (ℕ × Text)
unfolding scan_number scan_name Option.bind
scan_partition line = Option.bind (scan_number line) λ (major, rest1).
    Option.bind (scan_number rest1) λ (minor, rest2).
      Option.bind (scan_number rest2)
        λ (size, rest3). Option.map (λ name. (size, name)) (scan_name rest3)

-- `strchr(t, c)`: what follows the first `c`, if there is one.
unfoldable pub after_char : ℕ → Text → Option Text
after_char c [] = none
after_char c (d ∷ ds) = let rest = after_char c ds in if d == c then some ds else rest

-- The text before the first `c`, if there is one.
unfoldable pub before_char : ℕ → Text → Option Text
before_char c [] = none
before_char c (d ∷ ds) =
    let rest = Option.map (λ t. d ∷ t) (before_char c ds) in if d == c then some [] else rest

-- What follows a prefix, if the text starts with it.
unfoldable pub after_prefix : Text → Text → Option Text
after_prefix [] t = some t
after_prefix (p ∷ ps) [] = none
after_prefix (p ∷ ps) (c ∷ cs) = let rest = after_prefix ps cs in if p == c then rest else none

-- `strstr(t, p)`: what follows the first occurrence, if there is one.
unfoldable pub after_text : Text → Text → Option Text
unfolding after_prefix
after_text p [] = after_prefix p []
after_text p (c ∷ cs) = elim (after_prefix p (c ∷ cs)) [ none ↦ after_text p cs | some t ↦ some t ]

abbrev pub is_there : {A : Type 0} → Option A → Bool
is_there none = false
is_there (some a) = true

-- The fields of `detected_os_t` that are written.
pub record DetectedOs : Type 0 where
  pub name : Text
  pub device : Text
  pub type : Text
  pub size : ℕ

-- The file system that `blkid` reports.
unfoldable pub file_system_of : Text → Option Text
unfolding after_text before_char Option.bind
file_system_of output = Option.bind (after_text (codes "TYPE=\"") output) (before_char b'"')

unfoldable pub os_name : Text → Text
unfolding str_eq after_text
os_name fs_type =
    if str_eq fs_type (codes "ntfs")
    then codes "Windows"
    else if is_there (after_text (codes "ext") fs_type)
    then codes "Linux"
    else codes "Unknown"

-- The texts are cut to their arrays of 32 and 16 bytes, the closing NUL included.
abbrev pub entry : ℕ → Text → Text → DetectedOs
entry size name fs_type = record {
  name = os_name fs_type;
  device = take 31 name;
  type = take 15 fs_type;
  size = size * 1024 % 2 ^ 64;
}

-- A partition's name has a 1 or a 2.
abbrev pub is_partition : Text → Bool
is_partition name = is_there (after_char b'1' name) || is_there (after_char b'2' name)

-- `snprintf` into `cmd[256]`, with a name of 31 bytes at most.
abbrev pub blkid_command : Text → Text
blkid_command name = codes "blkid /dev/" ++ (name ++ codes " 2>/dev/null")

module _ (blkid : Text → Option Text) where
  -- What is run for a line, and what is entered, if anything.
  unfoldable pub detect_line : Text → List Effect × Option DetectedOs
  unfolding scan_partition after_char file_system_of os_name Option.bind
  detect_line line = elim (scan_partition line) [
    | none ↦ ([], none)
    | some (size, name) ↦
        if is_partition name
        then (
          popen (blkid_command name) ∷ [],
          Option.bind (blkid name) λ output. Option.map (entry size name) (file_system_of output),
        )
        else ([], none)
  ]

  -- The loop, with room for some more.
  unfoldable pub detect_from : (room : ℕ) → List Text → List Effect × List DetectedOs
  unfolding detect_line
  detect_from zero lines = ([], [])
  detect_from (suc room) [] = ([], [])
  detect_from (suc room) (line ∷ lines) = elim (detect_line line).1 [
    | none ↦
        (let (out, found) = detect_from (suc room) lines in ((detect_line line).0 ++ out, found))
    | some os ↦
        (let (out, found) = detect_from room lines in ((detect_line line).0 ++ out, os ∷ found))
  ]

  -- Nothing where /proc/partitions cannot be opened. The list is the entries that are counted.
  unfoldable pub detect_operating_systems : Option (List Text) → ℕ → List Effect × List DetectedOs
  unfolding detect_from
  detect_operating_systems none max_count = ([], [])
  detect_operating_systems (some lines) max_count = detect_from max_count lines
