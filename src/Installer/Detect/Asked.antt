-- ===== src/Installer/Detect/Asked.antt =====
-- Which commands the search of installer/installer_gui.c for operating systems runs.
use cocos_os.Base.{
  In, ℕ, zero, suc, ◌≡◌, refl, sym, ap, inl, inr, Option, none, some, List, [], ◌∷◌, ◌++◌, Text,
  codes, Bool-cases, Option-cases,
}
use mathlib.Core.Path.{subst}
use cocos_os.Installer.Draw.{Effect, print, system, popen, sleep, usleep}
use cocos_os.Installer.Detect.{
  scan_partition, is_partition, detect_line, detect_from, detect_operating_systems,
}
use cocos_os.Installer.Detect.Lines.{Partition, is_partition-Partition}

-- The commands that are run, in order.
abbrev pub commands : List Effect → List Text
commands [] = []
commands (system c ∷ rest) = c ∷ commands rest
commands (popen c ∷ rest) = c ∷ commands rest
commands (print t ∷ rest) = commands rest
commands (sleep n ∷ rest) = commands rest
commands (usleep n ∷ rest) = commands rest

pub commands-append : (xs ys : List Effect) → commands (xs ++ ys) ≡ commands xs ++ commands ys
commands-append [] ys = refl
commands-append (print t ∷ xs) ys = commands-append xs ys
commands-append (system c ∷ xs) ys = ap (λ cs. c ∷ cs) (commands-append xs ys)
commands-append (popen c ∷ xs) ys = ap (λ cs. c ∷ cs) (commands-append xs ys)
commands-append (sleep n ∷ xs) ys = commands-append xs ys
commands-append (usleep n ∷ xs) ys = commands-append xs ys

-- The command asks `blkid` for a partition that one of the lines names.
pub record Asked (lines : List Text) (command : Text) : Type 0 where
  pub row : Text
  pub among : In lines row
  pub blocks : ℕ
  pub name : Text
  pub read : scan_partition row ≡ some (blocks, name)
  pub partition : Partition name
  pub asks : command ≡ codes "blkid /dev/" ++ (name ++ codes " 2>/dev/null")

abbrev pub AllAsked : List Text → List Text → Type 0
AllAsked lines [] = Unit
AllAsked lines (c ∷ cs) = Asked lines c × AllAsked lines cs

Asked-later :
    (first : Text) (lines : List Text) (c : Text) → Asked lines c → Asked (first ∷ lines) c
Asked-later first lines c a = record {
  row = a.row;
  among = inr a.among;
  blocks = a.blocks;
  name = a.name;
  read = a.read;
  partition = a.partition;
  asks = a.asks;
}

AllAsked-later :
    (first : Text) (lines cs : List Text) → AllAsked lines cs → AllAsked (first ∷ lines) cs
AllAsked-later first lines [] h = tt
AllAsked-later first lines (c ∷ cs) h =
    (Asked-later first lines c h.0, AllAsked-later first lines cs h.1)

AllAsked-append :
    (lines cs ds : List Text) → AllAsked lines cs → AllAsked lines ds → AllAsked lines (cs ++ ds)
AllAsked-append lines [] ds h k = k
AllAsked-append lines (c ∷ cs) ds h k = (h.0, AllAsked-append lines cs ds h.1 k)

-- The lines that are read, of which there are none where the file cannot be opened.
abbrev pub lines_of : Option (List Text) → List Text
lines_of none = []
lines_of (some lines) = lines

module _ (blkid : Text → Option Text) where
  detect_line-AllAsked :
      (line : Text) (lines : List Text)
      → AllAsked (line ∷ lines) (commands (detect_line blkid line).0)
  unfolding detect_line
  detect_line-AllAsked line lines = elim (Option-cases (scan_partition line)) [
    | inl nothing ↦ rw (nothing, detect_line) tt
    | inr ((blocks, name), read) ↦ elim (Bool-cases (is_partition name)) [
      | inr other ↦ rw (read, detect_line, other) tt
      | inl there ↦
          rw (read, detect_line, there)
            (
              record {
                row = line;
                among = inl refl;
                blocks = blocks;
                name = name;
                read = read;
                partition = is_partition-Partition name there;
                asks = refl;
              },
              tt,
            )
    ]
  ]

  -- A line's commands before those of the rest.
  with_rest :
      (line : Text) (lines : List Text) (rest : List Effect)
      → AllAsked lines (commands rest)
      → AllAsked (line ∷ lines) (commands ((detect_line blkid line).0 ++ rest))
  with_rest line lines rest h =
      subst (AllAsked (line ∷ lines)) (sym (commands-append (detect_line blkid line).0 rest)) (
        AllAsked-append (line ∷ lines) (commands (detect_line blkid line).0) (commands rest)
          (detect_line-AllAsked line lines) (AllAsked-later line lines (commands rest) h))

  detect_from-AllAsked :
      (room : ℕ) (lines : List Text) → AllAsked lines (commands (detect_from blkid room lines).0)
  unfolding detect_from
  detect_from-AllAsked zero lines = tt
  detect_from-AllAsked (suc room) [] = tt
  detect_from-AllAsked (suc room) (line ∷ lines) = elim (Option-cases (detect_line blkid line).1) [
    | inl nothing ↦
        rw (nothing, detect_from)
          (with_rest line lines (detect_from blkid (suc room) lines).0
            (detect_from-AllAsked (suc room) lines))
    | inr (os, one) ↦
        rw (one, detect_from)
          (with_rest line lines (detect_from blkid room lines).0 (detect_from-AllAsked room lines))
  ]

  pub detect_operating_systems-AllAsked :
      (partitions : Option (List Text)) (max_count : ℕ)
      → AllAsked
          (lines_of partitions)
          (commands (detect_operating_systems blkid partitions max_count).0)
  unfolding detect_operating_systems
  detect_operating_systems-AllAsked none max_count = tt
  detect_operating_systems-AllAsked (some lines) max_count = detect_from-AllAsked max_count lines
