-- ===== src/Tests/Install.antt =====
-- installer/installer_gui.c at small inputs.
use cocos_os.Base.{
  ℕ, ◌-◌, ◌*◌, ◌/◌, ◌≤◌, ◌≡◌, refl, arith, some, Option, List, [], ◌∷◌, ◌++◌, take, replicate, Text,
  codes,
}
use cocos_os.Installer.Draw.{go_to, decimal, draw_progress_bar}
use cocos_os.Installer.Draw.Bar.{draw_progress_bar_lem}
use cocos_os.Installer.Detect.{DetectedOs, scan_partition, detect_operating_systems}
use cocos_os.Installer.Detect.Found.{AllFit, Found, detect_operating_systems_lem}
use cocos_os.Installer.Menu.{leave, choose_language, strip_line}
use cocos_os.Installer.Menu.Walk.{walk, screens, choose_language_lem}
use cocos_os.Installer.Draw.{Effect, popen}
use cocos_os.Installer.Detect.Asked.{commands, AllAsked}
use cocos_os.Installer.{main}
use cocos_os.Installer.Outcome.{main_lem}

decimal_42 : decimal 1042 ≡ codes "1042"
unfolding decimal
decimal_42 = refl

draw_progress_bar_lem_run :
    draw_progress_bar 50 660 12 30 100
    ≡ go_to 660 50
      ++ (codes "[" ++ (replicate (12 - 2 - 30 * (12 - 2) / 100) b' ' ++ (codes "]" ++ (10 ∷ []))))
draw_progress_bar_lem_run = draw_progress_bar_lem 50 660 12 30 100 (omega arith)

-- `"   8        1     102400 sda1\n"`
abbrev sda1 : Text
sda1 = codes "   8        1     102400 sda1" ++ (10 ∷ [])

scan_sda1 : scan_partition sda1 ≡ some (102400, codes "sda1")
unfolding scan_partition
scan_sda1 = refl

abbrev blkid : Text → Option Text
blkid name = some (codes "/dev/sda1: UUID=\"7-7\" TYPE=\"ext4\"")

abbrev partitions : List Text
partitions = codes "major minor  #blocks  name" ∷ [] ∷ sda1 ∷ codes " 8 0 9 sda" ∷ []

abbrev linux : DetectedOs
linux = record {
  name = codes "Linux";
  device = codes "sda1";
  type = codes "ext4";
  size = 104857600;
}

detect_operating_systems_lem_example :
    (found : List DetectedOs) × Found blkid partitions found
    × ((detect_operating_systems blkid (some partitions) 16).1 ≡ take 16 found)
    × AllFit (detect_operating_systems blkid (some partitions) 16).1
detect_operating_systems_lem_example = detect_operating_systems_lem blkid partitions 16

found_linux :
    detect_operating_systems blkid (some partitions) 16
    ≡ (popen (codes "blkid /dev/sda1 2>/dev/null") ∷ [], linux ∷ [])
unfolding detect_operating_systems
found_linux = refl

-- A line of one letter.
abbrev letter : ℕ → Text
letter c = c ∷ 10 ∷ []

abbrev moves : List Text
moves = letter b's' ∷ letter b's' ∷ letter b'w' ∷ letter b'x' ∷ []

choose_language_lem_run :
    (choose_language (moves ++ ((10 ∷ []) ∷ [])) 0 ≡ some (screens moves 0, walk moves 0, []))
    × (walk moves 0 ≤ 9)
choose_language_lem_run = choose_language_lem moves (10 ∷ []) [] 0 (ground arith) refl (omega arith)

walk-moves : walk moves 0 ≡ 1
walk-moves = refl

abbrev install_line : Text
install_line = codes "install" ++ (10 ∷ [])

abbrev typed : List Text
typed = moves ++ ((10 ∷ []) ∷ ((codes "help" ∷ []) ++ (install_line ∷ [])))

main_leaves :
    (probes : List Text) × AllAsked partitions probes
    × ((effects : List Effect) × (main blkid (some partitions) ((10 ∷ []) ∷ codes "exit" ∷ [])
          ≡ some effects)
        × (commands effects ≡ probes ++ []))
    × (0 ≤ 9)
unfolding strip_line
main_leaves =
    main_lem blkid (some partitions) [] (10 ∷ []) [] (codes "exit") [] leave tt refl tt refl
