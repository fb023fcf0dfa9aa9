-- ===== src/Installer/Outcome.antt =====
-- What `main` of installer/installer_gui.c does with the input.
use cocos_os.Base.{
  ℕ, ◌+◌, ◌≤◌, ◌≡◌, refl, ap, ap₂, ◌∙◌, true, false, arith, Option, some, List, [], ◌∷◌, ◌++◌, Text,
  codes, str_eq, str_eq_self, ltb, ◌%◌,
}
use mathlib.Core.Option
use cocos_os.Installer.Draw.{Effect, print, sleep, usleep}
use cocos_os.Installer.Detect.{DetectedOs, detect_operating_systems}
use cocos_os.Installer.Detect.Asked.{
  commands, commands-append, AllAsked, lines_of, detect_operating_systems-AllAsked,
}
use cocos_os.Installer.Screens.{init_installer_ui}
use cocos_os.Installer.Menu.{
  Decision, install, leave, first, action_screen, choose_action, strip_line,
}
use cocos_os.Installer.Menu.Walk.{step, move_of, walk, screens, NoEnter, choose_language_lem}
use cocos_os.Installer.{
  max_os_detected, after_detection, start_installation, main, language_command, press_enter,
}

-- Neither of the two words.
abbrev pub NoAction : List Text → Type 0
NoAction [] = Unit
NoAction (input ∷ lines) =
    (str_eq (strip_line input) (codes "install") ≡ false)
    × (str_eq (strip_line input) (codes "exit") ≡ false)
    × NoAction lines

-- What the second menu shows and waits for.
abbrev idle_effects : List DetectedOs → List Text → List Effect
idle_effects found [] = action_screen found ∷ []
idle_effects found (input ∷ lines) = action_screen found ∷ usleep 100000 ∷ idle_effects found lines

decide :
    (found : List DetectedOs) (idle : List Text) (last : Text) (rest : List Text)
    (decision : Decision)
    → NoAction idle
    → choose_action found (last ∷ rest) ≡ some (action_screen found ∷ [], decision)
    → choose_action found (idle ++ (last ∷ rest)) ≡ some (idle_effects found idle, decision)
unfolding choose_action
decide found [] last rest decision h e = e
decide found (input ∷ idle) last rest decision h e =
    rw (h.0, h.1)
      (ap (Option.map (λ (out, chosen). (action_screen found ∷ usleep 100000 ∷ out, chosen)))
        (decide found idle last rest decision h.2 e))

decide_install :
    (found : List DetectedOs) (last : Text) (rest : List Text)
    → strip_line last ≡ codes "install"
    → choose_action found (last ∷ rest) ≡ some (action_screen found ∷ [], install)
unfolding choose_action
decide_install found last rest h =
    let at : str_eq (strip_line last) (codes "install") ≡ true =
      ap (λ t. str_eq t (codes "install")) h ∙ str_eq_self (codes "install") in
    rw at

decide_exit :
    (found : List DetectedOs) (last : Text) (rest : List Text)
    → strip_line last ≡ codes "exit"
    → choose_action found (last ∷ rest) ≡ some (action_screen found ∷ [], leave)
unfolding choose_action str_eq
decide_exit found last rest h =
    let other : str_eq (strip_line last) (codes "install") ≡ false =
      ap (λ t. str_eq t (codes "install")) h in
    let at : str_eq (strip_line last) (codes "exit") ≡ true = ap (λ t. str_eq t (codes "exit")) h in
    rw (other, at)

-- The word for a decision.
abbrev pub word : Decision → Text
word install = codes "install"
word leave = codes "exit"

decide_word :
    (found : List DetectedOs) (last : Text) (rest : List Text) (decision : Decision)
    → strip_line last ≡ word decision
    → choose_action found (last ∷ rest) ≡ some (action_screen found ∷ [], decision)
decide_word found last rest install h = decide_install found last rest h
decide_word found last rest leave h = decide_exit found last rest h

-- What the installation asks of the system, with the command that stores the language.
abbrev pub installation_commands : (store_language : Text) → List Text
installation_commands store_language =
    codes "mkdir -p /tmp/cocosos_backup"
    ∷ codes "umount /dev/sda1 2>/dev/null || true"
    ∷ codes "umount /dev/sda2 2>/dev/null || true"
    ∷ codes "mkfs.ext4 /dev/sda1 -F"
    ∷ codes "mkdir -p /mnt/cocosos"
    ∷ codes "mount /dev/sda1 /mnt/cocosos"
    ∷ codes "cp -r /usr/share/cocosos/* /mnt/cocosos/ 2>/dev/null || true"
    ∷ codes "grub-install --root-directory=/mnt/cocosos /dev/sda 2>/dev/null || true"
    ∷ codes "echo 'cocosos' > /mnt/cocosos/etc/hostname"
    ∷ store_language
    ∷ codes "umount /mnt/cocosos"
    ∷ []

-- A number of one digit is stored as that digit.
abbrev pub store_digit : ℕ → Text
store_digit n = codes "echo '" ++ ((b'0' + n) ∷ codes "' > /mnt/cocosos/etc/language")

language_command_digit : (n : ℕ) → n ≤ 9 → language_command n ≡ store_digit n
unfolding language_command
language_command_digit n h =
    let small : ltb n 10 ≡ true = ground arith in
    let digit : n % 10 ≡ n = omega arith in rw (small, digit)

commands-after_detection :
    (n : ℕ) → commands (after_detection n) ≡ installation_commands (language_command n)
unfolding after_detection
commands-after_detection n = refl

append_nil : (xs : List Text) → xs ++ [] ≡ xs
append_nil [] = refl
append_nil (x ∷ xs) = ap (λ t. x ∷ t) (append_nil xs)

-- The menus run nothing.
commands-screens : (lines : List Text) (n : ℕ) → commands (screens lines n) ≡ []
commands-screens [] n = refl
commands-screens (input ∷ lines) n = commands-screens lines (step (move_of input) n)

commands-idle_effects :
    (found : List DetectedOs) (lines : List Text) → commands (idle_effects found lines) ≡ []
commands-idle_effects found [] = refl
commands-idle_effects found (input ∷ lines) = commands-idle_effects found lines

-- All that is printed, run and waited for, with what the decision leads to.
abbrev session_effects :
    List Effect → List DetectedOs → (menu idle : List Text) → List Effect → List Effect
session_effects probes found menu idle after =
    print init_installer_ui ∷ (screens menu 0 ++ (probes ++ (idle_effects found idle ++ after)))

-- Behind the menus only the search and the decision run commands.
commands-menus :
    (probes : List Effect) (found : List DetectedOs) (menu idle : List Text) (after : List Effect)
    → commands (session_effects probes found menu idle after) ≡ commands probes ++ commands after
commands-menus probes found menu idle after =
    commands-append (screens menu 0) (probes ++ (idle_effects found idle ++ after))
    ∙ ap₂ ◌++◌ (commands-screens menu 0) (
        commands-append probes (idle_effects found idle ++ after)
        ∙ ap (λ cs. commands probes ++ cs)
            (commands-append (idle_effects found idle) after
              ∙ ap (λ cs. cs ++ commands after) (commands-idle_effects found idle)))

module _ (blkid : Text → Option Text) (partitions : Option (List Text)) where
  abbrev asked : List Text
  asked = commands (detect_operating_systems blkid partitions max_os_detected).0

  commands-start_installation :
      (n : ℕ)
      → commands (start_installation blkid partitions n ++ press_enter)
        ≡ asked ++ installation_commands (language_command n)
  unfolding start_installation
  commands-start_installation n =
      let probes = (detect_operating_systems blkid partitions max_os_detected).0 in
      commands-append (start_installation blkid partitions n) press_enter
      ∙ append_nil (commands (start_installation blkid partitions n))
      ∙ commands-append probes (sleep 1 ∷ after_detection n)
      ∙ ap (λ cs. asked ++ cs) (commands-after_detection n)

  -- What `main` does after the second menu, and the commands of it.
  abbrev effects_of : ℕ → Decision → List Effect
  effects_of n install = start_installation blkid partitions n ++ press_enter
  effects_of n leave = []

  abbrev pub commands_of : (probes : List Text) (language : ℕ) → Decision → List Text
  commands_of probes language install = probes ++ installation_commands (store_digit language)
  commands_of probes language leave = []

  commands-effects_of :
      (n : ℕ) (decision : Decision)
      → n ≤ 9
      → commands (effects_of n decision) ≡ commands_of asked n decision
  commands-effects_of n leave small = refl
  commands-effects_of n install small =
      commands-start_installation n
      ∙ ap (λ c. asked ++ installation_commands c) (language_command_digit n small)

  main_decides :
      (menu : List Text) (enter : Text) (idle : List Text) (last : Text) (rest : List Text)
      (decision : Decision)
      → NoEnter menu
      → first enter ≡ 10
      → NoAction idle
      → strip_line last ≡ word decision
      → let (probes, found) = detect_operating_systems blkid partitions max_os_detected in
        main blkid partitions (menu ++ (enter ∷ (idle ++ (last ∷ rest))))
        ≡ some (session_effects probes found menu idle (effects_of (walk menu 0) decision))
  unfolding main
  main_decides menu enter idle last rest install no_enter is_enter no_action e =
      let found = (detect_operating_systems blkid partitions max_os_detected).1 in
      let menu_ends =
        choose_language_lem menu enter (idle ++ (last ∷ rest)) 0 no_enter is_enter (omega arith) in
      rw (
        menu_ends.0,
        Option.bind,
        decide found idle last rest install no_action (decide_word found last rest install e),
      )
  main_decides menu enter idle last rest leave no_enter is_enter no_action e =
      let found = (detect_operating_systems blkid partitions max_os_detected).1 in
      let menu_ends =
        choose_language_lem menu enter (idle ++ (last ∷ rest)) 0 no_enter is_enter (omega arith) in
      rw (
        menu_ends.0,
        Option.bind,
        decide found idle last rest leave no_action (decide_word found last rest leave e),
      )

  pub main_lem :
      (menu : List Text) (enter : Text) (idle : List Text) (last : Text) (rest : List Text)
      (decision : Decision)
      → NoEnter menu
      → first enter ≡ 10
      → NoAction idle
      → strip_line last ≡ word decision
      → (probes : List Text) × AllAsked (lines_of partitions) probes
        × ((effects : List Effect) × (main blkid partitions
                (menu ++ (enter ∷ (idle ++ (last ∷ rest))))
              ≡ some effects)
            × (commands effects ≡ probes ++ commands_of probes (walk menu 0) decision))
        × (walk menu 0 ≤ 9)
  main_lem menu enter idle last rest decision no_enter is_enter no_action e =
      let (probes, found) = detect_operating_systems blkid partitions max_os_detected in
      let small =
        (choose_language_lem menu enter (idle ++ (last ∷ rest)) 0 no_enter is_enter
          (omega arith)).1 in
      let after = effects_of (walk menu 0) decision in
      (
        asked,
        detect_operating_systems-AllAsked blkid partitions max_os_detected,
        (
          session_effects probes found menu idle after,
          main_decides menu enter idle last rest decision no_enter is_enter no_action e,
          commands-menus probes found menu idle after
              ∙ ap (λ cs. asked ++ cs) (commands-effects_of (walk menu 0) decision small),
        ),
        small,
      )
