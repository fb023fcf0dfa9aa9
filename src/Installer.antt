-- ===== src/Installer.antt =====
-- installer/installer_gui.c: the screens, the installation and `main`. What is printed, run and waited for is
-- a list of effects; what `system` answers is never read, and what /proc/partitions and `blkid` answer stays the same
-- throughout. Screens has what the two menus print.
pub mod Draw
pub mod Detect
pub mod Screens
pub mod Menu
pub mod Outcome
use cocos_os.Base.{
  ℕ, ◌+◌, ◌*◌, ◌/◌, Option, none, some, List, [], ◌∷◌, ◌++◌, map, take, Text, codes,
}
use mathlib.Core.Option
use cocos_os.Installer.Draw.{
  Effect, print, system, sleep, decimal, escape, set_window_title, draw_text, draw_button,
  draw_progress_bar,
}
use cocos_os.Installer.Detect.{DetectedOs, detect_operating_systems}
use cocos_os.Installer.Screens.{init_installer_ui}
use cocos_os.Installer.Menu.{Decision, install, leave, choose_language, choose_action}

-- `MAX_OS_DETECTED`
abbrev pub max_os_detected : ℕ
max_os_detected = 16

-- `INSTALL_DIR`
abbrev pub install_dir : Text
install_dir = codes "/mnt/cocosos"

unfoldable pub update_progress : ℕ → Text → List Effect
unfolding draw_progress_bar
update_progress value status =
    print (draw_progress_bar 50 660 700 value 100)
    ∷ print (draw_text 50 690 status (codes "#cccccc"))
    ∷ []

-- `snprintf` into `cmd[128]`
unfoldable pub language_command : ℕ → Text
unfolding decimal
language_command idioma =
    take 127 (
      codes "echo '"
      ++ (decimal idioma ++ (codes "' > " ++ (install_dir ++ codes "/etc/language"))))

-- A step of the installation: the progress, its commands, and a second's wait.
abbrev pub phase : ℕ → Text → List Text → List Effect
phase value status commands =
    update_progress value status ++ (map system commands ++ (sleep 1 ∷ []))

-- The steps after the first.
unfoldable pub after_detection : ℕ → List Effect
unfolding update_progress
after_detection idioma =
    phase 20 (codes "Creating backup...") (codes "mkdir -p /tmp/cocosos_backup" ∷ [])
    ++ (phase 30 (codes "Unmounting existing partitions...") (
          codes "umount /dev/sda1 2>/dev/null || true"
          ∷ codes "umount /dev/sda2 2>/dev/null || true"
          ∷ [])
        ++ (phase 40 (codes "Formatting partition...") (codes "mkfs.ext4 /dev/sda1 -F" ∷ [])
            ++ (phase 50 (codes "Mounting partition...") (
                  (codes "mkdir -p " ++ install_dir)
                  ∷ (codes "mount /dev/sda1 " ++ install_dir)
                  ∷ [])
                ++ (phase 60 (codes "Copying system files...") (
                      (codes "cp -r /usr/share/cocosos/* "
                        ++ (install_dir ++ codes "/ 2>/dev/null || true"))
                      ∷ [])
                    ++ (phase 70 (codes "Installing bootloader...") (
                          (codes "grub-install --root-directory="
                            ++ (install_dir ++ codes " /dev/sda 2>/dev/null || true"))
                          ∷ [])
                        ++ (phase 80 (codes "Configuring system...") (
                              (codes "echo 'cocosos' > " ++ (install_dir ++ codes "/etc/hostname"))
                              ∷ language_command idioma
                              ∷ [])
                            ++ (phase 90 (codes "Finalizing...")
                                  ((codes "umount " ++ install_dir) ∷ [])
                                ++ (update_progress 100 (codes "Installation complete!")
                                    ++ (print (
                                          draw_text 50 720 (codes "Reboot to start CocosOS")
                                            (codes "#00ff00"))
                                        ∷ [])))))))))

-- `printf("\nPress Enter to exit...")`
abbrev pub press_enter : List Effect
press_enter = print (10 ∷ codes "Press Enter to exit...") ∷ []

module _ (blkid : Text → Option Text) where
  -- In the first step the systems are looked for again.
  unfoldable pub start_installation : Option (List Text) → ℕ → List Effect
  unfolding update_progress detect_operating_systems after_detection
  start_installation partitions idioma =
      print (draw_text 50 690 (codes "Starting installation...") (codes "#ffff00"))
      ∷ (update_progress 10 (codes "Detecting operating systems...")
          ++ ((detect_operating_systems blkid partitions max_os_detected).0
              ++ (sleep 1 ∷ after_detection idioma)))

  -- All that `main` prints, runs and waits for, by the lines of /proc/partitions and of the keyboard; `none`
  -- where it never ends.
  unfoldable pub main : Option (List Text) → List Text → Option (List Effect)
  unfolding detect_operating_systems choose_language choose_action start_installation Option.bind
  main partitions lines = Option.bind (choose_language lines 0) λ (out, idioma, rest).
      let (probes, found) = detect_operating_systems blkid partitions max_os_detected in
      Option.map
        (λ (more, decision).
          print init_installer_ui
          ∷ (out
              ++ (probes
                  ++ (more ++ elim decision [
                    | install ↦ start_installation partitions idioma ++ press_enter
                    | leave ↦ []
                  ]))))
        (choose_action found rest)
