-- ===== src/Installer/Screens.antt =====
-- installer/installer_gui.c: the screens, as what is printed of them.
use cocos_os.Base.{ℕ, ◌+◌, ◌*◌, ◌/◌, List, [], ◌∷◌, ◌++◌, ◌==◌, if◌then◌else◌, take, Text, codes}
use cocos_os.Installer.Draw.{decimal, escape, set_window_title, draw_text, draw_button}
use cocos_os.Installer.Detect.{DetectedOs}

-- `"\033[2J\033[H"`
abbrev pub clear_screen : Text
clear_screen = escape (codes "[2J") ++ escape (codes "[H")

abbrev pub init_installer_ui : Text
init_installer_ui =
    set_window_title (codes "CocosOS Installer")
    ++ (clear_screen ++ escape (codes "]11;#1a1a2e" ++ (7 ∷ [])))

-- `snprintf` into `info[256]`
abbrev pub os_info : ℕ → DetectedOs → Text
os_info i os = take 255 (
    decimal (i + 1)
    ++ (codes ". "
        ++ (os.name
            ++ (codes " on /dev/"
                ++ (os.device
                    ++ (codes " (" ++ (decimal (os.size / (1024 * 1024)) ++ codes " MB)")))))))

unfoldable pub draw_detected : ℕ → List DetectedOs → Text
draw_detected i [] = []
draw_detected i (os ∷ rest) =
    draw_text 50 (280 + i * 20) (os_info i os) (codes "#cccccc") ++ draw_detected (i + 1) rest

unfoldable pub render_installer_ui : List DetectedOs → Text
unfolding draw_detected
render_installer_ui detected_os =
    draw_text 50 30 (codes "CocosOS Installer v1.0.0") (codes "#e94560")
    ++ (draw_text 50 80 (codes "Welcome to CocosOS Installation") (codes "#ffffff")
        ++ (draw_text 50 120 (codes "This installer will replace your current OS.")
              (codes "#cccccc")
            ++ (draw_button 50 180 (codes "Install CocosOS")
                ++ (draw_button 270 180 (codes "Exit")
                    ++ (draw_text 50 250 (codes "Detected Operating Systems:") (codes "#ffffff")
                        ++ (draw_detected 0 detected_os
                            ++ draw_text 50 450 (codes "Encryption: LUKS (AES-256) available")
                                (codes "#cccccc")))))))

-- `idiomas`, the first with its two bytes for the letter before `ol`.
abbrev pub idiomas : List Text
idiomas =
    (codes "Espa" ++ (0xC3 ∷ 0xB1 ∷ codes "ol"))
    ∷ codes "English"
    ∷ codes "Portugues"
    ∷ codes "Italiano"
    ∷ codes "Ruso"
    ∷ codes "Chino"
    ∷ codes "Japones"
    ∷ codes "Coreano"
    ∷ codes "Latin"
    ∷ codes "Developer Mode"
    ∷ []

-- The loop of `pantalla_idioma`.
unfoldable pub draw_languages : (idioma_seleccionado i : ℕ) → List Text → Text
draw_languages idioma_seleccionado i [] = []
draw_languages idioma_seleccionado i (idioma ∷ rest) =
    (if i == idioma_seleccionado
      then draw_text 50 (160 + i * 25) (codes ">") (codes "#e94560")
      else [])
    ++ (draw_text 70 (160 + i * 25) idioma (codes "#cccccc")
        ++ draw_languages idioma_seleccionado (i + 1) rest)

unfoldable pub pantalla_idioma : ℕ → Text
unfolding draw_languages
pantalla_idioma idioma_seleccionado =
    draw_text 50 120 (codes "Seleccione idioma / Select language:") (codes "#ffffff")
    ++ draw_languages idioma_seleccionado 0 idiomas
