-- ===== src/Cpm.antt =====
-- cpm/cpm.c: the commands of the package manager. `argv` is the list of its arguments, `argc` the
-- list's length.
use cocos_os.Base.{
  ℕ, ◌+◌, List, ◌∷◌, ◌++◌, leb, if◌then◌else◌, length, Text, codes, str_eq, Outcome, ok, fault,
}
use cocos_os.Screen.{Call, fs_mkdir, terminal_write, end_line}

-- A text and the line's end.
abbrev line : Text → List Call
line str = terminal_write (str ++ end_line)

abbrev pub cpm_help : List Call
cpm_help =
    line (codes "Cocos Package Manager")
    ++ (line (codes "Uso: cpm <comando>" ++ end_line)
        ++ (line (codes "Comandos:")
            ++ (line (codes "  init      Inicializar proyecto")
                ++ (line (codes "  install   Instalar paquete")
                    ++ (line (codes "  remove    Eliminar paquete")
                        ++ (line (codes "  list      Listar paquetes")
                            ++ (line (codes "  update    Actualizar paquetes")
                                ++ line (codes "  version   Mostrar version"))))))))

abbrev pub cpm_init : List Call
cpm_init =
    line (codes "Inicializando proyecto CPM")
    ++ (fs_mkdir (codes "/.cpm")
        ∷ fs_mkdir (codes "/.cpm/packages")
        ∷ line (codes "Estructura creada correctamente"))

-- `char ruta[64]`
abbrev pub ruta_size : ℕ
ruta_size = 64

-- `"/.cpm/packages/"`
abbrev pub packages : Text
packages = codes "/.cpm/packages/"

-- The copy into `ruta` needs room for the closing NUL.
unfoldable pub cpm_install : List Text → Outcome (List Call)
cpm_install (command ∷ verb ∷ name ∷ rest) =
    if leb ruta_size (length packages + length name)
    then fault
    else ok (
        terminal_write (codes "Instalando: ")
        ++ (line name ++ (fs_mkdir (packages ++ name) ∷ line (codes "Paquete instalado"))))
cpm_install _ = ok (line (codes "Instalando todas las dependencias"))

-- `"--------------------\n"`
abbrev ruler : List Call
ruler = line (codes "--------------------")

abbrev pub cpm_list : List Call
cpm_list =
    line (end_line ++ codes "Paquetes instalados:")
    ++ (ruler ++ (line (codes "  (listado de paquetes)") ++ ruler))

unfoldable pub cpm_remove : List Text → List Call
cpm_remove (command ∷ verb ∷ name ∷ rest) =
    terminal_write (codes "Eliminando: ") ++ (line name ++ line (codes "Paquete eliminado"))
cpm_remove _ = line (codes "Especifique nombre de paquete")

abbrev pub cpm_version : List Call
cpm_version = line (codes "CPM v" ++ codes "0.1.0")

-- The branches on `argv[1]`.
unfoldable pub cpm_command : Text → List Text → Outcome (List Call)
unfolding cpm_install cpm_remove
cpm_command verb argv =
    if str_eq verb (codes "help")
    then ok cpm_help
    else if str_eq verb (codes "init")
    then ok cpm_init
    else if str_eq verb (codes "install")
    then cpm_install argv
    else if str_eq verb (codes "remove")
    then ok (cpm_remove argv)
    else if str_eq verb (codes "list")
    then ok cpm_list
    else if str_eq verb (codes "version")
    then ok cpm_version
    else ok (line (codes "Comando desconocido") ++ cpm_help)

-- The shell calls it with one argument or more.
unfoldable pub cpm_main : List Text → Outcome (List Call)
unfolding cpm_command
cpm_main (command ∷ verb ∷ rest) = cpm_command verb (command ∷ verb ∷ rest)
cpm_main _ = ok cpm_help
