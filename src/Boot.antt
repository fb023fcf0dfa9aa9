-- ===== src/Boot.antt =====
-- kernel/kernel.c: the order in which the parts are started, each by its own initialisation. The
-- functions that no C file of the repository defines are parameters, which may do anything to the state below;
-- `blade_init` is empty.
pub mod Halted
pub mod Started
use cocos_os.Base.{
  ℕ, ◌*◌, Option, none, some, List, [], ◌∷◌, ◌++◌, ◌==◌, not, if◌then◌else◌, Text, codes, Outcome,
  ok, panicked, fault, ◌>>=◌, or_fault,
}
use mathlib.Core.Option
use cocos_os.Memory.{Addr, memory_init, memory_alloc}
use cocos_os.Events.{Queues, event_init}
use cocos_os.Screen.{Call, display_clear, display_print}
use cocos_os.Log.{log_init, log_info, log_warn, log_error}
use cocos_os.Devices.{PortWrite, Idt, idt_init, pic_init, pit_init}
use cocos_os.Disk.{Ports, disk_read_sector}
use cocos_os.Vfs.{Vfs, ramfs_init}
use cocos_os.Fs.{FileSystem, fs_init}
use cocos_os.Nic.{Net, net_init}
use cocos_os.Wifi.{Wifi, wifi_init}

-- The static variables of the parts that are started, and what was written to ports and screen.
pub record Machine : Type 0 where
  pub queues : Queues
  pub vfs : Vfs
  pub files : FileSystem
  pub net : Net
  pub wifi : Wifi
  pub idt : Idt
  pub ports : List PortWrite
  pub screen : List Call

-- What the kernel is linked with: the addresses of the interrupt table and of the timer's handler, and the functions
-- that no C file defines.
pub record Linked : Type 0 where
  pub idt_at : Addr
  pub irq0_handler : Addr
  pub wrile : ℕ → List PortWrite
  pub cli : Machine → Machine
  pub gdt_init : Machine → Machine
  pub sti : Machine → Machine
  pub mm_init : Machine → Machine
  pub device_init : Machine → Machine
  pub gui_init : Machine → Machine
  pub lua_init : Machine → Machine

-- `"Bienvenido a Cocos OS"`, with its NUL.
abbrev pub welcome : List ℕ
welcome = codes "Bienvenido a Cocos OS" ++ (0 ∷ [])

abbrev pub write_ports : Machine → List PortWrite → Machine
write_ports s out = record s { ports = s.ports ++ out }

-- The machine has stopped for good in `internal_error_handler`.
pub data Boot : Type 0 where
  halted : Machine → Boot
  running : Machine → Boot

unfoldable pub internal_error_handler : Linked → Machine → Machine
unfolding log_error
internal_error_handler at s =
    at.cli (write_ports s (log_error at.wrile (codes "Error critico del sistema")))

-- Called nowhere.
unfoldable pub kernel_init : Linked → Machine → Machine
unfolding log_info
kernel_init at s = write_ports s (log_info at.wrile (codes "Inicializando subsistemas..."))

-- Called nowhere.
unfoldable pub kernel_start : Linked → Machine → Machine
unfolding log_info
kernel_start at s = write_ports s (log_info at.wrile (codes "Cocos OS esta en ejecucion"))

unfoldable pub kernel_stage2 : Linked → Machine → Outcome Machine
unfolding ramfs_init fs_init net_init wifi_init log_info
kernel_stage2 at s = do
  v ← or_fault (ramfs_init s.vfs welcome)
  let s1 = at.mm_init (record s { vfs = v })
  let s2 = at.device_init (record s1 { files = fs_init s1.files })
  let s3 =
      write_ports (record s2 { net = net_init s2.net })
        (log_info at.wrile (codes "Inicializando stack de red...")
          ++ log_info at.wrile (codes "Stack de red listo"))
  ok (at.lua_init (at.gui_init (record s3 { wifi = wifi_init s3.wifi })))

-- `kernel_main` after the disk was read.
unfoldable pub start_parts : Linked → Machine → Outcome Machine
unfolding kernel_stage2 event_init log_info log_warn log_error memory_init memory_alloc idt_init
    pit_init
start_parts at s = do
  let shown : Machine = record s {
    screen = s.screen ++ (display_clear ∷ display_print (codes "cocos OS iniciado") 0);
    queues = event_init s.queues;
  }
  let logged = write_ports shown (
      log_init
      ++ (log_info at.wrile (codes "Kernel iniciado")
          ++ (log_warn at.wrile (codes "Memoria sin mapear")
              ++ log_error at.wrile (codes "Un driver fallo"))))
  (p, heap) ← or_fault (memory_alloc (memory_init s.vfs.heap.cell 0x100000 (1024 * 1024)) 64)
  let v = s.vfs
  let s1 = at.gdt_init (record logged { vfs = record v { heap = heap } })
  let s2 : Machine = record s1 { idt = idt_init s1.idt at.idt_at at.irq0_handler }
  kernel_stage2 at (at.sti (write_ports s2 (pic_init ++ pit_init 1000)))

-- The rest, by what `disk_read_sector` returned: an error is taken to be anything but 0.
unfoldable pub after_read : Linked → ℕ → Machine → Outcome Boot
unfolding start_parts internal_error_handler log_error
after_read at read_status s =
    if not (read_status == 0)
    then ok (
        halted (
          internal_error_handler at (
            write_ports s
              (log_error at.wrile (codes "Fallo al leer sector de disco, codigo de error: %d")))))
    else (start_parts at s >>= λ s'. ok (running s'))

-- With the ports of a drive and its state. It returns the drive's state afterwards and how far the machine got: to the main
-- loop, or to a halt; `none` when the drive is still busy after `limit` polls.
unfoldable pub kernel_main :
    {S : Type 0} → Ports S → (limit : ℕ) → S → Linked → Machine → Option (S × Outcome Boot)
unfolding after_read disk_read_sector
kernel_main io limit drive at s =
    Option.map (λ (read_status, buffer, drive'). (drive', after_read at read_status s))
      (disk_read_sector io limit 0 drive)
