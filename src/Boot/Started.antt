-- ===== src/Boot/Started.antt =====
-- What the parts that kernel/kernel.c starts are like in the end.
use cocos_os.Base.{
  ℕ, ◌*◌, ◌∷◌, ◌≡◌, none, some, List, [], ◌++◌, ltb, if◌then◌else◌, take, drop, codes,
}
use cocos_os.Log.{log_init, log_info, log_warn, log_error}
use cocos_os.Screen.{display_clear, display_print}
use cocos_os.Events.{event_init}
use cocos_os.Memory.{Addr, Cells, memory_alloc, memory_init}
use cocos_os.Vfs.{Vfs, vfs_read, welcome_name, ramfs_init}
use cocos_os.Vfs.Reach.{Reach}
use cocos_os.Vfs.Contract.{empty}
use cocos_os.Fs.{fs_init}
use cocos_os.Nic.{net_init}
use cocos_os.Devices.{idt_init, pic_init, pit_init}
use cocos_os.Events.Delivery.{waiting_events}
use cocos_os.Wifi.{Wifi, disconnected, wifi_init}
use cocos_os.Boot.{Machine, Linked, write_ports, welcome}

-- A function that touches neither the event queues, nor the files, nor the networks, nor the interrupt table.
pub record Keeps (f : Machine → Machine) : Type 0 where
  pub queues : (s : Machine) → (f s).queues ≡ s.queues
  pub vfs : (s : Machine) → (f s).vfs ≡ s.vfs
  pub files : (s : Machine) → (f s).files ≡ s.files
  pub net : (s : Machine) → (f s).net ≡ s.net
  pub wifi : (s : Machine) → (f s).wifi ≡ s.wifi
  pub idt : (s : Machine) → (f s).idt ≡ s.idt

pub record Apart (at : Linked) : Type 0 where
  pub gdt_init : Keeps at.gdt_init
  pub sti : Keeps at.sti
  pub mm_init : Keeps at.mm_init
  pub device_init : Keeps at.device_init
  pub gui_init : Keeps at.gui_init
  pub lua_init : Keeps at.lua_init

-- The files that `ramfs_init` leaves, in the heap that holds 64 bytes of `kernel_main`.
pub Welcomed : Cells → (Addr → List ℕ) → Vfs → Type 0
Welcomed cells bytes v =
    Reach (empty cells 0x100000 (1024 * 1024) bytes) (0x10000C ∷ []) v
    × ((buffer : List ℕ) (size : ℕ)
        → vfs_read v welcome_name (some buffer) size ≡ (
            let count = if ltb 22 size then 22 else size in
            (count, some (take count welcome ++ drop count buffer))))

-- What `start_parts` leaves.
abbrev pub IsStarted : Linked → Machine → Machine → Type 0
IsStarted at s s' =
    (waiting_events s'.queues ≡ [])
    × (s'.files.file_count ≡ 0)
    × (s'.net.nic_list ≡ [])
    × (s'.wifi.global_state ≡ disconnected)
    × (s'.idt.limit ≡ 2047)
    × (s'.idt.base ≡ at.idt_at)
    × Welcomed s.vfs.heap.cell s.vfs.bytes s'.vfs

-- The state that `kernel_stage2` ends in, when `ramfs_init` leaves `v`.
abbrev before_device : Linked → Machine → Vfs → Machine
before_device at s v =
    let s1 = at.mm_init (record s { vfs = v }) in record s1 { files = fs_init s1.files }

abbrev before_gui : Linked → Machine → Vfs → Machine
before_gui at s v =
    let s2 = at.device_init (before_device at s v) in
    let s3 =
      write_ports (record s2 { net = net_init s2.net })
        (log_info at.wrile (codes "Inicializando stack de red...")
          ++ log_info at.wrile (codes "Stack de red listo")) in
    record s3 { wifi = wifi_init s3.wifi }

abbrev stage2_end : Linked → Machine → Vfs → Machine
stage2_end at s v = at.lua_init (at.gui_init (before_gui at s v))

-- The files and the heap that `kernel_main` takes its 64 bytes from, and after `ramfs_init`.
abbrev taken : Vfs → Vfs
taken v = elim (memory_alloc (memory_init v.heap.cell 0x100000 (1024 * 1024)) 64) [
  | none ↦ v
  | some (p, heap) ↦ record v { heap = heap }
]

abbrev welcomed : Vfs → Vfs
welcomed v = elim (ramfs_init (taken v) welcome) [ none ↦ v | some v' ↦ v' ]

-- The state that `kernel_stage2` is called in.
abbrev before_gdt : Linked → Machine → Machine
before_gdt at s =
    let shown : Machine = record s {
      screen = s.screen ++ (display_clear ∷ display_print (codes "cocos OS iniciado") 0);
      queues = event_init s.queues;
    } in
    let logged = write_ports shown (
      log_init
      ++ (log_info at.wrile (codes "Kernel iniciado")
          ++ (log_warn at.wrile (codes "Memoria sin mapear")
              ++ log_error at.wrile (codes "Un driver fallo")))) in
    record logged { vfs = taken s.vfs }

abbrev before_sti : Linked → Machine → Machine
before_sti at s =
    let s1 = at.gdt_init (before_gdt at s) in
    let s2 : Machine = record s1 { idt = idt_init s1.idt at.idt_at at.irq0_handler } in
    write_ports s2 (pic_init ++ pit_init 1000)

abbrev before_stage2 : Linked → Machine → Machine
before_stage2 at s = at.sti (before_sti at s)
