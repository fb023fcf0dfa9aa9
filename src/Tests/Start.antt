-- ===== src/Tests/Start.antt =====
-- The start of the kernel, its main loop, the applications and the mouse's port at small inputs.
use cocos_os.Base.{
  replicate, length, ℕ, ◌≡◌, refl, false, arith, none, some, List, [], ◌∷◌, ◌++◌, take, codes, ok,
  ◌==◌, if◌then◌else◌,
}
use cocos_os.Memory.{header}
use cocos_os.Ring.Lossy
use cocos_os.Events.{Event, event_key, event_mouse, input_keyboard, Queues}
use cocos_os.Events.Delivery.{IsReady, waiting_events}
use cocos_os.Kernel.{Round, handle_events, run_userspace}
use cocos_os.Kernel.Loop.{
  handle_all, arrivals, of_events, handle_events_lem, run_userspace_conserves,
}
use cocos_os.Runtime.{Apps, Host, runtime_boot, runtime_run_lua_app}
use cocos_os.Runtime.Order.{lua_file, loaded, start_all, runtime_boot_lem}
use cocos_os.Mouse.{mouse_wait}
use cocos_os.Mouse.Waiting.{Waited, mouse_wait_lem}
use cocos_os.Tests.Disks.{Simulated, simulated, drive, simulated-IsDrive}
use cocos_os.Boot.{write_ports, Machine, Linked, halted, kernel_main}
use cocos_os.Log.Lines.{bytes_out}
use cocos_os.Boot.Halted.{kernel_main_halts}
use cocos_os.Screen.{display_clear}
use cocos_os.Wifi.{disabled}

abbrev key : ℕ → Event
key n = record { type = event_key; data1 = n; data2 = 0 }

-- Two keys wait.
abbrev two_keys : Queues
two_keys = record {
  events = record { queue = key; head = 63; tail = 1 };
  inputs = record {
    queue = λ i. record { type = input_keyboard; data1 = i; data2 = 0; data3 = 0 };
    head = 0;
    tail = 0;
  };
  ticks = 0;
}

two_keys-IsReady : IsReady two_keys
two_keys-IsReady = record {
  events_ok = record { head_in = omega arith; tail_in = omega arith };
  inputs_ok = record { head_in = omega arith; tail_in = omega arith };
}

handle_events_lem_example :
    (s' : Queues) × (handle_events (λ e. 0) 64 two_keys
      ≡ some (handle_all (λ e. 0) (waiting_events two_keys), s'))
    × (waiting_events s' ≡ [])
    × IsReady s'
handle_events_lem_example = handle_events_lem (λ e. 0) two_keys two_keys-IsReady

-- A movement of the mouse arrives, then nothing while a character is there, then a key.
abbrev rounds : List Round
rounds =
    record { arrived = record { type = event_mouse; data1 = 3; data2 = 4 } ∷ []; key = 0 }
    ∷ record { arrived = []; key = b'x' }
    ∷ record { arrived = key 5 ∷ []; key = 0 }
    ∷ []

run_userspace_conserves_example :
    of_events (λ e. e.data1) (run_userspace (λ e. e.data1) rounds two_keys).0
      ++ handle_all (λ e. e.data1) (waiting_events (run_userspace (λ e. e.data1) rounds two_keys).1)
    ≡ handle_all (λ e. e.data1) (waiting_events two_keys ++ arrivals (λ e. e.data1) rounds)
unfolding Lossy.poll
run_userspace_conserves_example =
    run_userspace_conserves (λ e. e.data1) rounds two_keys two_keys-IsReady
      (omega arith, (omega arith, (omega arith, tt)))

-- A table of one, with room for three; an application adds its number.
abbrev one_app : Apps (List ℕ)
one_app = record { apps = λ i. record { name = codes "clock"; init = none }; app_count = 1 }

-- What happens is noted, with the lengths of what is printed; the Lua file fails.
abbrev noting : Host (List ℕ) ℕ
noting = record {
  kernel_boot = λ st. 10 ∷ st;
  kernel_print = λ t st. length t ∷ st;
  lual_newstate = λ st. (7, 11 ∷ st);
  lual_openlibs = λ l st. 12 ∷ st;
  lual_dofile = λ l file st. (false, 13 ∷ st);
  lua_tostring = λ l st. 1 ∷ 2 ∷ [];
  lua_close = λ l st. 14 ∷ st;
}

runtime_boot_lem_example :
    let (s', st') = runtime_boot noting 3 one_app (λ st. 1 ∷ st) (λ st. 2 ∷ st) (λ st. 3 ∷ st) [] in
    (loaded s'
      ≡ take 3 (
          loaded one_app
          ++ (record { name = codes "notepad"; init = some (λ st. 1 ∷ st) }
              ∷ record { name = codes "calculator"; init = some (λ st. 2 ∷ st) }
              ∷ record { name = codes "settings"; init = some (λ st. 3 ∷ st) }
              ∷ [])))
    × (st' ≡ runtime_run_lua_app noting lua_file (start_all (loaded s') (38 ∷ 10 ∷ [])))
runtime_boot_lem_example =
    runtime_boot_lem noting 3 one_app (λ st. 1 ∷ st) (λ st. 2 ∷ st) (λ st. 3 ∷ st) [] (omega arith)

-- The last application finds no room.
runtime_boot_full :
    (runtime_boot noting 3 one_app (λ st. 1 ∷ st) (λ st. 2 ∷ st) (λ st. 3 ∷ st) []).1
    ≡ 14 ∷ 2 ∷ 13 ∷ 12 ∷ 11 ∷ 2 ∷ 1 ∷ 38 ∷ 10 ∷ []
unfolding runtime_boot
runtime_boot_full = refl

-- The port is busy twice.
abbrev busy_twice : ℕ → ℕ
busy_twice i = if i == 0 then 2 else if i == 1 then 3 else 1

mouse_wait_lem_run : Waited 1 busy_twice 100000 0 (mouse_wait 1 busy_twice)
mouse_wait_lem_run = mouse_wait_lem 1 busy_twice

-- The functions that no C file defines write to ports and screen.
abbrev beeps : ℕ → Machine → Machine
beeps n s = write_ports s ((0x61, n) ∷ [])

abbrev linked : Linked
linked = record {
  idt_at = 0x5000;
  irq0_handler = 0x12345678;
  wrile = λ c. [];
  cli = beeps 0;
  gdt_init = beeps 1;
  sti = beeps 2;
  mm_init = beeps 3;
  device_init = beeps 4;
  gui_init = λ s. record s { screen = display_clear ∷ s.screen };
  lua_init = λ s. s;
}

abbrev cold : Machine
cold = record {
  queues = two_keys;
  vfs = record {
    nodes = [];
    heap = record { cell = λ i. header 0 false 0; heap_start = 0; heap_end = 0 };
    bytes = λ i. [];
  };
  files = record { files = λ i. record { name = []; content = []; size = 0 }; file_count = 3 };
  net = record { nic_list = []; default_nic = none };
  wifi = record { devices = []; default_dev = none; global_state = disabled };
  idt = record {
    entries = λ _. record { base_low = 0; selector = 0; zero_byte = 0; flags = 0; base_high = 0 };
    limit = 0;
    base = 0;
  };
  ports = [];
  screen = [];
}

abbrev sevens : Simulated
sevens = let v = drive.view in record drive { view = record v { sectors = λ n. replicate 256 7 } }

kernel_main_halts_example :
    (t : Simulated) × (t.view.sectors ≡ sevens.view.sectors)
    × (kernel_main simulated 2 sevens linked cold
        ≡ some (
          t,
          ok (
              halted (
                beeps 0 (record cold {
                  ports =
                      cold.ports ++ bytes_out (λ c. []) (b'[' ∷ b'F' ∷ 10 ∷ b'[' ∷ b'E' ∷ 10 ∷ []);
                }))),
        ))
kernel_main_halts_example =
    kernel_main_halts simulated 2 (λ s. s.view) sevens linked cold simulated-IsDrive refl
