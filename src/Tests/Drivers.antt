-- ===== src/Tests/Drivers.antt =====
-- The drivers for the mouse, the network, the disk and the interrupt table at small inputs.
use cocos_os.Base.{
  ℕ, ◌<◌, ◌≤◌, ◌≡◌, ◌≢◌, refl, inl, none, some, List, [], ◌∷◌, arith, length, replicate,
}
use cocos_os.Mouse.{Mouse, mouse_handler}
use cocos_os.Mouse.Packets.{
  handle_all, forward, backward, Moved, mouse_handler_packet, mouse_handler_cycle,
}
use cocos_os.Nic.{NicDevice, Net, nic_register, net_send_frame, net_poll}
use cocos_os.Nic.Frames.{ethertype_at, net_send_frame_lem, net_poll-nic_register_failed}
use cocos_os.Wifi.{WifiDevice, Wifi, disabled, wifi_register, wifi_connect}
use cocos_os.Wifi.States.{here, next, Settled, Reach-Settled, register, connect}
use cocos_os.Devices.{Idt, idt_init}
use cocos_os.Devices.Fields.{handler_of, idt_init_lem}

abbrev mouse : Mouse
mouse = record {
  mouse_cycle = 0;
  mouse_byte = λ _. 0;
  mouse_x = 10;
  mouse_y = 10;
  mouse_button = 0;
}

mouse_handler_cycle_run : (mouse_handler 0x20 9 (record mouse { mouse_cycle = 2 })).mouse_cycle < 3
mouse_handler_cycle_run =
    mouse_handler_cycle 0x20 9 (record mouse { mouse_cycle = 2 }) (omega arith)

-- Five to the left and two up, the left button down, with a byte of the keyboard in between.
mouse_handler_packet_example :
    let s' = handle_all ((0x21, 9) ∷ (0x01, 77) ∷ (0x21, 251) ∷ (0x21, 2) ∷ []) mouse in
    (s'.mouse_button ≡ 1)
    × Moved (backward 5) 10 s'.mouse_x
    × Moved (backward 2) 10 s'.mouse_y
    × (s'.mouse_cycle ≡ 0)
mouse_handler_packet_example =
    mouse_handler_packet mouse ((0x21, 9) ∷ (0x01, 77) ∷ (0x21, 251) ∷ (0x21, 2) ∷ []) 9
      (backward 5) (forward 2) refl (omega arith) (omega arith) (omega arith, omega arith)
      (omega arith) refl

-- A driver that answers with the length of what it sends.
abbrev card : NicDevice
card = record {
  address = 100;
  name = [];
  mac = 1 ∷ 2 ∷ 3 ∷ 4 ∷ 5 ∷ 6 ∷ [];
  init = some 5;
  send = some length;
  recv = some 0;
}

abbrev net : Net
net = record { nic_list = card ∷ []; default_nic = some card }

net_send_frame_lem_example :
    (frame : List ℕ) × (net_send_frame net (replicate 6 255) 0x0806 (7 ∷ 8 ∷ [])
      ≡ (length frame, some frame))
    × (length frame ≡ 16)
    × (length frame ≤ 1518)
    × (ethertype_at frame ≡ some 0x0806)
net_send_frame_lem_example =
    net_send_frame_lem net card length (replicate 6 255) 0x0806 (7 ∷ 8 ∷ []) refl refl refl refl
      (omega arith) (omega arith)

net_poll-nic_register_failed_run :
    let empty : Net = record { nic_list = []; default_nic = none } in
    ((nic_register empty (some card)).0 ≡ 5)
    × ((nic_register empty (some card)).1.default_nic ≡ none)
    × (net_poll (nic_register empty (some card)).1 ≡ 100 ∷ net_poll empty)
net_poll-nic_register_failed_run =
    net_poll-nic_register_failed (record { nic_list = []; default_nic = none }) card 5 0 refl
      (omega arith) refl

abbrev wireless : WifiDevice
wireless = record {
  address = 200;
  scan = some (λ n. n);
  connect = some (λ ssid password. 0);
  disconnect = none;
}

abbrev wifi : Wifi
wifi = record { devices = []; default_dev = none; global_state = disabled }

-- A device is registered and connected.
abbrev joined : Wifi
joined = (wifi_connect (wifi_register wifi (some wireless)).1 (some (b'c' ∷ [])) none).1

Reach-Settled_example : Settled joined
Reach-Settled_example = Reach-Settled {s = wifi} {t = joined} (inl refl) (
    next (next here (register wifi (some wireless)))
      (connect (wifi_register wifi (some wireless)).1 (some (b'c' ∷ [])) none))

abbrev idt : Idt
idt = record {
  entries = λ _. record { base_low = 0; selector = 0; zero_byte = 0; flags = 0; base_high = 0 };
  limit = 0;
  base = 0;
}

idt_init_lem_run :
    (handler_of ((idt_init idt 0x5000 0x12345678).entries 32) ≡ 0x12345678)
    × ((idt_init idt 0x5000 0x12345678).limit ≡ 2047)
    × ((idt_init idt 0x5000 0x12345678).base ≡ 0x5000)
    × ((n : ℕ) → n ≢ 32 → (idt_init idt 0x5000 0x12345678).entries n ≡ idt.entries n)
idt_init_lem_run = idt_init_lem idt 0x5000 0x12345678 (omega arith)
