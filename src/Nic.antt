-- ===== src/Nic.antt =====
-- kernel/drivers/net/nic.c and nic.h: the list of network cards and the frames that are sent. A driver's
-- functions are not in this repository: each is a field of the device, an option where the code tests
-- the pointer, and gives the result that the driver returns. An `int` is its 32-bit pattern. Devices
-- are told apart by their addresses.
pub mod Frames
use cocos_os.Base.{
  ℕ, ◌+◌, ◌-◌, ◌/◌, ◌%◌, ◌^◌, Option, none, some, List, [], ◌∷◌, ◌++◌, ltb, ◌==◌, if◌then◌else◌,
  length, take, Text,
}
use cocos_os.Memory.{Addr, null}

abbrev pub minus_one : ℕ
minus_one = 2 ^ 32 - 1

abbrev pub minus_two : ℕ
minus_two = 2 ^ 32 - 2

abbrev pub mac_addr_len : ℕ
mac_addr_len = 6

abbrev pub eth_frame_max : ℕ
eth_frame_max = 1518

-- `nic_device_t`; `send` is called with the frame, `recv` answers with what it has received.
pub record NicDevice : Type 0 where
  pub address : Addr
  pub name : Text
  pub mac : List ℕ
  pub init : Option ℕ
  pub send : Option (List ℕ → ℕ)
  pub recv : Option ℕ

-- `nic_list`, the newest first, and `default_nic`.
pub record Net : Type 0 where
  pub nic_list : List NicDevice
  pub default_nic : Option NicDevice

unfoldable pub net_init : Net → Net
net_init s = record { nic_list = []; default_nic = none }

-- A device takes the default's place only if none has it.
abbrev pub set_default : Net → NicDevice → Net
set_default s dev = elim s.default_nic [ none ↦ record s { default_nic = some dev } | some d ↦ s ]

-- `dev->init(dev)`, 0 where there is none.
abbrev pub init_result : NicDevice → ℕ
init_result dev = elim dev.init [ none ↦ 0 | some res ↦ res ]

unfoldable pub nic_register : Net → Option NicDevice → ℕ × Net
nic_register s none = (minus_one, s)
nic_register s (some dev) =
    let s' : Net = record s { nic_list = dev ∷ s.nic_list } in
    if init_result dev == 0 then (0, set_default s' dev) else (init_result dev, s')

abbrev pub nic_get_default : Net → Option NicDevice
nic_get_default s = s.default_nic

-- The bytes that `net_send_frame` puts together.
abbrev pub frame_bytes : List ℕ → List ℕ → ℕ → List ℕ → List ℕ
frame_bytes dest_mac source_mac ethertype payload =
    take mac_addr_len dest_mac
    ++ (take mac_addr_len source_mac
        ++ ((ethertype / 2 ^ 8 % 2 ^ 8) ∷ (ethertype % 2 ^ 8) ∷ payload))

-- `payload` is the bytes `payload[0 .. len)`. The second part is the frame that the driver is given.
unfoldable pub net_send_frame : Net → List ℕ → ℕ → List ℕ → ℕ × Option (List ℕ)
net_send_frame s dest_mac ethertype payload = elim s.default_nic [
  | none ↦ (minus_one, none)
  | some dev ↦ elim dev.send [
    | none ↦ (minus_one, none)
    | some send ↦
        if ltb (eth_frame_max - 14) (length payload)
        then (minus_two, none)
        else (let frame = frame_bytes dest_mac dev.mac ethertype payload in
            (send frame, some frame))
  ]
]

-- The devices that `net_poll` asks, in order.
unfoldable pub polled : List NicDevice → List Addr
polled [] = []
polled (dev ∷ devs) = elim dev.recv [
  | none ↦ polled devs
  | some received ↦ dev.address ∷ polled devs
]

abbrev pub net_poll : Net → List Addr
net_poll s = polled s.nic_list
