-- ===== src/Wifi.antt =====
-- kernel/drivers/wifi/wifi.c and wifi.h: the wireless devices and the state of the connection. A
-- driver's functions are not in this repository: each is a field of the device, an option where the
-- code tests the pointer, and gives the result that the driver returns. An `int` is its 32-bit
-- pattern.
pub mod States
use cocos_os.Base.{
  ℕ, ◌-◌, ◌^◌, Option, none, some, List, [], ◌∷◌, ◌==◌, if◌then◌else◌, Text, Bool, true, false,
}
use cocos_os.Memory.{Addr}

abbrev pub minus_one : ℕ
minus_one = 2 ^ 32 - 1

-- `wifi_state_t`
pub data WifiState : Type 0 where
  disabled initializing disconnected scanning connecting connected error : WifiState

-- `wifi_device_t`, the fields that wifi.c reads: `scan` by the number of results, `connect` by network
-- and key.
pub record WifiDevice : Type 0 where
  pub address : Addr
  pub scan : Option (ℕ → ℕ)
  pub connect : Option (Text → Option Text → ℕ)
  pub disconnect : Option (Unit {0})

-- `devices`, the newest first, `default_dev` and `global_state`.
pub record Wifi : Type 0 where
  pub devices : List WifiDevice
  pub default_dev : Option WifiDevice
  pub global_state : WifiState

unfoldable pub wifi_init : Wifi → Wifi
wifi_init s = record { devices = []; default_dev = none; global_state = disconnected }

unfoldable pub wifi_register : Wifi → Option WifiDevice → ℕ × Wifi
wifi_register s none = (minus_one, s)
wifi_register s (some dev) = (
  0,
  elim s.default_dev [
    | none ↦ record s { devices = dev ∷ s.devices; default_dev = some dev }
    | some d ↦ record s { devices = dev ∷ s.devices }
  ],
)

abbrev pub wifi_get_default : Wifi → Option WifiDevice
wifi_get_default s = s.default_dev

abbrev pub is_disconnected : WifiState → Bool
is_disconnected disconnected = true
is_disconnected _ = false

-- The function pointers of the default device; `none` too where there is no device.
abbrev pub default_scan : Wifi → Option (ℕ → ℕ)
default_scan s = elim s.default_dev [ none ↦ none | some dev ↦ dev.scan ]

abbrev pub default_connect : Wifi → Option (Text → Option Text → ℕ)
default_connect s = elim s.default_dev [ none ↦ none | some dev ↦ dev.connect ]

abbrev pub default_disconnect : Wifi → Option (Unit {0})
default_disconnect s = elim s.default_dev [ none ↦ none | some dev ↦ dev.disconnect ]

-- While the driver scans the state is `scanning`, and it is `disconnected` again when it returns.
unfoldable pub wifi_scan : Wifi → ℕ → ℕ × Wifi
wifi_scan s max_results = elim (default_scan s) [
  | none ↦ (minus_one, s)
  | some scan ↦
      if is_disconnected s.global_state
      then (scan max_results, record s { global_state = disconnected })
      else (minus_one, s)
]

-- While the driver connects the state is `connecting`.
unfoldable pub wifi_connect : Wifi → Option Text → Option Text → ℕ × Wifi
wifi_connect s none password = (minus_one, s)
wifi_connect s (some ssid) password = elim (default_connect s) [
  | none ↦ (minus_one, s)
  | some connect ↦
      (let res = connect ssid password in
        (res, record s { global_state = if res == 0 then connected else disconnected }))
]

unfoldable pub wifi_disconnect : Wifi → Wifi
wifi_disconnect s = elim (default_disconnect s) [
  | none ↦ s
  | some call ↦ record s { global_state = disconnected }
]

abbrev pub wifi_get_state : Wifi → WifiState
wifi_get_state s = s.global_state
