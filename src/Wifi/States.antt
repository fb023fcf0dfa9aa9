-- ===== src/Wifi/States.antt =====
-- The states that kernel/drivers/wifi/wifi.c goes through.
use cocos_os.Base.{ℕ, ◌≡◌, ◌≢◌, refl, ◌⊎◌, inl, inr, Option, none, some, arith, Text}
use cocos_os.Wifi.{
  disabled, disconnected, connected, WifiDevice, Wifi, wifi_init, wifi_register, wifi_scan,
  wifi_connect, wifi_disconnect,
}

-- One call of a client, with its arguments.
pub data Step : Wifi → Wifi → Type 0 where
  start : (s : Wifi) → Step s (wifi_init s)
  register : (s : Wifi) (dev : Option WifiDevice) → Step s (wifi_register s dev).1
  scan : (s : Wifi) (n : ℕ) → Step s (wifi_scan s n).1
  connect : (s : Wifi) (ssid password : Option Text) → Step s (wifi_connect s ssid password).1
  disconnect : (s : Wifi) → Step s (wifi_disconnect s)

pub data Reach (s : Wifi) : Wifi → Type 0 where
  here : Reach s s
  next : {t u : Wifi} → Reach s t → Step t u → Reach s u

-- Between calls the state is disabled, disconnected or connected, and a connection has a device.
abbrev pub Settled : Wifi → Type 0
Settled s =
    (s.global_state ≡ disabled)
    ⊎ (s.global_state ≡ disconnected)
    ⊎ ((s.global_state ≡ connected) × (s.default_dev ≢ none))

register-Settled :
    (s : Wifi) (dev : Option WifiDevice) → Settled s → Settled (wifi_register s dev).1
unfolding wifi_register
register-Settled s none h = h
register-Settled s (some dev) h = ground arith

scan-Settled : (s : Wifi) (n : ℕ) → Settled s → Settled (wifi_scan s n).1
unfolding wifi_scan
scan-Settled s n h = ground arith

connect-Settled :
    (s : Wifi) (ssid password : Option Text) → Settled s → Settled (wifi_connect s ssid password).1
unfolding wifi_connect
connect-Settled s none password h = h
connect-Settled s (some ssid) password h = ground arith

disconnect-Settled : (s : Wifi) → Settled s → Settled (wifi_disconnect s)
unfolding wifi_disconnect
disconnect-Settled s h = ground arith

Step-Settled : {s t : Wifi} → Step s t → Settled s → Settled t
unfolding wifi_init
Step-Settled (start s) h = inr (inl refl)
Step-Settled (register s dev) h = register-Settled s dev h
Step-Settled (scan s n) h = scan-Settled s n h
Step-Settled (connect s ssid password) h = connect-Settled s ssid password h
Step-Settled (disconnect s) h = disconnect-Settled s h

-- From a settled state any calls lead to a settled state: disabled, disconnected, or connected
-- with a default device, never one that a call passes through.
pub Reach-Settled : {s t : Wifi} → Settled s → Reach s t → Settled t
Reach-Settled h here = h
Reach-Settled h (next r st) = Step-Settled st (Reach-Settled h r)
