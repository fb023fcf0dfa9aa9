-- ===== src/Nic/Frames.antt =====
-- The frames and the registration of kernel/drivers/net/nic.c.
use cocos_os.Base.{
  ℕ, zero, suc, ◌+◌, ◌-◌, ◌*◌, ◌/◌, ◌%◌, ◌^◌, ◌<◌, ◌≤◌, ◌≡◌, ◌≢◌, refl, ap, ◌∙◌, false, Option,
  none, some, List, [], ◌∷◌, ◌++◌, arith, ltb, length, length-append, length-take, take, get_elem?,
  ==_of_ne,
}
use cocos_os.Nic.{
  mac_addr_len, eth_frame_max, NicDevice, Net, nic_register, frame_bytes, net_send_frame, polled,
  net_poll,
}

-- What a receiver reads at the offsets of an Ethernet header.
abbrev pub ethertype_at : List ℕ → Option ℕ
ethertype_at frame = elim (get_elem? frame 12) [
  | none ↦ none
  | some hi ↦ elim (get_elem? frame 13) [ none ↦ none | some lo ↦ some (hi * 2 ^ 8 + lo) ]
]

length-frame_bytes :
    (dest source : List ℕ) (ethertype : ℕ) (payload : List ℕ)
    → length dest ≡ 6
    → length source ≡ 6
    → length (frame_bytes dest source ethertype payload) ≡ 14 + length payload
length-frame_bytes dest source ethertype payload hd hs = omega (
  arith,
  length-append (take mac_addr_len dest)
      (take mac_addr_len source ++ ((ethertype / 2 ^ 8 % 2 ^ 8) ∷ (ethertype % 2 ^ 8) ∷ payload)),
  length-append (take mac_addr_len source)
      ((ethertype / 2 ^ 8 % 2 ^ 8) ∷ (ethertype % 2 ^ 8) ∷ payload),
  length-take mac_addr_len dest,
  length-take mac_addr_len source,
)

-- An item past the first part of a list.
get_elem?-append :
    (xs ys : List ℕ) (n i : ℕ) → length xs ≡ n → get_elem? (xs ++ ys) (n + i) ≡ get_elem? ys i
get_elem?-append [] ys n i h = ap (get_elem? ys) (omega arith)
get_elem?-append (x ∷ xs) ys zero i h = absurd (omega arith)
get_elem?-append (x ∷ xs) ys (suc n) i h =
    let step : suc n + i ≡ suc (n + i) = omega arith in
    rw step (get_elem?-append xs ys n i (omega arith))

frame_item :
    (dest source rest : List ℕ) (i : ℕ)
    → length dest ≡ 6
    → length source ≡ 6
    → get_elem? (take mac_addr_len dest ++ (take mac_addr_len source ++ rest)) (6 + (6 + i))
      ≡ get_elem? rest i
frame_item dest source rest i hd hs =
    get_elem?-append (take mac_addr_len dest) (take mac_addr_len source ++ rest) 6 (6 + i)
      (omega (arith, length-take mac_addr_len dest))
    ∙ get_elem?-append (take mac_addr_len source) rest 6 i
        (omega (arith, length-take mac_addr_len source))

ethertype-frame_bytes :
    (dest source : List ℕ) (ethertype : ℕ) (payload : List ℕ)
    → length dest ≡ 6
    → length source ≡ 6
    → ethertype < 2 ^ 16
    → ethertype_at (frame_bytes dest source ethertype payload) ≡ some ethertype
ethertype-frame_bytes dest source ethertype payload hd hs small =
    let rest : List ℕ = (ethertype / 2 ^ 8 % 2 ^ 8) ∷ (ethertype % 2 ^ 8) ∷ payload in
    rw (frame_item dest source rest 0 hd hs, frame_item dest source rest 1 hd hs)
      (ap some (omega arith))

-- With a default device that sends, six-byte addresses, a 16-bit type and a payload of at most
-- 1504 bytes: the frame that `net_send_frame` hands to the driver is 14 bytes longer than the
-- payload and at most 1518 bytes long, its type field reads back as the type asked for, and the
-- result is the driver's.
pub net_send_frame_lem :
    (s : Net) (dev : NicDevice) (send : List ℕ → ℕ) (dest : List ℕ) (ethertype : ℕ)
    (payload : List ℕ)
    → s.default_nic ≡ some dev
    → dev.send ≡ some send
    → length dest ≡ 6
    → length dev.mac ≡ 6
    → ethertype < 2 ^ 16
    → length payload ≤ 1504
    → (frame : List ℕ) × (net_send_frame s dest ethertype payload ≡ (send frame, some frame))
      × (length frame ≡ 14 + length payload)
      × (length frame ≤ 1518)
      × (ethertype_at frame ≡ some ethertype)
unfolding net_send_frame
net_send_frame_lem s dev send dest ethertype payload default sends hd hs small short =
    let count = length-frame_bytes dest dev.mac ethertype payload hd hs in
    let fits : ltb (eth_frame_max - 14) (length payload) ≡ false = ground arith in
    (
      frame_bytes dest dev.mac ethertype payload,
      rw (default, net_send_frame, sends, fits),
      count,
      omega arith,
      ethertype-frame_bytes dest dev.mac ethertype payload hd hs small,
    )

-- If the initialisation of a device that receives fails, `nic_register` returns its result and
-- does not make it the default, yet `net_poll` asks it, before the devices it asked until then.
pub net_poll-nic_register_failed :
    (s : Net) (dev : NicDevice) (res received : ℕ)
    → dev.init ≡ some res
    → res ≢ 0
    → dev.recv ≡ some received
    → ((nic_register s (some dev)).0 ≡ res)
      × ((nic_register s (some dev)).1.default_nic ≡ s.default_nic)
      × (net_poll (nic_register s (some dev)).1 ≡ dev.address ∷ net_poll s)
unfolding nic_register polled
net_poll-nic_register_failed s dev res received fails ne hears =
    rw (fails, ==_of_ne ne) (refl, refl, rw (hears, polled))
