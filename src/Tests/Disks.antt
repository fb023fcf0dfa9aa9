-- ===== src/Tests/Disks.antt =====
-- kernel/drivers/disk/disk.c and the start of kernel/kernel.c with a drive that is busy for one poll after a command.
use cocos_os.Base.{
  ℕ, zero, suc, ◌+◌, ◌≡◌, ◌≢◌, refl, ap, inl, inr, Bool, true, false, some, List, [], ◌∷◌, ◌++◌,
  arith, ◌==◌, if◌then◌else◌, Bool-cases, ==_of_ne, update, length, replicate, has_bit,
}
use cocos_os.Disk.{Ports, ata_command, ata_cmd_read, disk_read_sector, disk_write_sector}
use cocos_os.Disk.Drive.{View, sector_named, polls, IsDrive}
use cocos_os.Disk.Sectors.{Bytes, disk_read_sector-disk_write_sector}

pub record Simulated : Type 0 where
  pub view : View
  pub busy : Bool

abbrev command : ℕ → View → View
command val v =
    if val == ata_cmd_read
    then record v { to_read = v.sectors (sector_named v.registers) }
    else record v { sent = [] }

abbrev next_word : List ℕ → ℕ
next_word [] = 0
next_word (w ∷ ws) = w

abbrev later_words : List ℕ → List ℕ
later_words [] = []
later_words (w ∷ ws) = ws

abbrev with_words : View → List ℕ → View
with_words v ws = record v { to_read = ws }

abbrev take_word : ℕ → View → View
take_word w v =
    if length v.sent + 1 == 256
    then record v {
      sectors = update v.sectors (sector_named v.registers) (v.sent ++ (w ∷ []));
      sent = [];
    }
    else record v { sent = v.sent ++ (w ∷ []) }

abbrev pub simulated : Ports Simulated
simulated = record {
  inb = λ port s. (if s.busy then 0xD0 else 0x50, record s { busy = false });
  outb = λ port val s.
      let v = s.view in
      if port == ata_command
      then record s { view = command val v; busy = true }
      else record s { view = record v { registers = update v.registers port val } };
  inw = λ port s.
      let v = s.view in
      (next_word v.to_read, record s { view = record v { to_read = later_words v.to_read } });
  outw = λ port val s. record s { view = take_word val s.view };
}

abbrev pub drive : Simulated
drive = record {
  view = record { sectors = λ _. []; registers = λ _. 0; to_read = []; sent = [] };
  busy = false;
}

pub simulated-IsDrive : IsDrive simulated 2 (λ s. s.view)
unfolding polls has_bit
simulated-IsDrive = record {
  register = λ port val s ne. rw (==_of_ne ne);
  read_command = λ s a. refl;
  write_command = λ s a. refl;
  read_word = λ w ws s e. (ap next_word e, ap (with_words s.view) (ap later_words e));
  send_word =
      λ w s room. let other : (length s.view.sent + 1 == 256) ≡ false = ground arith in rw other;
  last_word =
      λ w s a full. let last : (length s.view.sent + 1 == 256) ≡ true = ground arith in rw last;
  polling = λ s. refl;
  ready = λ s. elim (Bool-cases s.busy) [
    | inl busy ↦ (1, omega arith, refl)
    | inr idle ↦ (0, omega arith, rw idle refl)
  ];
}

Bytes-replicate : (n : ℕ) → Bytes (replicate n 7)
Bytes-replicate zero = tt
Bytes-replicate (suc n) = (omega arith, Bytes-replicate n)

disk_read_sector-disk_write_sector_example :
    (t u : Simulated) × (disk_write_sector simulated 2 0x1234567 (replicate 512 7) drive
      ≡ some (1, t))
    × (disk_read_sector simulated 2 0x1234567 t ≡ some (1, replicate 512 7, u))
    × ((n : ℕ) → n ≢ 0x1234567 → u.view.sectors n ≡ drive.view.sectors n)
disk_read_sector-disk_write_sector_example =
    disk_read_sector-disk_write_sector simulated 2 (λ s. s.view) 0x1234567 (replicate 512 7) drive
      simulated-IsDrive (omega arith) refl (Bytes-replicate 512)
