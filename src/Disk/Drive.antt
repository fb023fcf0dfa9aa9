-- ===== src/Disk/Drive.antt =====
-- What kernel/drivers/disk/disk.c relies on of the drive behind its ports.
use cocos_os.Base.{
  ℕ, zero, suc, ◌/◌, ◌+◌, ◌*◌, ◌%◌, ◌^◌, ◌<◌, ◌≡◌, ◌≢◌, false, List, [], ◌∷◌, ◌++◌, update, has_bit,
  length,
}
use cocos_os.Disk.{
  Ports, ata_data, ata_lba_low, ata_lba_mid, ata_lba_high, ata_drive, ata_command, ata_status,
  ata_sector_count, ata_cmd_read, ata_cmd_write,
}

-- A drive as its documentation has it: the sectors as words, the registers by their ports, and the words that
-- are still to be read, or that have been sent.
pub record View : Type 0 where
  pub sectors : ℕ → List ℕ
  pub registers : ℕ → ℕ
  pub to_read : List ℕ
  pub sent : List ℕ

-- The sector that the registers name, with 28 bits.
abbrev pub sector_named : (ℕ → ℕ) → ℕ
sector_named r =
    r ata_drive % 2 ^ 4 * 2 ^ 24 + r ata_lba_high * 2 ^ 16 + r ata_lba_mid * 2 ^ 8 + r ata_lba_low

-- One sector is asked for, by its number.
abbrev pub Addressed : (ℕ → ℕ) → Type 0
Addressed r = (r ata_sector_count ≡ 1) × (r ata_drive / 2 ^ 4 ≡ 0xE)

-- The drive after some polls.
unfoldable pub polls : {S : Type 0} → Ports S → ℕ → S → S
polls io zero s = s
polls io (suc k) s = polls io k (io.inb ata_status s).1

-- The ports of a drive: a register holds what was written to it, the commands name the sector by the
-- registers, words are read and sent in order, 256 that were sent are the sector, polling changes nothing, and
-- the drive is ready again within some polls.
pub record IsDrive {S : Type 0} (io : Ports S) (limit : ℕ) (view : S → View) : Type 0 where
  pub register :
      (port val : ℕ) (s : S)
      → port ≢ ata_command
      → view (io.outb port val s)
        ≡ (let v = view s in record v { registers = update v.registers port val })
  pub read_command :
      (s : S)
      → Addressed (view s).registers
      → view (io.outb ata_command ata_cmd_read s)
        ≡ (let v = view s in record v { to_read = v.sectors (sector_named v.registers) })
  pub write_command :
      (s : S)
      → Addressed (view s).registers
      → view (io.outb ata_command ata_cmd_write s) ≡ (let v = view s in record v { sent = [] })
  pub read_word :
      (w : ℕ) (ws : List ℕ) (s : S)
      → (view s).to_read ≡ w ∷ ws
      → ((io.inw ata_data s).0 ≡ w)
        × (view (io.inw ata_data s).1 ≡ (let v = view s in record v { to_read = ws }))
  pub send_word :
      (w : ℕ) (s : S)
      → length (view s).sent + 1 < 256
      → view (io.outw ata_data w s) ≡ (let v = view s in record v { sent = v.sent ++ (w ∷ []) })
  pub last_word :
      (w : ℕ) (s : S)
      → Addressed (view s).registers
      → length (view s).sent ≡ 255
      → view (io.outw ata_data w s) ≡ (
          let v = view s in
          record v {
            sectors = update v.sectors (sector_named v.registers) (v.sent ++ (w ∷ []));
            sent = [];
          })
  pub polling : (s : S) → view (io.inb ata_status s).1 ≡ view s
  pub ready :
      (s : S) → (k : ℕ) × (k < limit) × (has_bit (io.inb ata_status (polls io k s)).0 7 ≡ false)
