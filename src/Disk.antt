-- ===== src/Disk.antt =====
-- kernel/drivers/disk/disk.c. The drive behind the ports is an argument: what its ports do to a state of its own.
-- `ata_wait` polls without end, so a call is given a number of polls for each wait, and is
-- `none` where they do not suffice.
pub mod Drive
pub mod Sectors
use cocos_os.Base.{
  ℕ, zero, suc, ◌+◌, ◌*◌, ◌/◌, ◌%◌, ◌^◌, Option, none, some, List, [], ◌∷◌, if◌then◌else◌, has_bit,
}
use mathlib.Core.Option

abbrev pub ata_data : ℕ
ata_data = 0x1F0

abbrev pub ata_sector_count : ℕ
ata_sector_count = 0x1F2

abbrev pub ata_lba_low : ℕ
ata_lba_low = 0x1F3

abbrev pub ata_lba_mid : ℕ
ata_lba_mid = 0x1F4

abbrev pub ata_lba_high : ℕ
ata_lba_high = 0x1F5

abbrev pub ata_drive : ℕ
ata_drive = 0x1F6

abbrev pub ata_command : ℕ
ata_command = 0x1F7

abbrev pub ata_status : ℕ
ata_status = 0x1F7

abbrev pub ata_cmd_read : ℕ
ata_cmd_read = 0x20

abbrev pub ata_cmd_write : ℕ
ata_cmd_write = 0x30

-- `inb`, `outb`, `inw` and `outw`, defined in assembly, on the drive's ports.
pub record Ports (S : Type 0) : Type 0 where
  pub inb : ℕ → S → ℕ × S
  pub outb : (port val : ℕ) → S → S
  pub inw : ℕ → S → ℕ × S
  pub outw : (port val : ℕ) → S → S

module _ {S : Type 0} (io : Ports S) where
  -- With `limit` polls to go.
  unfoldable pub ata_wait : ℕ → S → Option S
  ata_wait zero s = none
  ata_wait (suc limit) s =
      let (status, s') = io.inb ata_status s in
      let rest = ata_wait limit s' in if has_bit status 7 then rest else some s'

  -- The registers before the command. `0xE0` has no bit in common with the four that follow it.
  unfoldable pub send_address : ℕ → S → S
  send_address lba s =
      let s1 = io.outb ata_drive (0xE0 + lba / 2 ^ 24 % 2 ^ 4) s in
      let s2 = io.outb ata_sector_count 1 s1 in
      let s3 = io.outb ata_lba_low (lba % 2 ^ 8) s2 in
      let s4 = io.outb ata_lba_mid (lba / 2 ^ 8 % 2 ^ 8) s3 in
      io.outb ata_lba_high (lba / 2 ^ 16 % 2 ^ 8) s4

  -- The loop that fills the buffer, each word's low byte first.
  unfoldable pub read_words : ℕ → S → List ℕ × S
  read_words zero s = ([], s)
  read_words (suc left) s =
      let (w, s') = io.inw ata_data s in
      let (bytes, s'') = read_words left s' in ((w % 2 ^ 8) ∷ (w / 2 ^ 8 % 2 ^ 8) ∷ bytes, s'')

  -- The loop that sends the buffer, which has two bytes for each round.
  unfoldable pub write_words : ℕ → List ℕ → S → S
  write_words zero buffer s = s
  write_words (suc left) [] s = s
  write_words (suc left) (b ∷ []) s = s
  write_words (suc left) (b ∷ c ∷ bs) s =
      let s' = io.outw ata_data (b + c * 2 ^ 8) s in write_words left bs s'

  -- The command, given once the drive is ready, and the wait after it.
  unfoldable pub ata_send : (limit command lba : ℕ) → S → Option S
  unfolding ata_wait send_address Option.bind
  ata_send limit command lba s =
      Option.bind (ata_wait limit s)
        (λ s'. ata_wait limit (io.outb ata_command command (send_address lba s')))

  -- The result, what the buffer holds, and the drive.
  unfoldable pub disk_read_sector : (limit lba : ℕ) → S → Option (ℕ × List ℕ × S)
  unfolding ata_send read_words
  disk_read_sector limit lba s =
      Option.map (λ s'. let (bytes, t) = read_words 256 s' in (1, bytes, t))
        (ata_send limit ata_cmd_read lba s)

  unfoldable pub disk_write_sector : (limit lba : ℕ) → List ℕ → S → Option (ℕ × S)
  unfolding ata_send write_words
  disk_write_sector limit lba buffer s =
      Option.map (λ s'. (1, write_words 256 buffer s')) (ata_send limit ata_cmd_write lba s)
