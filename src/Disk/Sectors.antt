-- ===== src/Disk/Sectors.antt =====
-- What kernel/drivers/disk/disk.c does with a drive.
use cocos_os.Base.{
  ℕ, zero, suc, ◌+◌, ◌*◌, ◌/◌, ◌%◌, ◌^◌, ◌<◌, ◌≡◌, ◌≢◌, refl, sym, ap, ap₂, ◌∙◌, inl, inr, false,
  some, List, [], ◌∷◌, ◌++◌, arith, length, length-append, Bool-cases, has_bit, update, update_self,
  update-ne,
}
use mathlib.Core.Option
use mathlib.Core.List.{append_assoc}
use mathlib.Core.Path.{subst}
use cocos_os.Disk.{
  Ports, ata_data, ata_lba_low, ata_lba_mid, ata_lba_high, ata_drive, ata_command, ata_status,
  ata_sector_count, ata_cmd_read, ata_cmd_write, ata_wait, send_address, read_words, write_words,
  ata_send, disk_read_sector, disk_write_sector,
}
use cocos_os.Disk.Drive.{View, sector_named, Addressed, polls, IsDrive}

-- A drive with these words still to be read, with none, and with a sector stored.
abbrev reads : View → List ℕ → View
reads v ws = record v { to_read = ws }

abbrev nothing_left : View → View
nothing_left v = reads v []

abbrev stores : View → List ℕ → View
stores v ws = record v { sectors = update v.sectors (sector_named v.registers) ws; sent = [] }

-- The bytes of words, the low byte first, and the words of bytes.
abbrev pub bytes_of : List ℕ → List ℕ
bytes_of [] = []
bytes_of (w ∷ ws) = (w % 2 ^ 8) ∷ (w / 2 ^ 8 % 2 ^ 8) ∷ bytes_of ws

abbrev pub words_of : List ℕ → List ℕ
words_of [] = []
words_of (b ∷ []) = []
words_of (b ∷ c ∷ bs) = (b + c * 2 ^ 8) ∷ words_of bs

-- Every item is a byte.
abbrev pub Bytes : List ℕ → Type 0
Bytes [] = Unit
Bytes (b ∷ bs) = (b < 256) × Bytes bs

bytes_of-words_of :
    (k : ℕ) (buffer : List ℕ)
    → length buffer ≡ k * 2
    → Bytes buffer
    → bytes_of (words_of buffer) ≡ buffer
bytes_of-words_of k [] h small = refl
bytes_of-words_of k (b ∷ []) h small = absurd (omega arith)
bytes_of-words_of zero (b ∷ c ∷ bs) h small = absurd (omega arith)
bytes_of-words_of (suc k) (b ∷ c ∷ bs) h small =
    let low : (b + c * 2 ^ 8) % 2 ^ 8 ≡ b = omega arith in
    let high : (b + c * 2 ^ 8) / 2 ^ 8 % 2 ^ 8 ≡ c = omega arith in
    rw (low, high) (ap (λ r. b ∷ c ∷ r) (bytes_of-words_of k bs (omega arith) small.1.1))

length-words_of : (k : ℕ) (buffer : List ℕ) → length buffer ≡ k * 2 → length (words_of buffer) ≡ k
length-words_of zero [] h = refl
length-words_of (suc k) [] h = absurd (omega arith)
length-words_of k (b ∷ []) h = absurd (omega arith)
length-words_of zero (b ∷ c ∷ bs) h = absurd (omega arith)
length-words_of (suc k) (b ∷ c ∷ bs) h = ap suc (length-words_of k bs (omega arith))

module _ {S : Type 0} (io : Ports S) (limit : ℕ) (view : S → View) (d : IsDrive io limit view) where
  -- A wait ends at the first poll that finds the drive ready, within the polls that are given.
  ata_wait-polls :
      (fuel k : ℕ) (s : S)
      → k < fuel
      → has_bit (io.inb ata_status (polls io k s)).0 7 ≡ false
      → (t : S) × (ata_wait io fuel s ≡ some t) × (view t ≡ view s)
  unfolding ata_wait polls
  ata_wait-polls zero k s low idle = absurd (omega arith)
  ata_wait-polls (suc fuel) zero s low idle = ((io.inb ata_status s).1, rw idle, d.polling s)
  ata_wait-polls (suc fuel) (suc k) s low idle =
      elim (Bool-cases (has_bit (io.inb ata_status s).0 7)) [
        | inl busy ↦
            (let (t, run, same) =
                ata_wait-polls fuel k (io.inb ata_status s).1 (omega arith) idle in
              (t, rw busy run, same ∙ d.polling s))
        | inr now ↦ ((io.inb ata_status s).1, rw now, d.polling s)
      ]

  wait : (s : S) → (t : S) × (ata_wait io limit s ≡ some t) × (view t ≡ view s)
  wait s = let (k, low, idle) = d.ready s in ata_wait-polls limit k s low idle

  abbrev addressed : ℕ → (ℕ → ℕ) → ℕ → ℕ
  addressed lba r =
      update
        (update
          (update (update (update r ata_drive (0xE0 + lba / 2 ^ 24 % 2 ^ 4)) ata_sector_count 1)
            ata_lba_low (lba % 2 ^ 8))
          ata_lba_mid (lba / 2 ^ 8 % 2 ^ 8))
        ata_lba_high (lba / 2 ^ 16 % 2 ^ 8)

  abbrev with_registers : View → (ℕ → ℕ) → View
  with_registers v r = record v { registers = r }

  written :
      (port val : ℕ) (s : S) (v : View) (r : ℕ → ℕ)
      → port ≢ ata_command
      → view s ≡ with_registers v r
      → view (io.outb port val s) ≡ with_registers v (update r port val)
  written port val s v r ne e =
      d.register port val s ne ∙ ap (λ (w : View). with_registers w (update w.registers port val)) e

  send_address-view :
      (lba : ℕ) (s : S)
      → view (send_address io lba s) ≡ with_registers (view s) (addressed lba (view s).registers)
  unfolding send_address
  send_address-view lba s = written ata_lba_high _ _ (view s) _ (omega arith) (
      written ata_lba_mid _ _ (view s) _ (omega arith) (
        written ata_lba_low _ _ (view s) _ (omega arith) (
          written ata_sector_count _ _ (view s) _ (omega arith)
            (written ata_drive _ s (view s) (view s).registers (omega arith) refl))))

  named-addressed : (lba : ℕ) (r : ℕ → ℕ) → lba < 2 ^ 28 → sector_named (addressed lba r) ≡ lba
  named-addressed lba r small = omega arith

  Addressed-addressed : (lba : ℕ) (r : ℕ → ℕ) → Addressed (addressed lba r)
  Addressed-addressed lba r = (refl, omega arith)

  -- What a command does to the drive once the sector is named.
  ata_send-view :
      (command lba : ℕ) (s : S) (f : View → View)
      → ((t : S) → Addressed (view t).registers → view (io.outb ata_command command t) ≡ f (view t))
      → (t : S) × (ata_send io limit command lba s ≡ some t)
        × (view t ≡ f (with_registers (view s) (addressed lba (view s).registers)))
  unfolding ata_send
  ata_send-view command lba s f effect =
      let (s1, first, same) = wait s in
      let s2 = send_address io lba s1 in
      let named : view s2 ≡ with_registers (view s) (addressed lba (view s).registers) =
        send_address-view lba s1 ∙ ap (λ v. with_registers v (addressed lba v.registers)) same in
      let (s3, second, same') = wait (io.outb ata_command command s2) in
      (
        s3,
        rw (first, Option.bind) second,
        same'
            ∙ effect s2 (
                subst (λ (v : View). Addressed v.registers) (sym named)
                  (Addressed-addressed lba (view s).registers))
            ∙ ap f named,
      )

  read_words-view :
      (ws : List ℕ) (s : S)
      → (view s).to_read ≡ ws
      → ((read_words io (length ws) s).0 ≡ bytes_of ws)
        × (view (read_words io (length ws) s).1 ≡ nothing_left (view s))
  unfolding read_words
  read_words-view [] s e = (refl, sym (ap (λ t. reads (view s) t) (sym e)))
  read_words-view (w ∷ ws) s e =
      let (word, now) = d.read_word w ws s e in
      let (bytes, after) =
        read_words-view ws (io.inw ata_data s).1 (ap (λ (v : View). v.to_read) now) in
      (
        ap₂ (λ x r. (x % 2 ^ 8) ∷ (x / 2 ^ 8 % 2 ^ 8) ∷ r) word bytes,
        after ∙ ap (λ (v : View). nothing_left v) now,
      )

  write_words-view :
      (left : ℕ) (buffer : List ℕ) (s : S)
      → Addressed (view s).registers
      → length buffer ≡ suc left * 2
      → length (view s).sent + suc left ≡ 256
      → view (write_words io (suc left) buffer s)
        ≡ stores (view s) ((view s).sent ++ words_of buffer)
  unfolding write_words
  write_words-view left [] s a size room = absurd (omega arith)
  write_words-view left (b ∷ []) s a size room = absurd (omega arith)
  write_words-view zero (b ∷ c ∷ []) s a size room = d.last_word (b + c * 2 ^ 8) s a (omega arith)
  write_words-view zero (b ∷ c ∷ x ∷ bs) s a size room = absurd (omega arith)
  write_words-view (suc left) (b ∷ c ∷ bs) s a size room =
      let w = b + c * 2 ^ 8 in
      let now = d.send_word w s (omega arith) in
      let count : length (view (io.outw ata_data w s)).sent ≡ length (view s).sent + 1 =
        ap (λ (v : View). length v.sent) now ∙ length-append (view s).sent (w ∷ []) in
      write_words-view left bs (io.outw ata_data w s)
        (subst (λ (v : View). Addressed v.registers) (sym now) a) (omega arith) (omega arith)
      ∙ ap (λ (v : View). stores v (v.sent ++ words_of bs)) now
      ∙ ap (stores (view s)) (append_assoc (view s).sent (w ∷ []) (words_of bs))

  -- A read returns, with the result 1.
  pub disk_read_sector_returns :
      (lba : ℕ) (s : S)
      → (bytes : List ℕ) × (t : S) × (disk_read_sector io limit lba s ≡ some (1, bytes, t))
  unfolding disk_read_sector
  disk_read_sector_returns lba s =
      let (s1, run, now) =
        ata_send-view ata_cmd_read lba s (λ v. reads v (v.sectors (sector_named v.registers)))
          d.read_command in
      ((read_words io 256 s1).0, (read_words io 256 s1).1, rw run refl)

  -- For a sector number of 28 bits and a sector of 256 words.
  pub disk_read_sector-bytes :
      (lba : ℕ) (s : S)
      → lba < 2 ^ 28
      → length ((view s).sectors lba) ≡ 256
      → (t : S) × (disk_read_sector io limit lba s ≡ some (1, bytes_of ((view s).sectors lba), t))
        × ((view t).sectors ≡ (view s).sectors)
  unfolding disk_read_sector
  disk_read_sector-bytes lba s small size =
      let (s1, run, now) =
        ata_send-view ata_cmd_read lba s (λ v. reads v (v.sectors (sector_named v.registers)))
          d.read_command in
      let waits : (view s1).to_read ≡ (view s).sectors lba =
        ap (λ (v : View). v.to_read) now
        ∙ ap (view s).sectors (named-addressed lba (view s).registers small) in
      let (bytes, after) = read_words-view ((view s).sectors lba) s1 waits in
      (
        (read_words io 256 s1).1,
        rw run (
            ap (λ bs. some (1, bs, (read_words io 256 s1).1))
              (ap (λ n. (read_words io n s1).0) (sym size) ∙ bytes)),
        ap (λ n. (view (read_words io n s1).1).sectors) (sym size)
            ∙ ap (λ (v : View). v.sectors) after
            ∙ ap (λ (v : View). v.sectors) now,
      )

  disk_write_sector-words :
      (lba : ℕ) (buffer : List ℕ) (s : S)
      → lba < 2 ^ 28
      → length buffer ≡ 512
      → (t : S) × (disk_write_sector io limit lba buffer s ≡ some (1, t))
        × ((view t).sectors ≡ update (view s).sectors lba (words_of buffer))
  unfolding disk_write_sector
  disk_write_sector-words lba buffer s small size =
      let (s1, run, now) =
        ata_send-view ata_cmd_write lba s (λ v. record v { sent = [] }) d.write_command in
      let none_sent : (view s1).sent ≡ [] = ap (λ (v : View). v.sent) now in
      let aimed : Addressed (view s1).registers =
        subst (λ (v : View). Addressed v.registers) (sym now)
          (Addressed-addressed lba (view s).registers) in
      let stored =
        write_words-view 255 buffer s1 aimed (omega arith)
          (ap (λ (l : List ℕ). length l + 256) none_sent) in
      (
        write_words io 256 buffer s1,
        rw run refl,
        ap (λ (v : View). v.sectors) stored
            ∙ ap
                (λ (v : View).
                  update v.sectors (sector_named v.registers) (v.sent ++ words_of buffer))
                now
            ∙ ap (λ n. update (view s).sectors n (words_of buffer))
                (named-addressed lba (view s).registers small),
      )

-- With a drive that behaves as documented and is ready again within `limit` polls, for a sector number of 28 bits and a
-- buffer of 512 bytes: `disk_write_sector` returns 1, a `disk_read_sector` of that sector after it returns 1 and fills the
-- buffer with the bytes written, and every other sector stays as it was.
pub disk_read_sector-disk_write_sector :
    {S : Type 0} (io : Ports S) (limit : ℕ) (view : S → View) (lba : ℕ) (buffer : List ℕ) (s : S)
    → IsDrive io limit view
    → lba < 2 ^ 28
    → length buffer ≡ 512
    → Bytes buffer
    → (t u : S) × (disk_write_sector io limit lba buffer s ≡ some (1, t))
      × (disk_read_sector io limit lba t ≡ some (1, buffer, u))
      × ((n : ℕ) → n ≢ lba → (view u).sectors n ≡ (view s).sectors n)
disk_read_sector-disk_write_sector io limit view lba buffer s d small size bytes =
    let (t, wrote, kept) = disk_write_sector-words io limit view d lba buffer s small size in
    let here : (view t).sectors lba ≡ words_of buffer =
      ap (λ (f : ℕ → List ℕ). f lba) kept ∙ update_self (view s).sectors lba (words_of buffer) in
    let (u, read, same) =
      disk_read_sector-bytes io limit view d lba t small
        (ap length here ∙ length-words_of 256 buffer size) in
    (
      t,
      u,
      wrote,
      read
          ∙ ap (λ bs. some (1, bs, u)) (ap bytes_of here ∙ bytes_of-words_of 256 buffer size bytes),
      λ n ne.
          ap (λ (f : ℕ → List ℕ). f n) (same ∙ kept)
          ∙ update-ne (view s).sectors lba (words_of buffer) n ne,
    )
