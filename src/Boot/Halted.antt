-- ===== src/Boot/Halted.antt =====
-- kernel/kernel.c does not get past the read of the disk.
use cocos_os.Base.{ℕ, arith, [], ◌∷◌, ◌≡◌, sym, ap, ap₂, ◌∙◌, some, ◌++◌, codes, ok, length}
use mathlib.Core.List.{append_assoc}
use cocos_os.Log.{log_error}
use cocos_os.Log.Lines.{bytes_out, bytes_out-append, log_info-log_error}
use cocos_os.Disk.{Ports}
use cocos_os.Disk.Drive.{View, IsDrive}
use cocos_os.Disk.Sectors.{disk_read_sector-bytes}
use cocos_os.Boot.{Machine, Linked, halted, kernel_main}

-- With a drive that behaves as documented, is ready again within `limit` polls and has 256 words in its first sector, `kernel_main`
-- halts the machine before any part is started: the 1 that `disk_read_sector` returns for success is taken for an
-- error. Beside the drive, whose sectors stay as they were, only the serial port has been written, with six bytes, of each of
-- the two error messages `[`, its first letter and the line's end; what `wrile`, which no file defines, may write before
-- each of them and what `cli` does in the end is all else.
pub kernel_main_halts :
    {S : Type 0} (io : Ports S) (limit : ℕ) (view : S → View) (drive : S) (at : Linked)
    (s : Machine)
    → IsDrive io limit view
    → length ((view drive).sectors 0) ≡ 256
    → let said = bytes_out at.wrile (b'[' ∷ b'F' ∷ 10 ∷ b'[' ∷ b'E' ∷ 10 ∷ []) in
      (drive' : S) × ((view drive').sectors ≡ (view drive).sectors)
      × (kernel_main io limit drive at s
          ≡ some (drive', ok (halted (at.cli (record s { ports = s.ports ++ said })))))
unfolding kernel_main
kernel_main_halts io limit view drive at s d size =
    let failed = log_error at.wrile (codes "Fallo al leer sector de disco, codigo de error: %d") in
    let stopped = log_error at.wrile (codes "Error critico del sistema") in
    let (t, read, kept) = disk_read_sector-bytes io limit view d 0 drive (omega arith) size in
    let said : failed ++ stopped ≡ bytes_out at.wrile (b'[' ∷ b'F' ∷ 10 ∷ b'[' ∷ b'E' ∷ 10 ∷ []) =
      ap₂ ◌++◌
        (log_info-log_error at.wrile b'F'
          (codes "allo al leer sector de disco, codigo de error: %d")).2
        (log_info-log_error at.wrile b'E' (codes "rror critico del sistema")).2
      ∙ sym (bytes_out-append at.wrile (b'[' ∷ b'F' ∷ 10 ∷ []) (b'[' ∷ b'E' ∷ 10 ∷ [])) in
    (
      t,
      kept,
      rw (read, kernel_main)
          (ap (λ out. some (t, ok (halted (at.cli (record s { ports = out })))))
            (append_assoc s.ports failed stopped ∙ ap (λ out. s.ports ++ out) said)),
    )
