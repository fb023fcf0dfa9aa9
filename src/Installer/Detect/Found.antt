-- ===== src/Installer/Detect/Found.antt =====
-- What installer/installer_gui.c finds.
use cocos_os.Base.{
  ℕ, zero, suc, ◌^◌, ◌<◌, ◌≡◌, refl, sym, ap, ◌∙◌, inl, inr, arith, Option, some, List, [], ◌∷◌,
  length, length-take, take, Text, Option-cases,
}
use cocos_os.Installer.Detect.{DetectedOs, detect_line, detect_from, detect_operating_systems}
use cocos_os.Installer.Detect.Lines.{Detected, Named, detect_line-Detected, Detected-detect_line}

-- The texts fit their arrays of 64, 32 and 16 bytes with their NULs, and the size its 64 bits.
pub record Fits (os : DetectedOs) : Type 0 where
  pub name_in : length os.name < 64
  pub device_in : length os.device < 32
  pub type_in : length os.type < 16
  pub size_in : os.size < 2 ^ 64

abbrev pub AllFit : List DetectedOs → Type 0
AllFit [] = Unit
AllFit (os ∷ rest) = Fits os × AllFit rest

Named-length : (type name : Text) → Named type name → length name < 64
Named-length type name (inl (_, e)) = omega (arith, ap length e)
Named-length type name (inr (inl (_, _, e))) = omega (arith, ap length e)
Named-length type name (inr (inr (_, _, e))) = omega (arith, ap length e)

module _ (blkid : Text → Option Text) where
  Detected-Fits : (line : Text) (os : DetectedOs) → Detected blkid line os → Fits os
  Detected-Fits line os d = record {
    name_in = Named-length d.type os.name d.is_named;
    device_in = omega (arith, ap length d.device_cut, length-take 31 d.device);
    type_in = omega (arith, ap length d.type_cut, length-take 15 d.type);
    size_in = omega (arith, d.size);
  }

  -- The systems that lines tell of, in their order.
  pub data Found : List Text → List DetectedOs → Type 0 where
    finished : Found [] []
    skip :
        (line : Text) {lines : List Text} {found : List DetectedOs}
        → ((os : DetectedOs) → Detected blkid line os → ⊥)
        → Found lines found
        → Found (line ∷ lines) found
    enter :
        (line : Text) (os : DetectedOs) {lines : List Text} {found : List DetectedOs}
        → Detected blkid line os
        → Found lines found
        → Found (line ∷ lines) (os ∷ found)

  -- What all the lines lead to.
  find_all : (lines : List Text) → (found : List DetectedOs) × Found lines found
  find_all [] = ([], finished)
  find_all (line ∷ lines) =
      let (found, h) = find_all lines in
      elim (Option-cases (detect_line blkid line).1) [
        | inl nothing ↦ (
          found,
          skip line
              (λ os d.
                let (other, some_found) = Detected-detect_line blkid line os d in
                cc (sym nothing ∙ some_found))
              h,
        )
        | inr (os, one) ↦ (os ∷ found, enter line os (detect_line-Detected blkid line os one) h)
      ]

  detect_from-take :
      (room : ℕ) (lines : List Text)
      → (found : List DetectedOs) × Found lines found
        × ((detect_from blkid room lines).1 ≡ take room found)
        × AllFit (detect_from blkid room lines).1
  unfolding detect_from
  detect_from-take zero lines = let (found, h) = find_all lines in (found, h, refl, tt)
  detect_from-take (suc room) [] = ([], finished, refl, tt)
  detect_from-take (suc room) (line ∷ lines) = elim (Option-cases (detect_line blkid line).1) [
    | inl nothing ↦
        (let (found, h, same, fit) = detect_from-take (suc room) lines in
          (
            found,
            skip line
                (λ os d.
                  let (other, some_found) = Detected-detect_line blkid line os d in
                  cc (sym nothing ∙ some_found))
                h,
            rw (nothing, detect_from) same,
            rw (nothing, detect_from) fit,
          ))
    | inr (os, one) ↦
        (let (found, h, same, fit) = detect_from-take room lines in
          let d = detect_line-Detected blkid line os one in
          (
            os ∷ found,
            enter line os d h,
            rw (one, detect_from) (ap (λ t. os ∷ t) same),
            rw (one, detect_from) (Detected-Fits line os d, fit),
          ))
  ]

  -- `detect_operating_systems` enters, for as many as there is room, what `blkid` says of the partitions that the lines
  -- of /proc/partitions name: a line that `sscanf` reads, with a 1 or a 2 in its name and a type in `blkid`'s answer, is
  -- entered with its name and the type, cut to their arrays, its size in bytes in 64 bits, and `Windows` for
  -- `ntfs`, `Linux` for a type with `ext` in it and `Unknown` for others; no other line is; the order is
  -- that of the lines; and every text fits its array.
  pub detect_operating_systems_lem :
      (lines : List Text) (max_count : ℕ)
      → (found : List DetectedOs) × Found lines found
        × ((detect_operating_systems blkid (some lines) max_count).1 ≡ take max_count found)
        × AllFit (detect_operating_systems blkid (some lines) max_count).1
  unfolding detect_operating_systems
  detect_operating_systems_lem lines max_count = detect_from-take max_count lines
