-- ===== src/Installer/Detect/Lines.antt =====
-- What installer/installer_gui.c makes of a line of /proc/partitions.
use cocos_os.Base.{
  In, ℕ, ◌*◌, ◌%◌, ◌^◌, ◌≡◌, ◌≢◌, refl, sym, ap, ◌∙◌, ◌⊎◌, inl, inr, Bool, true, false, ◌||◌,
  Option, some, take, Text, codes, str_eq, str_eq_self, str_eq→eq, Bool-cases, Option-cases,
  some_inj,
}
use mathlib.Core.Option
use mathlib.Core.Path.{subst}
use cocos_os.Installer.Detect.{
  DetectedOs, entry, is_there, is_partition, after_char, after_text, os_name, scan_partition,
  file_system_of, detect_line,
}
use cocos_os.Installer.Detect.Texts.{
  First, Until, Occurs, after_char-In, after_char-there, before_char-Until, before_char-some,
  after_text-First, after_text-some, after_text-Occurs, after_text-there,
}

-- A partition has a 1 or a 2 in its name.
abbrev pub Partition : Text → Type 0
Partition name = In name b'1' ⊎ In name b'2'

-- How a type of file system is named.
abbrev pub Named : (type name : Text) → Type 0
Named type name =
    ((type ≡ codes "ntfs") × (name ≡ codes "Windows"))
    ⊎ ((type ≢ codes "ntfs") × Occurs (codes "ext") type × (name ≡ codes "Linux"))
    ⊎ ((type ≢ codes "ntfs") × (Occurs (codes "ext") type → ⊥) × (name ≡ codes "Unknown"))

or_true : (a b : Bool) → (a || b) ≡ true → (a ≡ true) ⊎ (b ≡ true)
or_true true b h = inl refl
or_true false b h = inr h

or_right : (a : Bool) → (a || true) ≡ true
or_right true = refl
or_right false = refl

pub is_partition-Partition : (name : Text) → is_partition name ≡ true → Partition name
is_partition-Partition name h =
    elim (or_true (is_there (after_char b'1' name)) (is_there (after_char b'2' name)) h) [
      | inl one ↦ inl (after_char-In b'1' name one)
      | inr two ↦ inr (after_char-In b'2' name two)
    ]

pub Partition-is_partition : (name : Text) → Partition name → is_partition name ≡ true
Partition-is_partition name (inl one) = rw (after_char-there b'1' name one)
Partition-is_partition name (inr two) =
    ap (λ b. is_there (after_char b'1' name) || b) (after_char-there b'2' name two)
    ∙ or_right (is_there (after_char b'1' name))

os_name-Named : (type : Text) → Named type (os_name type)
unfolding os_name
os_name-Named type = elim (Bool-cases (str_eq type (codes "ntfs"))) [
  | inl e ↦ rw e (inl (str_eq→eq type (codes "ntfs") e, refl))
  | inr e ↦
      (let other : type ≢ codes "ntfs" = λ same.
          cc (sym e ∙ ap (λ t. str_eq t (codes "ntfs")) same ∙ str_eq_self (codes "ntfs")) in
        elim (Bool-cases (is_there (after_text (codes "ext") type))) [
          | inl f ↦ rw (e, f) (inr (inl (other, after_text-Occurs (codes "ext") type f, refl)))
          | inr f ↦
              rw (e, f)
                (inr (inr (other, λ o. cc (sym f ∙ after_text-there (codes "ext") type o), refl)))
        ])
]

-- The type in the answer of `blkid`: what stands between the first `TYPE="` and the next quotation mark.
abbrev pub Reports : (output type : Text) → Type 0
Reports output type = (rest : Text) × First (codes "TYPE=\"") output rest × Until b'"' rest type

file_system_of-Reports :
    (output type : Text) → file_system_of output ≡ some type → Reports output type
unfolding file_system_of Option.bind
file_system_of-Reports output type h = elim (Option-cases (after_text (codes "TYPE=\"") output)) [
  | inl nothing ↦ cc (rw nothing at h)
  | inr (rest, found) ↦ (
    rest,
    after_text-First (codes "TYPE=\"") output rest found,
    before_char-Until b'"' rest type (rw found at h),
  )
]

Reports-file_system_of :
    (output type : Text) → Reports output type → file_system_of output ≡ some type
unfolding file_system_of Option.bind
Reports-file_system_of output type (rest, first, ends) =
    let found = after_text-some (codes "TYPE=\"") output rest first in
    rw found (before_char-some b'"' rest type ends)

module _ (blkid : Text → Option Text) where
  -- What a line that `sscanf` reads tells of a partition for whose name `blkid` reports a type of file system.
  pub record Detected (line : Text) (os : DetectedOs) : Type 0 where
    pub blocks : ℕ
    pub device : Text
    pub output : Text
    pub type : Text
    pub read : scan_partition line ≡ some (blocks, device)
    pub partition : Partition device
    pub asked : blkid device ≡ some output
    pub reports : Reports output type
    pub is_named : Named type os.name
    pub device_cut : os.device ≡ take 31 device
    pub type_cut : os.type ≡ take 15 type
    pub size : os.size ≡ blocks * 1024 % 2 ^ 64

  pub detect_line-Detected :
      (line : Text) (os : DetectedOs) → (detect_line blkid line).1 ≡ some os → Detected line os
  unfolding detect_line Option.bind
  detect_line-Detected line os h = elim (Option-cases (scan_partition line)) [
    | inl nothing ↦ cc (rw (nothing, detect_line) at h)
    | inr ((blocks, device), read) ↦ elim (Bool-cases (is_partition device)) [
      | inr other ↦ cc (rw (read, detect_line, other) at h)
      | inl there ↦ elim (Option-cases (blkid device)) [
        | inl silent ↦ cc (rw (read, detect_line, there, silent) at h)
        | inr (output, asked) ↦ elim (Option-cases (file_system_of output)) [
          | inl unknown ↦ cc (rw (read, detect_line, there, asked, unknown) at h)
          | inr (type, known) ↦
              (let same : entry blocks device type ≡ os =
                  some_inj (rw (read, detect_line, there, asked, known) at h) in
                subst (Detected line) same (record {
                  blocks = blocks;
                  device = device;
                  output = output;
                  type = type;
                  read = read;
                  partition = is_partition-Partition device there;
                  asked = asked;
                  reports = file_system_of-Reports output type known;
                  is_named = os_name-Named type;
                  device_cut = refl;
                  type_cut = refl;
                  size = refl;
                }))
        ]
      ]
    ]
  ]

  pub Detected-detect_line :
      (line : Text) (os : DetectedOs)
      → Detected line os
      → (found : DetectedOs) × ((detect_line blkid line).1 ≡ some found)
  unfolding detect_line Option.bind
  Detected-detect_line line os d = (
    entry d.blocks d.device d.type,
    rw (
      d.read,
      detect_line,
      Partition-is_partition d.device d.partition,
      d.asked,
      Reports-file_system_of d.output d.type d.reports,
    ),
  )
