-- ===== src/Paging/Frames.antt =====
-- The frame allocator of kernel/memory/paging.c.
use cocos_os.Base.{
  ℕ, zero, suc, ◌+◌, ◌-◌, ◌/◌, ◌%◌, ◌^◌, ◌<◌, ◌≤◌, ◌≡◌, refl, sym, ap, ap₂, ◌∙◌, inl, inr, true,
  false, not, ◌&&◌, ◌||◌, Option, none, some, arith, ◌==◌, Bool-cases, ==_iff, update, has_bit,
  set_bit, clear_bit, has_bit-set_bit, has_bit-clear_bit, set_bit_lt, clear_bit_lt, Outcome, ok,
  panicked, fault,
}
use cocos_os.Paging.{
  Paging, frame_used, first_free, take_frame, paging_free_frame, paging_allocate_frame,
  paging_get_free_frames, free_frames_from,
}

-- The bitmap is made of bytes.
abbrev pub IsBitmap : (ℕ → ℕ) → Type 0
IsBitmap bitmap = (i : ℕ) → bitmap i < 256

same_byte : (j i : ℕ) → j / 8 ≡ i / 8 → (j % 8 == i % 8) ≡ (j == i)
same_byte j i e = ground arith

other_byte : (j i : ℕ) → (j / 8 == i / 8) ≡ false → (j == i) ≡ false
other_byte j i e = ground arith

module _ (bitmap : ℕ → ℕ) (bytes : IsBitmap bitmap) (i : ℕ) where
  pub frame_used-set :
      (j : ℕ)
      → frame_used (update bitmap (i / 8) (set_bit (bitmap (i / 8)) (i % 8))) j
        ≡ (j == i || frame_used bitmap j)
  frame_used-set j = elim (Bool-cases (j / 8 == i / 8)) [
    | inl p ↦
        (let e = (==_iff (j / 8) (i / 8)).0 p in
          rw
            (
              p,
              has_bit-set_bit (bitmap (i / 8)) (i % 8) (j % 8) (bytes (i / 8)) (omega arith)
                  (omega arith),
            )
            (ap₂ ◌||◌ (same_byte j i e) (ap (λ b. has_bit (bitmap b) (j % 8)) (sym e))))
    | inr p ↦ rw (p, other_byte j i p)
  ]

  pub frame_used-clear :
      (j : ℕ)
      → frame_used (update bitmap (i / 8) (clear_bit (bitmap (i / 8)) (i % 8))) j
        ≡ (not (j == i) && frame_used bitmap j)
  frame_used-clear j = elim (Bool-cases (j / 8 == i / 8)) [
    | inl p ↦
        (let e = (==_iff (j / 8) (i / 8)).0 p in
          rw
            (
              p,
              has_bit-clear_bit (bitmap (i / 8)) (i % 8) (j % 8) (bytes (i / 8)) (omega arith)
                  (omega arith),
            )
            (ap₂ ◌&&◌ (ap not (same_byte j i e)) (ap (λ b. has_bit (bitmap b) (j % 8)) (sym e))))
    | inr p ↦ rw (p, other_byte j i p)
  ]

  pub IsBitmap-set : IsBitmap (update bitmap (i / 8) (set_bit (bitmap (i / 8)) (i % 8)))
  IsBitmap-set j = elim (Bool-cases (j == i / 8)) [
    | inl p ↦ rw p (set_bit_lt (bitmap (i / 8)) (i % 8) (bytes (i / 8)) (omega arith))
    | inr p ↦ rw p (bytes j)
  ]

  pub IsBitmap-clear : IsBitmap (update bitmap (i / 8) (clear_bit (bitmap (i / 8)) (i % 8)))
  IsBitmap-clear j = elim (Bool-cases (j == i / 8)) [
    | inl p ↦ rw p (clear_bit_lt (bitmap (i / 8)) (i % 8) (bytes (i / 8)) (omega arith))
    | inr p ↦ rw p (bytes j)
  ]

-- What the search finds, from frame `i` on for `left` frames.
abbrev First : (ℕ → ℕ) → (left i : ℕ) → Option ℕ → Type 0
First bitmap left i none = (j : ℕ) → i ≤ j → j < i + left → frame_used bitmap j ≡ true
First bitmap left i (some k) =
    (i ≤ k)
    × (k < i + left)
    × (frame_used bitmap k ≡ false)
    × ((j : ℕ) → i ≤ j → j < k → frame_used bitmap j ≡ true)

First-suc :
    (bitmap : ℕ → ℕ) (left i : ℕ) (o : Option ℕ)
    → frame_used bitmap i ≡ true
    → First bitmap left (i + 1) o
    → First bitmap (suc left) i o
First-suc bitmap left i none used h = λ j low high. elim (Bool-cases (j == i)) [
  | inl p ↦ ap (frame_used bitmap) ((==_iff j i).0 p) ∙ used
  | inr p ↦ h j (ground arith) (omega arith)
]
First-suc bitmap left i (some k) used (low, high, free, before) = (
  omega arith,
  omega arith,
  free,
  λ j a b. elim (Bool-cases (j == i)) [
    | inl p ↦ ap (frame_used bitmap) ((==_iff j i).0 p) ∙ used
    | inr p ↦ before j (ground arith) b
  ],
)

first_free-First : (bitmap : ℕ → ℕ) (left i : ℕ) → First bitmap left i (first_free bitmap left i)
unfolding first_free
first_free-First bitmap zero i = λ j low high. absurd (omega arith)
first_free-First bitmap (suc left) i = elim (Bool-cases (frame_used bitmap i)) [
  | inl used ↦
      rw (used, First)
        (First-suc bitmap left i (first_free bitmap left (i + 1)) used
          (first_free-First bitmap left (i + 1)))
  | inr free ↦ rw (free, First) (omega arith, omega arith, free, λ j a b. absurd (omega arith))
]

-- The lowest free frame is taken: it is in range and was free, every lower frame was in use, and
-- now it and the frames in use before are the ones in use. The machine stops where none is free.
abbrev pub Taken : Paging → Outcome (ℕ × Paging) → Type 0
Taken s (ok (k, s')) =
    (k < s.total_frames)
    × (frame_used s.frame_bitmap k ≡ false)
    × ((j : ℕ) → j < k → frame_used s.frame_bitmap j ≡ true)
    × ((j : ℕ) → frame_used s'.frame_bitmap j ≡ (j == k || frame_used s.frame_bitmap j))
    × IsBitmap s'.frame_bitmap
Taken s panicked = (j : ℕ) → j < s.total_frames → frame_used s.frame_bitmap j ≡ true
Taken s fault = ⊥

Taken-of_First :
    (s : Paging) (o : Option ℕ)
    → IsBitmap s.frame_bitmap
    → First s.frame_bitmap s.total_frames 0 o
    → Taken s (elim o [ none ↦ panicked | some i ↦ ok (i, take_frame s i) ])
Taken-of_First s none bytes h = λ j low. h j (omega arith) (omega arith)
Taken-of_First s (some k) bytes (low, high, free, before) = (
  omega arith,
  free,
  λ j q. before j (omega arith) q,
  frame_used-set s.frame_bitmap bytes k,
  IsBitmap-set s.frame_bitmap bytes k,
)

-- With a bitmap of bytes, `paging_allocate_frame` takes the lowest free frame, and stops the
-- machine exactly where no frame is free.
pub paging_allocate_frame-Taken :
    (s : Paging) → IsBitmap s.frame_bitmap → Taken s (paging_allocate_frame s)
unfolding paging_allocate_frame
paging_allocate_frame-Taken s bytes =
    Taken-of_First s (first_free s.frame_bitmap s.total_frames 0) bytes
      (first_free-First s.frame_bitmap s.total_frames 0)

-- With a bitmap of bytes, `paging_free_frame` makes that frame free, leaves every other as it was,
-- and keeps the bitmap one of bytes.
pub paging_free_frame_lem :
    (s : Paging) (frame : ℕ)
    → IsBitmap s.frame_bitmap
    → ((j : ℕ)
        → frame_used (paging_free_frame s frame).frame_bitmap j
          ≡ (not (j == frame) && frame_used s.frame_bitmap j))
      × IsBitmap (paging_free_frame s frame).frame_bitmap
unfolding paging_free_frame
paging_free_frame_lem s frame bytes =
    (frame_used-clear s.frame_bitmap bytes frame, IsBitmap-clear s.frame_bitmap bytes frame)

total_frames-free :
    (left i : ℕ) (s : Paging) → (free_frames_from left i s).total_frames ≡ s.total_frames
unfolding free_frames_from
total_frames-free zero i s = refl
total_frames-free (suc left) i s = total_frames-free left (i + 1) (paging_free_frame s i)

used_frames-free :
    (left i : ℕ) (s : Paging)
    → left < 2 ^ 32
    → s.used_frames < 2 ^ 32
    → (free_frames_from left i s).used_frames ≡ (s.used_frames + 2 ^ 32 - left) % 2 ^ 32
unfolding free_frames_from
used_frames-free zero i s small bound = omega arith
used_frames-free (suc left) i s small bound =
    omega (arith, used_frames-free left (i + 1) (paging_free_frame s i) (omega arith) (omega arith))

-- If no frame is counted as used, then after the loop of `paging_init` has freed `left` frames, at
-- least one, `paging_get_free_frames` answers with `left` more than all frames of the machine.
pub paging_get_free_frames_over :
    (left i : ℕ) (s : Paging)
    → s.used_frames ≡ 0
    → 0 < left
    → s.total_frames + left < 2 ^ 32
    → paging_get_free_frames (free_frames_from left i s) ≡ s.total_frames + left
unfolding paging_get_free_frames
paging_get_free_frames_over left i s none_used pos small =
    omega (arith, total_frames-free left i s, used_frames-free left i s (omega arith) (omega arith))
