-- ===== src/Paging/Owners.antt =====
-- Each frame of kernel/memory/paging.c has one owner, a page of a directory: what keeps that so when a page
-- gets a frame or gives it back.
use cocos_os.Base.{
  ℕ, ◌/◌, ◌^◌, ◌<◌, ◌≡◌, ◌≢◌, sym, ap, ◌∙◌, ◌⊎◌, inl, inr, Bool, true, false, not, ◌&&◌, ◌||◌,
  Option, none, some, arith, ◌==◌, Bool-cases, some_inj, ==_iff,
}
use cocos_os.Memory.{Addr}
use cocos_os.Paging.{frame_used, pd_index, pt_index}
use cocos_os.Paging.Frames.{IsBitmap}

-- Is it the page of the directory `dir` for the address?
abbrev pub is_page : Addr → ℕ → Addr → ℕ → ℕ → Bool
is_page dir virt d i j = d == dir && (i == pd_index virt && j == pt_index virt)

-- What frames are used for: by pages of the directories in use, each frame by one.
pub record Owners (Live : Addr → Type 0) (total : ℕ) (bitmap : ℕ → ℕ) (at : Addr → ℕ → ℕ → Option ℕ)
    : Type 0 where
  pub bytes : IsBitmap bitmap
  pub taken :
      (d : Addr) (i j f : ℕ)
      → Live d
      → at d i j ≡ some f
      → (f < total) × (frame_used bitmap f ≡ true)
  pub alone :
      (d e : Addr) (i j k l f : ℕ)
      → Live d
      → Live e
      → at d i j ≡ some f
      → at e k l ≡ some f
      → (d ≡ e) × (i ≡ k) × (j ≡ l)

pub is_page_eq :
    (dir : Addr) (virt : ℕ) (d : Addr) (i j : ℕ)
    → is_page dir virt d i j ≡ true
    → (d ≡ dir) × (i ≡ pd_index virt) × (j ≡ pt_index virt)
is_page_eq dir virt d i j h = (ground arith, ground arith, ground arith)

pub is_page_self :
    (dir : Addr) (virt : ℕ) → is_page dir virt dir (pd_index virt) (pt_index virt) ≡ true
is_page_self dir virt = ground arith

-- Another directory, or an address in another page of 4096 bytes.
abbrev pub Elsewhere : Addr → ℕ → Addr → ℕ → Type 0
Elsewhere dir virt d virt' = (d ≢ dir) ⊎ (virt' / 2 ^ 12 ≢ virt / 2 ^ 12)

pub Elsewhere-is_page :
    (dir : Addr) (virt : ℕ) (d : Addr) (virt' : ℕ)
    → Elsewhere dir virt d virt'
    → is_page dir virt d (pd_index virt') (pt_index virt') ≡ false
Elsewhere-is_page dir virt d virt' (inl other) = ground arith
Elsewhere-is_page dir virt d virt' (inr other) = ground arith

pub Owners-same :
    (Live : Addr → Type 0) (total : ℕ) (bitmap : ℕ → ℕ) (at at' : Addr → ℕ → ℕ → Option ℕ)
    → ((d : Addr) (i j : ℕ) → Live d → at' d i j ≡ at d i j)
    → Owners Live total bitmap at
    → Owners Live total bitmap at'
Owners-same Live total bitmap at at' same o = record {
  bytes = o.bytes;
  taken = λ d i j f live e. o.taken d i j f live (sym (same d i j live) ∙ e);
  alone = λ d e i j k l f live live' p q.
      o.alone d e i j k l f live live' (sym (same d i j live) ∙ p) (sym (same e k l live') ∙ q);
}

module _ (Live : Addr → Type 0) (total : ℕ) (bitmap bitmap' : ℕ → ℕ)
    (at at' : Addr → ℕ → ℕ → Option ℕ) (dir : Addr) (virt : ℕ) (o : Owners Live total bitmap at)
    (bytes' : IsBitmap bitmap')
    (others : (d : Addr) (i j : ℕ)
      → Live d
      → is_page dir virt d i j ≡ false
      → at' d i j ≡ at d i j) where
  -- What a page has afterwards it is given, or had before.
  origin :
      (d : Addr) (i j g : ℕ) (given : Option ℕ)
      → Live d
      → at' dir (pd_index virt) (pt_index virt) ≡ given
      → at' d i j ≡ some g
      → ((is_page dir virt d i j ≡ true) × (given ≡ some g))
        ⊎ ((is_page dir virt d i j ≡ false) × (at d i j ≡ some g))
  origin d i j g given live h e = elim (Bool-cases (is_page dir virt d i j)) [
    | inl here ↦
        (let (p, q, r) = is_page_eq dir virt d i j here in inl (here, sym h ∙ rw (p, q, r) at e))
    | inr there ↦ inr (there, sym (others d i j live there) ∙ e)
  ]

  -- A page gets a frame that none has.
  pub Owners-give :
      (f : ℕ)
      → f < total
      → frame_used bitmap f ≡ false
      → ((g : ℕ) → frame_used bitmap' g ≡ (g == f || frame_used bitmap g))
      → at' dir (pd_index virt) (pt_index virt) ≡ some f
      → Owners Live total bitmap' at'
  Owners-give f low free used given = record {
    bytes = bytes';
    taken = λ d i j g live e. elim (origin d i j g (some f) live given e) [
      | inl (here, same) ↦
          (let at_f : f ≡ g = some_inj same in (omega arith, used g ∙ ground arith))
      | inr (there, old) ↦
          (let (low', was) = o.taken d i j g live old in (low', used g ∙ ground arith))
    ];
    alone = λ d e i j k l g live live' p q. elim (origin d i j g (some f) live given p) [
      | inl (here, same) ↦ elim (origin e k l g (some f) live' given q) [
        | inl (here', same') ↦ same_page d e i j k l here here'
        | inr (there, old) ↦ not_given e k l g live' old (some_inj same)
      ]
      | inr (there, old) ↦ elim (origin e k l g (some f) live' given q) [
        | inl (here', same') ↦ not_given d i j g live old (some_inj same')
        | inr (there', old') ↦ o.alone d e i j k l g live live' old old'
      ]
    ];
  }
    where
      same_page :
          (d e : Addr) (i j k l : ℕ)
          → is_page dir virt d i j ≡ true
          → is_page dir virt e k l ≡ true
          → (d ≡ e) × (i ≡ k) × (j ≡ l)
      same_page d e i j k l a b =
          let (p, q, r) = is_page_eq dir virt d i j a in
          let (u, v, w) = is_page_eq dir virt e k l b in (p ∙ sym u, q ∙ sym v, r ∙ sym w)

      not_given : (d : Addr) (i j g : ℕ) {A : Type 0} → Live d → at d i j ≡ some g → f ≡ g → A
      not_given d i j g live old e =
          cc (sym free ∙ ap (frame_used bitmap) e ∙ (o.taken d i j g live old).1)

  -- A page gives its frame back.
  pub Owners-take :
      (f : ℕ)
      → Live dir
      → at dir (pd_index virt) (pt_index virt) ≡ some f
      → ((g : ℕ) → frame_used bitmap' g ≡ (not (g == f) && frame_used bitmap g))
      → at' dir (pd_index virt) (pt_index virt) ≡ none
      → Owners Live total bitmap' at'
  Owners-take f here_live had used gone = record {
    bytes = bytes';
    taken = λ d i j g live e. elim (origin d i j g none live gone e) [
      | inl (here, same) ↦ cc same
      | inr (there, old) ↦
          (let (low, was) = o.taken d i j g live old in
            let other : (g == f) ≡ false = elim (Bool-cases (g == f)) [
              | inr n ↦ n
              | inl y ↦ absurd (clash d i j g live old there y)
            ] in
            (low, used g ∙ rw (other, was)))
    ];
    alone = λ d e i j k l g live live' p q. elim (origin d i j g none live gone p) [
      | inl (here, same) ↦ cc same
      | inr (there, old) ↦ elim (origin e k l g none live' gone q) [
        | inl (here', same') ↦ cc same'
        | inr (there', old') ↦ o.alone d e i j k l g live live' old old'
      ]
    ];
  }
    where
      clash :
          (d : Addr) (i j g : ℕ)
          → Live d
          → at d i j ≡ some g
          → is_page dir virt d i j ≡ false
          → (g == f) ≡ true
          → ⊥
      clash d i j g live old there y =
          let at_f = ap (λ n. some n) ((==_iff g f).0 y) in
          let (p, q, r) =
            o.alone d dir i j (pd_index virt) (pt_index virt) f live here_live (old ∙ at_f) had in
          let here : is_page dir virt d i j ≡ true = rw (p, q, r) (is_page_self dir virt) in
          cc (sym there ∙ here)
