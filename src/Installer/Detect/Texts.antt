-- ===== src/Installer/Detect/Texts.antt =====
-- What the searches in a text of installer/installer_gui.c, `strchr` and `strstr`, answer.
use cocos_os.Base.{
  In, ℕ, suc, ◌≤◌, ◌≡◌, refl, sym, ap, ap₂, ◌∙◌, inl, inr, true, false, arith, some, [], ◌∷◌, ◌++◌,
  ◌==◌, length, Text, Bool-cases, Option-cases, ==_iff, ==_self, ==_of_ne, some_inj,
}
use cocos_os.Installer.Detect.{is_there, after_char, before_char, after_prefix, after_text}

head_eq : {c d : ℕ} {cs ds : Text} → c ∷ cs ≡ d ∷ ds → c ≡ d
head_eq e = cc

tail_eq : {c d : ℕ} {cs ds : Text} → c ∷ cs ≡ d ∷ ds → cs ≡ ds
tail_eq e = cc

-- `strchr` finds a character exactly where there is one.
pub after_char-In : (c : ℕ) (t : Text) → is_there (after_char c t) ≡ true → In t c
unfolding after_char
after_char-In c [] h = cc
after_char-In c (d ∷ ds) h = elim (Bool-cases (d == c)) [
  | inl here ↦ inl (sym ((==_iff d c).0 here))
  | inr later ↦ inr (after_char-In c ds (rw later at h))
]

pub after_char-there : (c : ℕ) (t : Text) → In t c → is_there (after_char c t) ≡ true
unfolding after_char
after_char-there c [] i = absurd i
after_char-there c (d ∷ ds) i = elim (Bool-cases (d == c)) [
  | inl here ↦ rw here
  | inr later ↦ elim i [
    | inl same ↦ absurd (ground arith)
    | inr more ↦ rw later (after_char-there c ds more)
  ]
]

-- `t` starts with `s`, which has no `c`, and goes on with one.
abbrev pub Until : ℕ → Text → Text → Type 0
Until c t s = ((after : Text) × (t ≡ s ++ (c ∷ after))) × (In s c → ⊥)

pub before_char-Until : (c : ℕ) (t s : Text) → before_char c t ≡ some s → Until c t s
unfolding before_char
before_char-Until c [] s h = cc
before_char-Until c (d ∷ ds) s h = elim (Bool-cases (d == c)) [
  | inl here ↦
      (let e : [] ≡ s = some_inj (rw here at h) in
        let same = (==_iff d c).0 here in rw (← e) ((ds, ap (λ x. x ∷ ds) same), λ i. i))
  | inr later ↦ elim (Option-cases (before_char c ds)) [
    | inl nothing ↦ cc (rw (later, nothing) at h)
    | inr (u, found) ↦
        (let e : d ∷ u ≡ s = some_inj (rw (later, found) at h) in
          let ((after, split), free) = before_char-Until c ds u found in
          rw (← e) (
            (after, ap (λ x. d ∷ x) split),
            λ i. elim i [ inl same ↦ absurd (ground arith) | inr more ↦ free more ],
          ))
  ]
]

pub before_char-some : (c : ℕ) (t s : Text) → Until c t s → before_char c t ≡ some s
unfolding before_char
before_char-some c t [] ((after, split), free) = rw (split, before_char, ==_self c)
before_char-some c t (d ∷ s) ((after, split), free) =
    let other : (d == c) ≡ false = ==_of_ne (λ e. free (inl (sym e))) in
    let rest = before_char-some c (s ++ (c ∷ after)) s ((after, refl), λ i. free (inr i)) in
    rw (split, before_char, other, rest)

pub after_prefix-append : (p t : Text) → after_prefix p (p ++ t) ≡ some t
unfolding after_prefix
after_prefix-append [] t = refl
after_prefix-append (c ∷ p) t = rw (==_self c) (after_prefix-append p t)

after_prefix-split : (p t r : Text) → after_prefix p t ≡ some r → t ≡ p ++ r
unfolding after_prefix
after_prefix-split [] t r h = some_inj h
after_prefix-split (c ∷ p) [] r h = cc
after_prefix-split (c ∷ p) (d ∷ t) r h = elim (Bool-cases (c == d)) [
  | inl same ↦ ap₂ ◌∷◌ (sym ((==_iff c d).0 same)) (after_prefix-split p t r (rw same at h))
  | inr other ↦ cc (rw other at h)
]

-- `r` follows the first `p` of `t`.
pub record First (p t r : Text) : Type 0 where
  pub before : Text
  pub split : t ≡ before ++ (p ++ r)
  pub none_earlier : (x y : Text) → t ≡ x ++ (p ++ y) → length before ≤ length x

pub after_text-First : (p t r : Text) → after_text p t ≡ some r → First p t r
unfolding after_text
after_text-First p [] r h = record {
  before = [];
  split = after_prefix-split p [] r h;
  none_earlier = λ x y e. omega arith;
}
after_text-First p (c ∷ cs) r h = elim (Option-cases (after_prefix p (c ∷ cs))) [
  | inr (s, found) ↦
      (let e : s ≡ r = some_inj (rw (found, after_text) at h) in
        record {
          before = [];
          split = after_prefix-split p (c ∷ cs) r (found ∙ ap some e);
          none_earlier = λ x y e. omega arith;
        })
  | inl not_here ↦
      (let later = after_text-First p cs r (rw (not_here, after_text) at h) in
        record {
          before = c ∷ later.before;
          split = ap (λ t. c ∷ t) later.split;
          none_earlier = λ x y e.
              elim x as (λ x. c ∷ cs ≡ x ++ (p ++ y) → suc (length later.before) ≤ length x) [
                | [] ↦ λ e. cc (sym not_here ∙ ap (after_prefix p) e ∙ after_prefix-append p y)
                | d ∷ x ↦ λ e. omega (arith, later.none_earlier x y (tail_eq e))
              ]
                e;
        })
]

first_here : (p t r : Text) → t ≡ p ++ r → after_text p t ≡ some r
unfolding after_text
first_here p [] r e = ap (after_prefix p) e ∙ after_prefix-append p r
first_here p (c ∷ cs) r e =
    let found = ap (after_prefix p) e ∙ after_prefix-append p r in rw (found, after_text)

first_at :
    (p t r before : Text)
    → t ≡ before ++ (p ++ r)
    → ((x y : Text) → t ≡ x ++ (p ++ y) → length before ≤ length x)
    → after_text p t ≡ some r
unfolding after_text
first_at p t r [] split minimal = first_here p t r split
first_at p [] r (b ∷ before) split minimal = cc
first_at p (c ∷ cs) r (b ∷ before) split minimal = elim (Option-cases (after_prefix p (c ∷ cs))) [
  | inr (s, found) ↦ absurd (omega (arith, minimal [] s (after_prefix-split p (c ∷ cs) s found)))
  | inl not_here ↦
      rw (not_here, after_text)
        (first_at p cs r before (tail_eq split)
          (λ x y e. omega (arith, minimal (c ∷ x) y (ap (λ t. c ∷ t) e))))
]

pub after_text-some : (p t r : Text) → First p t r → after_text p t ≡ some r
after_text-some p t r f = first_at p t r f.before f.split f.none_earlier

-- `p` occurs in `t`.
abbrev pub Occurs : Text → Text → Type 0
Occurs p t = (x : Text) × (y : Text) × (t ≡ x ++ (p ++ y))

pub after_text-Occurs : (p t : Text) → is_there (after_text p t) ≡ true → Occurs p t
after_text-Occurs p t h = elim (Option-cases (after_text p t)) [
  | inl nothing ↦ cc (rw nothing at h)
  | inr (r, found) ↦ (let f = after_text-First p t r found in (f.before, r, f.split))
]

occurs_at : (p t x y : Text) → t ≡ x ++ (p ++ y) → is_there (after_text p t) ≡ true
unfolding after_text
occurs_at p t [] y e = ap is_there (first_here p t y e)
occurs_at p [] (d ∷ x) y e = cc
occurs_at p (c ∷ cs) (d ∷ x) y e = elim (Option-cases (after_prefix p (c ∷ cs))) [
  | inr (s, found) ↦ rw (found, after_text)
  | inl not_here ↦ rw (not_here, after_text) (occurs_at p cs x y (tail_eq e))
]

pub after_text-there : (p t : Text) → Occurs p t → is_there (after_text p t) ≡ true
after_text-there p t (x, y, e) = occurs_at p t x y e
