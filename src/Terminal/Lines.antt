-- ===== src/Terminal/Lines.antt =====
-- A line that is typed into terminal/terminal.c.
use cocos_os.Base.{
  ℕ, zero, suc, ◌-◌, ◌≡◌, ◌≢◌, refl, ap, ◌∙◌, inl, inr, List, [], ◌∷◌, ◌++◌, map, arith, ltb,
  length, length-append, take, Text, until_nul, NulFree, Bool-cases, ==_of_ne, Outcome, ok,
  panicked, fault, ◌>>=◌,
}
use mathlib.Core.List.{append_assoc, append-nil}
use cocos_os.Screen.{Call, display_putc, newline, terminal_write, end_line, terminal_prompt}
use cocos_os.Shell.{shell_execute}
use cocos_os.Terminal.{Terminal, type_keys}
use cocos_os.Terminal.Session.{IsTerminal, session, type_keys-session}

abbrev pub NoNewline : Text → Type 0
NoNewline [] = Unit
NoNewline (c ∷ cs) = (c ≢ newline) × NoNewline cs

-- What a line's end writes once the shell has written `out`, and the rest of the session.
abbrev pub line_end : Outcome (List Call) → Outcome (List Call) → List Call → Outcome (List Call)
line_end o next echo = o >>= λ out.
    next >>= λ rest. ok (echo ++ ((terminal_write end_line ++ (out ++ terminal_prompt)) ++ rest))

echo_first :
    (o next : Outcome (List Call)) (c : Call) (echo : List Call)
    → (line_end o next echo >>= λ rest. ok (c ∷ rest)) ≡ line_end o next (c ∷ echo)
echo_first (ok out) (ok rest) c echo = refl
echo_first (ok out) panicked c echo = refl
echo_first (ok out) fault c echo = refl
echo_first panicked next c echo = refl
echo_first fault next c echo = refl

take_none : (n : ℕ) → ◌≡◌ {A = Text} (take n []) []
take_none zero = refl
take_none (suc n) = refl

-- From a line that is begun, the keys of the rest of the line and its end.
session_line :
    (t cs : Text) (rest : List ℕ)
    → NoNewline cs
    → let kept = take (255 - length t) cs in
      session t (cs ++ (newline ∷ rest))
      ≡ line_end (shell_execute (until_nul (t ++ kept))) (session [] rest) (map display_putc kept)
unfolding session
session_line t [] rest h = let nothing = take_none (255 - length t) in rw (nothing, append-nil t)
session_line t (c ∷ cs) rest h = elim (Bool-cases (ltb (length t) 255)) [
  | inl room ↦
      (let next : 255 - length t ≡ suc (255 - length (t ++ (c ∷ []))) =
          ground (arith, length-append t (c ∷ [])) in
        let kept = take (255 - length (t ++ (c ∷ []))) cs in
        rw (==_of_ne h.0, room, next)
          (ap (λ m. m >>= λ rest. ok (display_putc c ∷ rest))
              (session_line (t ++ (c ∷ [])) cs rest h.1)
            ∙ echo_first _ (session [] rest) (display_putc c) (map display_putc kept)
            ∙ ap
                (λ u.
                  line_end (shell_execute (until_nul u)) (session [] rest)
                    (display_putc c ∷ map display_putc kept))
                (append_assoc t (c ∷ []) kept)))
  | inr full ↦
      (let nothing : 255 - length t ≡ 0 = ground arith in
        rw (==_of_ne h.0, full, nothing)
          (session_line t cs rest h.1
            ∙ ap
                (λ n.
                  line_end (shell_execute (until_nul (t ++ take n cs))) (session [] rest)
                    (map display_putc (take n cs)))
                nothing))
]

until_nul_free : (t : Text) → NulFree t → until_nul t ≡ t
until_nul_free [] h = refl
until_nul_free (c ∷ cs) h = rw (==_of_ne h.0) (ap (λ t. c ∷ t) (until_nul_free cs h.1))

NulFree-take : (n : ℕ) (t : Text) → NulFree t → NulFree (take n t)
NulFree-take zero t h = tt
NulFree-take (suc n) [] h = tt
NulFree-take (suc n) (c ∷ cs) h = (h.0, NulFree-take n cs h.1)

module _ (strtok_writes : List ℕ → List ℕ)
    (keeps_length : (b : List ℕ) → length (strtok_writes b) ≡ length b) where
  -- At the start of a line, typing a text without line's end or NUL and then Enter executes its first 255
  -- bytes, which were echoed before, and ends with the prompt; where executing them overruns an array, so does the line.
  pub type_keys-line :
      (s : Terminal) (cs : Text)
      → IsTerminal s
      → s.input_index ≡ 0
      → NoNewline cs
      → NulFree cs
      → (type_keys strtok_writes s (cs ++ (newline ∷ [])) >>= λ r. ok r.0) ≡ (
          shell_execute (take 255 cs) >>= λ out. ok (
            map display_putc (take 255 cs)
            ++ ((terminal_write end_line ++ (out ++ terminal_prompt)) ++ [])))
  type_keys-line s cs h start clean free =
      type_keys-session strtok_writes keeps_length s (cs ++ (newline ∷ [])) h
      ∙ ap (λ n. session (take n s.input_buffer) (cs ++ (newline ∷ []))) start
      ∙ session_line [] cs [] clean
      ∙ unfold session in
        ap (λ t. line_end (shell_execute t) (ok []) (map display_putc (take 255 cs)))
          (until_nul_free (take 255 cs) (NulFree-take 255 cs free))
