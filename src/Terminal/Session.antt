-- ===== src/Terminal/Session.antt =====
-- The sessions of terminal/terminal.c.
use cocos_os.Base.{
  ℕ, zero, suc, ◌+◌, ◌<◌, ◌≤◌, ◌≡◌, refl, ap, ap₂, ◌∙◌, inl, inr, true, false, List, [], ◌∷◌, ◌++◌,
  arith, ltb, ◌==◌, if◌then◌else◌, length, take, set, length-set, Text, until_nul, Bool-cases,
  Outcome, ok, panicked, fault, ◌>>=◌,
}
use cocos_os.Screen.{Call, display_putc, newline, terminal_write, end_line, terminal_prompt}
use cocos_os.Shell.{shell_execute}
use cocos_os.Terminal.{Terminal, terminal_input, type_keys}

-- The index stands inside the array, with room for the closing NUL.
pub record IsTerminal (s : Terminal) : Type 0 where
  pub size : length s.input_buffer ≡ 256
  pub index_in : s.input_index ≤ 255

-- What has been typed since the last line.
abbrev pub typed : Terminal → Text
typed s = take s.input_index s.input_buffer

-- What a session promises to write: a key is echoed while the line has fewer than 255, and the end of a
-- line executes what was typed and starts a new one.
unfoldable pub session : Text → List ℕ → Outcome (List Call)
session t [] = ok []
session t (c ∷ cs) =
    let next = shell_execute (until_nul t) >>= λ out.
    session [] cs >>= λ rest. ok ((terminal_write end_line ++ (out ++ terminal_prompt)) ++ rest) in
    let more = session (t ++ (c ∷ [])) cs >>= λ rest. ok ((display_putc c ∷ []) ++ rest) in
    let full = session t cs in
    if c == newline then next else if ltb (length t) 255 then more else full

until_nul-set :
    (buf : List ℕ) (i : ℕ) → i < length buf → until_nul (set buf i 0) ≡ until_nul (take i buf)
until_nul-set [] i h = elim h [ ]
until_nul-set (b ∷ bs) zero h = refl
until_nul-set (b ∷ bs) (suc i) h =
    ap (λ t. if b == 0 then [] else b ∷ t) (until_nul-set bs i (omega arith))

take-set_end :
    (buf : List ℕ) (i c : ℕ) → i < length buf → take (i + 1) (set buf i c) ≡ take i buf ++ (c ∷ [])
take-set_end [] i c h = elim h [ ]
take-set_end (b ∷ bs) zero c h = refl
take-set_end (b ∷ bs) (suc i) c h =
    let n : suc i + 1 ≡ suc (i + 1) = omega arith in
    rw n (ap (λ t. b ∷ t) (take-set_end bs i c (omega arith)))

length-take_le : (i : ℕ) (buf : List ℕ) → i ≤ length buf → length (take i buf) ≡ i
length-take_le zero buf h = refl
length-take_le (suc i) [] h = absurd (omega arith)
length-take_le (suc i) (b ∷ bs) h = omega (arith, length-take_le i bs (omega arith))

abbrev calls : Outcome (List Call × Terminal) → Outcome (List Call)
calls m = m >>= λ r. ok r.0

abbrev prefixed : List Call → Outcome (List Call × Terminal) → Outcome (List Call × Terminal)
prefixed a m = m >>= λ (more, s). ok (a ++ more, s)

calls-prefixed :
    (a : List Call) (m : Outcome (List Call × Terminal))
    → calls (prefixed a m) ≡ (calls m >>= λ rest. ok (a ++ rest))
calls-prefixed a (ok (more, s)) = refl
calls-prefixed a panicked = refl
calls-prefixed a fault = refl

-- A line's end: what the shell writes, and then the rest of the session.
line_calls :
    (o : Outcome (List Call)) (f : List Call → List Call) (m : Outcome (List Call × Terminal))
    → calls (o >>= λ out. prefixed (f out) m)
      ≡ (o >>= λ out. calls m >>= λ rest. ok (f out ++ rest))
line_calls (ok out) f m = calls-prefixed (f out) m
line_calls panicked f m = refl
line_calls fault f m = refl

bind_step :
    (o : Outcome (List Call)) (f : List Call → List Call) (s : Terminal)
    (g : Terminal → Outcome (List Call × Terminal))
    → ((o >>= λ out. ok (f out, s)) >>= λ (out, s1). prefixed out (g s1))
      ≡ (o >>= λ out. prefixed (f out) (g s))
bind_step (ok out) f s g = refl
bind_step panicked f s g = refl
bind_step fault f s g = refl

same_calls : (m : Outcome (List Call)) → (m >>= λ rest. ok ([] ++ rest)) ≡ m
same_calls (ok rest) = refl
same_calls panicked = refl
same_calls fault = refl

length-typed : (s : Terminal) → IsTerminal s → length (typed s) ≡ s.input_index
length-typed s h = length-take_le s.input_index s.input_buffer (omega (arith, h.size, h.index_in))

module _ (strtok_writes : List ℕ → List ℕ)
    (keeps_length : (b : List ℕ) → length (strtok_writes b) ≡ length b) where
  -- From a buffer of 256 bytes with the index inside it, and whatever `strtok` writes into it, any keys
  -- write what the session of the text typed so far promises.
  pub type_keys-session :
      (s : Terminal) (cs : List ℕ)
      → IsTerminal s
      → (type_keys strtok_writes s cs >>= λ r. ok r.0) ≡ session (typed s) cs
  unfolding type_keys session terminal_input
  type_keys-session s [] h = refl
  type_keys-session s (c ∷ cs) h = elim (Bool-cases (c == newline)) [
    | inl enter ↦
        (let buffer = set s.input_buffer s.input_index 0 in
          let s' : Terminal = record { input_buffer = strtok_writes buffer; input_index = 0 } in
          let written : List Call → List Call =
            λ out. terminal_write end_line ++ (out ++ terminal_prompt) in
          let size : length (strtok_writes buffer) ≡ 256 =
            keeps_length buffer ∙ length-set s.input_buffer s.input_index 0 ∙ h.size in
          let out = shell_execute (until_nul buffer) in
          rw enter (
            ap (λ m. m >>= λ r. ok r.0)
              (bind_step out written s' (λ t. type_keys strtok_writes t cs))
            ∙ line_calls out written (type_keys strtok_writes s' cs)
            ∙ ap₂ (λ o m. o >>= λ out. m >>= λ rest. ok (written out ++ rest))
                (ap shell_execute
                  (until_nul-set s.input_buffer s.input_index (omega (arith, h.size, h.index_in))))
                (type_keys-session s' cs (record { size = size; index_in = omega arith }))))
    | inr key ↦ elim (Bool-cases (ltb s.input_index 255)) [
      | inl room ↦
          (let s' : Terminal = record {
            input_buffer = set s.input_buffer s.input_index c;
            input_index = s.input_index + 1;
          } in
            let room' : ltb (length (typed s)) 255 ≡ true =
              ap (λ n. ltb n 255) (length-typed s h) ∙ room in
            let ok' : IsTerminal s' = record {
              size = length-set s.input_buffer s.input_index c ∙ h.size;
              index_in = ground arith;
            } in
            rw (key, room, room')
              (calls-prefixed (display_putc c ∷ []) (type_keys strtok_writes s' cs)
                ∙ ap (λ m. m >>= λ rest. ok (display_putc c ∷ rest))
                    (type_keys-session s' cs ok'
                      ∙ ap (λ t. session t cs)
                          (take-set_end s.input_buffer s.input_index c
                            (omega (arith, h.size, h.index_in))))))
      | inr full ↦
          (let full' : ltb (length (typed s)) 255 ≡ false =
              ap (λ n. ltb n 255) (length-typed s h) ∙ full in
            rw (key, full, full')
              (calls-prefixed [] (type_keys strtok_writes s cs)
                ∙ same_calls (type_keys strtok_writes s cs >>= λ r. ok r.0)
                ∙ type_keys-session s cs h))
    ]
  ]
