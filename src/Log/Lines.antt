-- ===== src/Log/Lines.antt =====
-- What a line of kernel/logs/log.c comes to.
use cocos_os.Base.{ℕ, ◌≡◌, refl, sym, ap, ◌∙◌, List, [], ◌∷◌, ◌++◌, Text}
use mathlib.Core.List.{append_assoc}
use cocos_os.Devices.{PortWrite}
use cocos_os.Log.{com1, log_write, log_info, log_warn, log_error}

module _ (wrile : ℕ → List PortWrite) where
  -- Bytes on the serial port, with what `wrile` does before each.
  abbrev pub bytes_out : Text → List PortWrite
  bytes_out [] = []
  bytes_out (c ∷ cs) = wrile c ++ ((com1, c) ∷ bytes_out cs)

  pub bytes_out-append : (xs ys : Text) → bytes_out (xs ++ ys) ≡ bytes_out xs ++ bytes_out ys
  bytes_out-append [] ys = refl
  bytes_out-append (c ∷ xs) ys =
      ap (λ out. wrile c ++ ((com1, c) ∷ out)) (bytes_out-append xs ys)
      ∙ sym (append_assoc (wrile c) ((com1, c) ∷ bytes_out xs) (bytes_out ys))

  three_bytes :
      (a b c : ℕ) (xs ys zs : Text)
      → log_write wrile (a ∷ xs) ++ (log_write wrile (b ∷ ys) ++ log_write wrile (c ∷ zs))
        ≡ bytes_out (a ∷ b ∷ c ∷ [])
  unfolding log_write
  three_bytes a b c xs ys zs =
      append_assoc (wrile a) ((com1, a) ∷ [])
        ((wrile b ++ ((com1, b) ∷ [])) ++ (wrile c ++ ((com1, c) ∷ [])))
      ∙ ap (λ out. wrile a ++ ((com1, a) ∷ out))
          (append_assoc (wrile b) ((com1, b) ∷ []) (wrile c ++ ((com1, c) ∷ [])))

  -- Of a line on any level only three bytes reach the port: `[`, the message's first byte and the line's
  -- end, so the three levels cannot be told apart.
  pub log_info-log_error :
      (c : ℕ) (cs : Text)
      → (log_info wrile (c ∷ cs) ≡ bytes_out (91 ∷ c ∷ 10 ∷ []))
        × (log_warn wrile (c ∷ cs) ≡ log_info wrile (c ∷ cs))
        × (log_error wrile (c ∷ cs) ≡ bytes_out (91 ∷ c ∷ 10 ∷ []))
  unfolding log_info log_warn log_error
  log_info-log_error c cs = (three_bytes 91 c 10 [] cs [], refl, three_bytes 91 c 10 [] cs [])
