-- ===== src/Runtime/Order.antt =====
-- Which applications runtime/runtime.c starts, and in which order.
use cocos_os.Base.{
  ℕ, zero, suc, ◌+◌, ◌≤◌, ◌≡◌, ◌≢◌, refl, sym, ap, ap₂, ◌∙◌, Option, some, List, [], ◌∷◌, ◌++◌,
  arith, ltb, Text, codes, update, update_self, inl, inr, Bool-cases, ==_of_ne, length, take,
  length-append,
}
use mathlib.Core.List.{append_assoc}
use cocos_os.Runtime.{
  App, Apps, Host, runtime_run_lua_app, runtime_load_app, start_app, run_apps_from,
  runtime_run_apps, runtime_boot,
}

take_all {ℓ} : {A : Type ℓ} (n : ℕ) (xs : List A) → length xs ≤ n → take n xs ≡ xs
take_all zero [] h = refl
take_all zero (x ∷ xs) h = absurd (omega arith)
take_all (suc n) [] h = refl
take_all (suc n) (x ∷ xs) h = ap (λ t. x ∷ t) (take_all n xs (omega arith))

take-append_full {ℓ} :
    {A : Type ℓ} (n : ℕ) (xs ys : List A) → length xs ≡ n → take n (xs ++ ys) ≡ xs
take-append_full zero [] ys h = refl
take-append_full (suc n) [] ys h = absurd (omega arith)
take-append_full zero (x ∷ xs) ys h = absurd (omega arith)
take-append_full (suc n) (x ∷ xs) ys h = ap (λ t. x ∷ t) (take-append_full n xs ys (omega arith))

-- What was cut off once does not come back.
take-take_append {ℓ} :
    {A : Type ℓ} (n : ℕ) (xs ys : List A) → take n (take n xs ++ ys) ≡ take n (xs ++ ys)
take-take_append zero xs ys = refl
take-take_append (suc n) [] ys = refl
take-take_append (suc n) (x ∷ xs) ys = ap (λ t. x ∷ t) (take-take_append n xs ys)

abbrev pub greeting : Text
greeting = codes "Cocos OS runtime minimalista iniciado" ++ (10 ∷ [])

abbrev pub lua_file : Text
lua_file = codes "apps_lua/main_tribe.lua"

module _ {ℓ} {S : Type ℓ} where
  -- The applications of the table from an index, in order.
  abbrev pub apps_from : (ℕ → App S) → (left i : ℕ) → List (App S)
  apps_from apps zero i = []
  apps_from apps (suc left) i = apps i ∷ apps_from apps left (i + 1)

  abbrev pub loaded : Apps S → List (App S)
  loaded s = apps_from s.apps s.app_count 0

  abbrev pub start_all : List (App S) → S → S
  start_all [] st = st
  start_all (app ∷ rest) st = start_all rest (start_app app st)

  run_apps_from-start_all :
      (apps : ℕ → App S) (left i : ℕ) (st : S)
      → run_apps_from apps left i st ≡ start_all (apps_from apps left i) st
  unfolding run_apps_from
  run_apps_from-start_all apps zero i st = refl
  run_apps_from-start_all apps (suc left) i st =
      run_apps_from-start_all apps left (i + 1) (start_app (apps i) st)

  length-apps_from : (apps : ℕ → App S) (left i : ℕ) → length (apps_from apps left i) ≡ left
  length-apps_from apps zero i = refl
  length-apps_from apps (suc left) i = ap suc (length-apps_from apps left (i + 1))

  -- A new entry after the last goes to the end.
  apps_from-update :
      (apps : ℕ → App S) (left i : ℕ) (app : App S)
      → apps_from (update apps (i + left) app) (left + 1) i ≡ apps_from apps left i ++ (app ∷ [])
  apps_from-update apps zero i app =
      let here : i + 0 ≡ i = omega arith in
      ap (λ p. update apps p app i ∷ []) here ∙ ap (λ a. a ∷ []) (update_self apps i app)
  apps_from-update apps (suc left) i app =
      let step : suc left + 1 ≡ suc (left + 1) = omega arith in
      let next : i + suc left ≡ (i + 1) + left = omega arith in
      let before : i ≢ i + suc left = omega arith in
      let first : update apps (i + suc left) app i ≡ apps i = rw (==_of_ne before) in
      ap (λ n. apps_from (update apps (i + suc left) app) n i) step
      ∙ ap₂ ◌∷◌ first (
          ap (λ p. apps_from (update apps p app) (left + 1) (i + 1)) next
          ∙ apps_from-update apps left (i + 1) app)

  -- The table takes an application while there is room.
  load_lem :
      (max_apps : ℕ) (s : Apps S) (name : Text) (init : Option (S → S))
      → s.app_count ≤ max_apps
      → (loaded (runtime_load_app max_apps s name init)
          ≡ take max_apps (loaded s ++ (record { name = name; init = init } ∷ [])))
        × ((runtime_load_app max_apps s name init).app_count ≤ max_apps)
  unfolding runtime_load_app
  load_lem max_apps s name init h =
      let app : App S = record { name = name; init = init } in
      let count = length-apps_from s.apps s.app_count 0 in
      elim (Bool-cases (ltb s.app_count max_apps)) [
        | inl room ↦
            (let fits : length (loaded s ++ (app ∷ [])) ≤ max_apps =
                ground (arith, count, length-append (loaded s) (app ∷ [])) in
              let last : 0 + s.app_count ≡ s.app_count = omega arith in
              rw room (
                ap (λ p. apps_from (update s.apps p app) (s.app_count + 1) 0) (sym last)
                    ∙ apps_from-update s.apps s.app_count 0 app
                    ∙ sym (take_all max_apps (loaded s ++ (app ∷ [])) fits),
                ground arith,
              ))
        | inr full ↦
            rw full
              (sym (take-append_full max_apps (loaded s) (app ∷ []) (ground (arith, count))), h)
      ]

  -- `runtime_boot`, on a table within bounds of `MAX_APPS`, adds notepad, calculator and settings as far as
  -- there is room, and after `kernel_boot` and the greeting starts every application of the table once, in its order, and
  -- last runs the Lua application.
  pub runtime_boot_lem :
      {L : Type ℓ} (host : Host S L) (max_apps : ℕ) (s : Apps S)
      (notepad calculator settings : S → S) (st : S)
      → s.app_count ≤ max_apps
      → let (s', st') = runtime_boot host max_apps s notepad calculator settings st in
        (loaded s'
          ≡ take max_apps (
              loaded s
              ++ (record { name = codes "notepad"; init = some notepad }
                  ∷ record { name = codes "calculator"; init = some calculator }
                  ∷ record { name = codes "settings"; init = some settings }
                  ∷ [])))
        × (st'
            ≡ runtime_run_lua_app host lua_file
                (start_all (loaded s') (host.kernel_print greeting (host.kernel_boot st))))
  unfolding runtime_boot
  runtime_boot_lem host max_apps s notepad calculator settings st h =
      let n : App S = record { name = codes "notepad"; init = some notepad } in
      let c : App S = record { name = codes "calculator"; init = some calculator } in
      let g : App S = record { name = codes "settings"; init = some settings } in
      let (e1, h1) = load_lem max_apps s (codes "notepad") (some notepad) h in
      let s1 = runtime_load_app max_apps s (codes "notepad") (some notepad) in
      let (e2, h2) = load_lem max_apps s1 (codes "calculator") (some calculator) h1 in
      let s2 = runtime_load_app max_apps s1 (codes "calculator") (some calculator) in
      let (e3, h3) = load_lem max_apps s2 (codes "settings") (some settings) h2 in
      let s3 = runtime_load_app max_apps s2 (codes "settings") (some settings) in
      let two : loaded s2 ≡ take max_apps (loaded s ++ (n ∷ c ∷ [])) =
        e2
        ∙ ap (λ t. take max_apps (t ++ (c ∷ []))) e1
        ∙ take-take_append max_apps (loaded s ++ (n ∷ [])) (c ∷ [])
        ∙ ap (take max_apps) (append_assoc (loaded s) (n ∷ []) (c ∷ [])) in
      (
        e3
            ∙ ap (λ t. take max_apps (t ++ (g ∷ []))) two
            ∙ take-take_append max_apps (loaded s ++ (n ∷ c ∷ [])) (g ∷ [])
            ∙ ap (take max_apps) (append_assoc (loaded s) (n ∷ c ∷ []) (g ∷ [])),
        ap (runtime_run_lua_app host lua_file) (
            unfold runtime_run_apps in
            run_apps_from-start_all s3.apps s3.app_count 0
              (host.kernel_print greeting (host.kernel_boot st))),
      )
