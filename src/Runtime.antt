-- ===== src/Runtime.antt =====
-- runtime/runtime.c: the table of applications, the order in which they are started, and the Lua
-- application. `MAX_APPS`, `kernel_boot`, `kernel_print` and the functions of the applications are no C code
-- of the repository, and the Lua interpreter is not its own: all are parameters, and so is the state
-- they act on. A function that is NULL is `none`.
pub mod Order
use cocos_os.Base.{
  ℕ, zero, suc, ◌+◌, Option, none, some, List, [], ◌∷◌, ltb, if◌then◌else◌, Text, codes, update,
  ◌++◌, Bool,
}

-- `App`
pub record App {ℓ} (S : Type ℓ) : Type ℓ where
  pub name : Text
  pub init : Option (S → S)

pub record Apps {ℓ} (S : Type ℓ) : Type ℓ where
  pub apps : ℕ → App S
  pub app_count : ℕ

-- What the runtime calls, on states S, with the interpreter's states L. A `lua_State*` is a value of L,
-- and `luaL_dofile` says whether it returned `LUA_OK`.
pub record Host {ℓ} (S L : Type ℓ) : Type ℓ where
  pub kernel_boot : S → S
  pub kernel_print : Text → S → S
  pub lual_newstate : S → L × S
  pub lual_openlibs : L → S → S
  pub lual_dofile : L → Text → S → Bool × S
  pub lua_tostring : L → S → Text
  pub lua_close : L → S → S

module _ {ℓ} {S : Type ℓ} where
  unfoldable pub runtime_load_app : (max_apps : ℕ) → Apps S → Text → Option (S → S) → Apps S
  runtime_load_app max_apps s name init =
      if ltb s.app_count max_apps
      then record s {
        apps = update s.apps s.app_count (record { name = name; init = init });
        app_count = s.app_count + 1;
      }
      else s

  -- `if (apps[i].init) apps[i].init();`
  abbrev pub start_app : App S → S → S
  start_app app st = elim app.init [ none ↦ st | some init ↦ init st ]

  -- The loop, with `left` rounds to go.
  unfoldable pub run_apps_from : (ℕ → App S) → (left i : ℕ) → S → S
  run_apps_from apps zero i st = st
  run_apps_from apps (suc left) i st = run_apps_from apps left (i + 1) (start_app (apps i) st)

  unfoldable pub runtime_run_apps : Apps S → S → S
  unfolding run_apps_from
  runtime_run_apps s st = run_apps_from s.apps s.app_count 0 st

module _ {ℓ} {S L : Type ℓ} (host : Host S L) where
  unfoldable pub runtime_run_lua_app : Text → S → S
  runtime_run_lua_app file st =
      let (l, st1) = host.lual_newstate st in
      let (is_ok, st2) = host.lual_dofile l file (host.lual_openlibs l st1) in
      let st3 = if is_ok then st2 else host.kernel_print (host.lua_tostring l st2) st2 in
      host.lua_close l st3

  unfoldable pub runtime_boot :
      (max_apps : ℕ) → Apps S → (notepad calculator settings : S → S) → S → Apps S × S
  unfolding runtime_load_app runtime_run_apps runtime_run_lua_app
  runtime_boot max_apps s notepad calculator settings st =
      let greeting = codes "Cocos OS runtime minimalista iniciado" ++ (10 ∷ []) in
      let booted = host.kernel_print greeting (host.kernel_boot st) in
      let s1 = runtime_load_app max_apps s (codes "notepad") (some notepad) in
      let s2 = runtime_load_app max_apps s1 (codes "calculator") (some calculator) in
      let s3 = runtime_load_app max_apps s2 (codes "settings") (some settings) in
      (s3, runtime_run_lua_app (codes "apps_lua/main_tribe.lua") (runtime_run_apps s3 booted))

  unfoldable pub runtime_tick : S → S
  runtime_tick st = host.kernel_print (codes "tick" ++ (10 ∷ [])) st
