-- ===== src/Shell/Overrun.antt =====
-- Which lines make shell/shell.c write past `ruta[64]` of cpm/cpm.c.
use cocos_os.Base.{
  ◌+◌, ◌≤◌, ◌≡◌, ◌↔◌, refl, ap, ◌∙◌, inl, inr, true, List, [], ◌∷◌, arith, leb, length, Text, codes,
  str_eq, str_eq→eq, Bool-cases, ok, fault,
}
use cocos_os.Screen.{Call}
use cocos_os.Cpm.{cpm_install, cpm_command, cpm_main}
use cocos_os.Shell.{max_args, split, run_command, shell_execute}

-- The words ask for a package whose name has 49 bytes or more.
abbrev pub Overlong : List Text → Type 0
Overlong argv =
    (name : Text) × (rest : List Text) × (argv ≡ codes "cpm" ∷ codes "install" ∷ name ∷ rest)
    × (49 ≤ length name)

ok-ne-fault : (c : List Call) → ok c ≡ fault → ⊥
ok-ne-fault c h = cc h

cpm_install_fault :
    (argv : List Text)
    → cpm_install argv ≡ fault
    → (command verb name : Text) × (rest : List Text) × (argv ≡ command ∷ verb ∷ name ∷ rest)
      × (49 ≤ length name)
unfolding cpm_install
cpm_install_fault [] h = cc h
cpm_install_fault (command ∷ []) h = cc h
cpm_install_fault (command ∷ verb ∷ []) h = cc h
cpm_install_fault (command ∷ verb ∷ name ∷ rest) h = elim (Bool-cases (leb 64 (15 + length name))) [
  | inl long ↦ (command, verb, name, rest, refl, ground arith)
  | inr fits ↦ cc (rw fits at h)
]

-- Only the branch of `install` can fail.
cpm_command_fault :
    (verb : Text) (argv : List Text)
    → cpm_command verb argv ≡ fault
    → (verb ≡ codes "install") × (cpm_install argv ≡ fault)
unfolding cpm_command
cpm_command_fault verb argv h = elim (Bool-cases (str_eq verb (codes "help"))) [
  | inl e ↦ cc (rw e at h)
  | inr a ↦ elim (Bool-cases (str_eq verb (codes "init"))) [
    | inl e ↦ cc (rw (a, e) at h)
    | inr b ↦ elim (Bool-cases (str_eq verb (codes "install"))) [
      | inl e ↦ (str_eq→eq verb (codes "install") e, rw (a, b, e) at h)
      | inr c ↦ elim (Bool-cases (str_eq verb (codes "remove"))) [
        | inl e ↦ cc (rw (a, b, c, e) at h)
        | inr d ↦ elim (Bool-cases (str_eq verb (codes "list"))) [
          | inl e ↦ cc (rw (a, b, c, d, e) at h)
          | inr f ↦ elim (Bool-cases (str_eq verb (codes "version"))) [
            | inl e ↦ cc (rw (a, b, c, d, f, e) at h)
            | inr g ↦ cc (rw (a, b, c, d, f, g) at h)
          ]
        ]
      ]
    ]
  ]
]

-- Only the branch of `cpm` can fail.
run_command_fault :
    (name : Text) (args : List Text)
    → run_command (name ∷ args) ≡ fault
    → (name ≡ codes "cpm") × (cpm_main (name ∷ args) ≡ fault)
unfolding run_command
run_command_fault name args h = elim (Bool-cases (str_eq name (codes "help"))) [
  | inl e ↦ cc (rw e at h)
  | inr a ↦ elim (Bool-cases (str_eq name (codes "clear"))) [
    | inl e ↦ cc (rw (a, e) at h)
    | inr b ↦ elim (Bool-cases (str_eq name (codes "about"))) [
      | inl e ↦ cc (rw (a, b, e) at h)
      | inr c ↦ elim (Bool-cases (str_eq name (codes "cpm"))) [
        | inl e ↦ (str_eq→eq name (codes "cpm") e, rw (a, b, c, e) at h)
        | inr d ↦ cc (rw (a, b, c, d) at h)
      ]
    ]
  ]
]

Overlong-of_fault : (argv : List Text) → run_command argv ≡ fault → Overlong argv
unfolding cpm_main
Overlong-of_fault [] h = unfold run_command in cc h
Overlong-of_fault (name ∷ []) h = cc (run_command_fault name [] h).1
Overlong-of_fault (name ∷ verb ∷ args) h =
    let (is_cpm, failed) = run_command_fault name (verb ∷ args) h in
    let (is_install, overran) = cpm_command_fault verb (name ∷ verb ∷ args) failed in
    let (command, verb', what, rest, e, long) = cpm_install_fault (name ∷ verb ∷ args) overran in
    (what, rest, cc (is_cpm, is_install, e), long)

fault-of_Overlong :
    (name : Text) (rest : List Text)
    → 49 ≤ length name
    → run_command (codes "cpm" ∷ codes "install" ∷ name ∷ rest) ≡ fault
unfolding run_command cpm_main cpm_command cpm_install str_eq
fault-of_Overlong name rest h =
    let over : leb 64 (15 + length name) ≡ true = ground arith in rw over

-- Executing a line overruns the array `ruta` exactly where its first words are `cpm`, `install` and
-- a name of 49 bytes or more.
pub shell_execute-fault_iff :
    (cmd : Text) → (shell_execute cmd ≡ fault) ↔ Overlong (split max_args cmd)
unfolding shell_execute
shell_execute-fault_iff cmd = (
  Overlong-of_fault (split max_args cmd),
  λ (name, rest, e, long). ap run_command e ∙ fault-of_Overlong name rest long,
)
