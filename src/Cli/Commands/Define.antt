-- ===== src/Cli/Commands/Define.antt =====
-- Flags with different names are defined without a panic.
use kettlingar_go.Prelude.{
  ◌≡◌, ◌≢◌, refl, sym, ap, ◌∙◌, subst, arith, All, Bool, true, false, bytes_eq_iff, List, [], ◌∷◌,
  ◌++◌, append_assoc, append-nil, if◌then◌else◌, Bytes, none, some, map,
}
use kettlingar_go.Dict.{Dict}
use kettlingar_go.Text.Dashed.{dashed_name}
use kettlingar_go.Rpc.Method.{MethodDesc}
use kettlingar_go.Cli.Flags.Registered.{AreFree}
use kettlingar_go.Cli.Commands.{
  Group, Flag, Command, Tools, is_positional_args, unless_panic, is_defined, define_flag, arg_flag,
  flags_of, command_with, create_rpc_command,
}

abbrev pub flag_names : List Flag → List Bytes
flag_names flags = map (λ f. f.flag_name) flags

flag_names-append : (xs ys : List Flag) → flag_names (xs ++ ys) ≡ flag_names xs ++ flag_names ys
flag_names-append [] ys = refl
flag_names-append (x ∷ xs) ys = ap (◌∷◌ x.flag_name) (flag_names-append xs ys)

is_defined-free :
    (name : Bytes) (flags : List Flag)
    → All (λ n. n ≢ name) (flag_names flags)
    → is_defined name flags ≡ false
is_defined-free name [] h = refl
is_defined-free name (f ∷ flags) h =
    ground (arith, is_defined-free name flags h.1, h.0, bytes_eq_iff f.flag_name name)

pub define_flag-free :
    (f : Flag) (flags : List Flag)
    → All (λ n. n ≢ f.flag_name) (flag_names flags)
    → define_flag f flags ≡ some (flags ++ f ∷ [])
define_flag-free f flags h =
    ap (λ b. if b then none else some (flags ++ f ∷ [])) (is_defined-free f.flag_name flags h)

-- The names that are free behind one more flag.
pub AreFree-add :
    (f : Flag) (flags : List Flag) (ns : List Bytes)
    → AreFree (flag_names flags ++ f.flag_name ∷ []) ns
    → AreFree (flag_names (flags ++ f ∷ [])) ns
AreFree-add f flags ns h =
    subst (λ seen. AreFree seen ns) (sym (flag_names-append flags (f ∷ []))) h

module _ (tools : Tools) where
  -- The flags that the arguments of a method ask for, and their names.
  abbrev pub arg_flags : MethodDesc → Dict Bytes → List Flag
  arg_flags m [] = []
  arg_flags m ((name, t) ∷ args) =
      let rest = arg_flags m args in
      if is_positional_args name t then rest else arg_flag tools m name t ∷ rest

  abbrev pub arg_names : Dict Bytes → List Bytes
  arg_names [] = []
  arg_names ((name, t) ∷ args) =
      let rest = arg_names args in
      if is_positional_args name t then rest else dashed_name tools.unicode name ∷ rest

  -- No two arguments of a method have flags of one name.
  abbrev pub HasFlags : MethodDesc → Type 0
  HasFlags m = AreFree [] (arg_names m.args)

  add_arg_flag-free :
      (b : Bool) (m : MethodDesc) (name t : Bytes) (args : Dict Bytes) (flags : List Flag)
      → ((more : List Flag)
          → AreFree (flag_names more) (arg_names args)
          → flags_of tools m args more ≡ some (more ++ arg_flags m args))
      → AreFree
          (flag_names flags)
          (if b then arg_names args else dashed_name tools.unicode name ∷ arg_names args)
      → unless_panic
          (if b then some flags else define_flag (arg_flag tools m name t) flags)
          (flags_of tools m args)
        ≡ some
            (flags ++ (if b then arg_flags m args else arg_flag tools m name t ∷ arg_flags m args))
  add_arg_flag-free true m name t args flags rest h = rest flags h
  add_arg_flag-free false m name t args flags rest h =
      let f = arg_flag tools m name t in
      ap (λ o. unless_panic o (flags_of tools m args)) (define_flag-free f flags h.0)
      ∙ rest (flags ++ f ∷ []) (AreFree-add f flags (arg_names args) h.1)
      ∙ ap some (append_assoc flags (f ∷ []) (arg_flags m args))

  flags_of-free :
      (m : MethodDesc) (args : Dict Bytes) (flags : List Flag)
      → AreFree (flag_names flags) (arg_names args)
      → flags_of tools m args flags ≡ some (flags ++ arg_flags m args)
  unfolding flags_of
  flags_of-free m [] flags h = ap some (sym (append-nil flags))
  flags_of-free m ((name, t) ∷ args) flags h =
      add_arg_flag-free (is_positional_args name t) m name t args flags (flags_of-free m args) h

  abbrev pub made_command : List Group → MethodDesc → Command
  made_command groups m = command_with tools groups m (arg_flags m m.args)

  pub create_rpc_command-made :
      (groups : List Group) (m : MethodDesc)
      → HasFlags m
      → create_rpc_command tools groups m ≡ some (made_command groups m)
  unfolding create_rpc_command
  create_rpc_command-made groups m h =
      ap (λ o. unless_panic o λ flags. some (command_with tools groups m flags))
        (flags_of-free m m.args [] h)
