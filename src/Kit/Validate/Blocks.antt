-- ===== src/Kit/Validate/Blocks.antt =====
-- internal/kit/validate.go: the blocks of a specification, less its credentials.
use boks.Prelude.{
  ℕ, suc, ◌^◌, Bool, false, not, ◌&&◌, ◌||◌, Option, none, some, List, [], ◌∷◌, ltb, leb,
  if◌then◌else◌, is_some, has_any, any, Result, err, ok, ◌>>◌,
}
use boks.Strings.{Text, codes, text_eq, is_empty, trim_space, has_prefix}
use boks.Strings.Decimal.{ℤ, pos, negsuc}
use boks.Dict.{Dict, lookup, insert, sorted_keys}
use boks.Kit.Spec.{
  Arg, Resources, Sandbox, Port, SetupFile, Setup, Volume, mount_type_block, mount_type_tmpfs, Spec,
}
use boks.Kit.Patterns.{is_shell_identifier, is_locked_path, is_arg_name, is_octal_mode}
use boks.Kit.Size.{SizeError, parse_byte_size}
use boks.Kit.Validate.Errors.{
  Field, in_locked, in_enum, KitError, image_required, cpu_negative, entrypoint_empty,
  memory_invalid, entry_empty, entry_duplicate, locked_invalid, arg_name_invalid,
  arg_required_with_default, arg_without_default, arg_enum_with_pattern, arg_pattern_invalid,
  arg_default_not_permitted, arg_default_not_matching, container_out_of_range, protocol_invalid,
  variable_empty, variable_invalid, install_empty, startup_empty, startup_program_empty,
  file_path_required, file_path_relative, file_mode_invalid, volume_type_invalid,
  volume_path_required, volume_path_relative, volume_mode_invalid, volume_duplicate,
  volume_size_invalid, Checked, check, Std,
}

-- The entries of a list in order, each with its index.
unfoldable pub each {ℓ} : {A : Type ℓ} → (ℕ → A → Checked) → ℕ → List A → Checked
each test i [] = ok tt
each test i (x ∷ xs) = test i x >> each test (suc i) xs

-- The loop of `validateStringList`, with the entries seen so far.
unfoldable pub list_entries : Field → List Text → ℕ → List Text → Checked
unfolding check text_eq
list_entries field seen i [] = ok tt
list_entries field seen i (v ∷ vs) =
    check (is_empty v) (entry_empty field i)
    >> check (any (text_eq v) seen) (entry_duplicate field i)
    >> list_entries field (v ∷ seen) (suc i) vs

-- `validateStringList`
unfoldable pub validate_string_list : Field → List Text → Checked
unfolding list_entries
validate_string_list field = list_entries field [] 0

-- `validateLocked`
unfoldable pub validate_locked : List Text → Checked
unfolding validate_string_list each is_locked_path check
validate_locked paths =
    validate_string_list in_locked paths
    >> each (λ i p. check (not (is_locked_path p)) (locked_invalid i)) 0 paths

-- A negative float64: its sign bit is set, and it is neither zero nor a NaN.
unfoldable pub is_negative_float : ℕ → Bool
is_negative_float bits = ltb (2 ^ 63) bits && leb bits 0xfff0000000000000

abbrev pub size_error : (SizeError → KitError) → Result SizeError ℕ → Checked
size_error why (err e) = err (why e)
size_error why (ok n) = ok tt

abbrev pub is_valid_protocol : Text → Bool
is_valid_protocol p = is_empty p || text_eq p (codes "tcp") || text_eq p (codes "udp")

unfoldable pub is_container_port : ℤ → Bool
is_container_port (negsuc n) = false
is_container_port (pos n) = leb 1 n && leb n 65535

-- `validatePorts`
unfoldable pub validate_ports : ℕ → List Port → Checked
unfolding check is_container_port text_eq
validate_ports i [] = ok tt
validate_ports i (p ∷ ps) =
    check (not (is_container_port p.container)) (container_out_of_range i)
    >> check (not (is_valid_protocol p.protocol)) (protocol_invalid i)
    >> validate_ports (suc i) ps

unfoldable pub variables : List Text → Checked
unfolding check is_shell_identifier
variables [] = ok tt
variables (k ∷ ks) =
    check (is_empty k) variable_empty
    >> check (not (is_shell_identifier k)) (variable_invalid k)
    >> variables ks

-- `validateEnvironment`
unfoldable pub validate_environment : Option (Dict Text) → Checked
unfolding variables sorted_keys
validate_environment none = ok tt
validate_environment (some vars) = variables (sorted_keys vars)

abbrev pub startup_entry : ℕ → List Text → Checked
startup_entry i [] = err (startup_empty i)
startup_entry i (program ∷ args) = check (is_empty program) (startup_program_empty i)

abbrev pub is_absolute : Text → Bool
is_absolute path = has_prefix path (codes "/")

abbrev pub is_bad_mode : Text → Bool
is_bad_mode mode = not (is_empty mode) && not (is_octal_mode mode)

abbrev pub file_entry : ℕ → SetupFile → Checked
file_entry i f =
    check (is_empty f.path) (file_path_required i)
    >> check (not (is_absolute f.path)) (file_path_relative i)
    >> check (is_bad_mode f.mode) (file_mode_invalid i)

-- `validateSetup`
unfoldable pub validate_setup : Option Setup → Checked
unfolding check each trim_space has_prefix is_octal_mode
validate_setup none = ok tt
validate_setup (some s) =
    each (λ i c. check (is_empty (trim_space c.command)) (install_empty i)) 0 s.install
    >> each (λ i c. startup_entry i c.command) 0 s.startup
    >> each file_entry 0 s.files

module _ (std : Std) where
  unfoldable pub validate_resources : Option Resources → Checked
  unfolding check is_negative_float parse_byte_size
  validate_resources none = ok tt
  validate_resources (some r) =
      check (is_negative_float r.cpu) cpu_negative
      >> (if is_empty r.memory
          then ok tt
          else size_error memory_invalid (parse_byte_size std.lower r.memory))

  abbrev pub is_bad_entrypoint : List Text → Bool
  is_bad_entrypoint [] = false
  is_bad_entrypoint (program ∷ args) = is_empty program

  unfoldable pub sandbox_block : Spec → Option Sandbox → Checked
  unfolding check validate_resources
  sandbox_block s none = ok tt
  sandbox_block s (some sb) =
      check (is_empty sb.image && is_empty s.extends) image_required
      >> validate_resources sb.resources
      >> check (is_bad_entrypoint sb.entrypoint) entrypoint_empty

  -- `validateSandbox`
  unfoldable pub validate_sandbox : Spec → Checked
  unfolding sandbox_block
  validate_sandbox s = sandbox_block s s.sandbox

  abbrev pub matches_whole : Text → Text → Bool
  matches_whole pattern v = elim (std.find pattern v) [ none ↦ false | some m ↦ text_eq m v ]

  -- `Arg.ValidateValue`, of the argument with a name
  unfoldable pub validate_value : Text → Arg → Text → Checked
  unfolding check text_eq
  validate_value name a v =
      check (has_any a.enum && not (any (text_eq v) a.enum)) (arg_default_not_permitted name)
      >> check (not (is_empty a.pattern) && not (std.compiles a.pattern)) (arg_pattern_invalid name)
      >> check (not (is_empty a.pattern) && not (matches_whole a.pattern v))
          (arg_default_not_matching name)

  abbrev pub default_value : Text → Arg → Option Text → Checked
  default_value name a none = ok tt
  default_value name a (some v) = validate_value name a v

  unfoldable pub validate_arg : Text → Arg → Checked
  unfolding check is_arg_name validate_string_list validate_value
  validate_arg name a =
      check (not (is_arg_name name)) (arg_name_invalid name)
      >> check (a.required && is_some a.default) (arg_required_with_default name)
      >> check (not a.required && not (is_some a.default)) (arg_without_default name)
      >> check (has_any a.enum && not (is_empty a.pattern)) (arg_enum_with_pattern name)
      >> validate_string_list (in_enum name) a.enum
      >> check (not (is_empty a.pattern) && not (std.compiles a.pattern)) (arg_pattern_invalid name)
      >> default_value name a a.default

  abbrev pub found_arg : Text → Option Arg → Checked
  found_arg name none = ok tt
  found_arg name (some a) = validate_arg name a

  unfoldable pub named_args : Dict Arg → List Text → Checked
  unfolding validate_arg lookup
  named_args args [] = ok tt
  named_args args (name ∷ names) = found_arg name (lookup name args) >> named_args args names

  -- `validateArgs`
  unfoldable pub validate_args : Dict Arg → Checked
  unfolding named_args sorted_keys
  validate_args args = named_args args (sorted_keys args)

  abbrev pub unseen : ℕ → Option ℕ → Checked
  unseen i none = ok tt
  unseen i (some prev) = err (volume_duplicate i prev)

  unfoldable pub volume_entry : ℕ → Dict ℕ → Volume → Checked
  unfolding check text_eq has_prefix lookup parse_byte_size is_octal_mode
  volume_entry i seen v =
      check (not (text_eq v.mount mount_type_block || text_eq v.mount mount_type_tmpfs))
        (volume_type_invalid i)
      >> check (is_empty v.path) (volume_path_required i)
      >> check (not (is_absolute v.path)) (volume_path_relative i)
      >> unseen i (lookup v.path seen)
      >> (if is_empty v.size
          then ok tt
          else size_error (volume_size_invalid i) (parse_byte_size std.lower v.size))
      >> check (is_bad_mode v.mode) (volume_mode_invalid i)

  -- `validateVolumes`, with the paths seen so far
  unfoldable pub validate_volumes : ℕ → Dict ℕ → List Volume → Checked
  unfolding volume_entry insert
  validate_volumes i seen [] = ok tt
  validate_volumes i seen (v ∷ vs) =
      volume_entry i seen v >> validate_volumes (suc i) (insert v.path i seen) vs
