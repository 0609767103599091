-- ===== src/Kit/V1/Blocks.antt =====
-- internal/kit/decode_v1.go: the translation of the blocks beside the sandbox and the credentials.
use boks.Prelude.{
  not, ◌&&◌, ◌||◌, Option, none, some, List, [], ◌∷◌, ◌++◌, if◌then◌else◌, is_some, has_any,
}
use boks.Strings.{Text, codes, is_empty}
use boks.Dict.{Dict, lookup, sorted_keys}
use boks.Kit.Spec.{NetworkPermissions, Port, Volume, mount_type_block, mount_type_tmpfs, Spec}
use boks.Kit.V1.Grammar.{
  deprecated, Warnings, deprecate, drop_field, SandboxV1, NetworkV1, EnvironmentV1, CommandsV1,
  SpecV1, Draft,
}
use boks.Kit.V1.Launch.{block_of}

abbrev pub filename_of : Option SandboxV1 → Text
filename_of none = []
filename_of (some b) = b.ai_filename

abbrev pub content_of : SpecV1 → Text
content_of sf = if is_empty sf.agent_context then sf.legacy_memory else sf.agent_context

abbrev pub content_warnings : SpecV1 → Warnings
content_warnings sf =
    if is_empty sf.agent_context
    then deprecate (not (is_empty sf.legacy_memory)) (codes "memory:")
    else deprecated (codes "agentContext:")
      ∷ drop_field (not (is_empty sf.legacy_memory)) (codes "memory:")

-- `translateV1AgentInstructions`
unfoldable pub translate_v1_agent_instructions : SpecV1 → Draft → Draft
translate_v1_agent_instructions sf (s, w) =
    let filename = filename_of (block_of sf) in
    let content = content_of sf in
    let named = deprecate (not (is_empty filename)) (codes "sandbox.aiFilename") in
    let warnings = w ++ (named ++ content_warnings sf) in
    if is_empty filename && is_empty content then (s, warnings) else (
      record s { agent_instructions = some (record { filename = filename; content = content }) },
      warnings,
    )

abbrev pub caps_of : Option (Option NetworkPermissions) → Option NetworkPermissions
caps_of none = none
caps_of (some network) = network

abbrev pub allow_of : Option NetworkPermissions → List Text
allow_of none = []
allow_of (some n) = n.allow

abbrev pub deny_of : Option NetworkPermissions → List Text
deny_of none = []
deny_of (some n) = n.deny

abbrev pub allowed_of : Option NetworkV1 → List Text
allowed_of none = []
allowed_of (some n) = n.allowed_domains

abbrev pub denied_of : Option NetworkV1 → List Text
denied_of none = []
denied_of (some n) = n.denied_domains

abbrev pub ports_of : Option NetworkV1 → List Port
ports_of none = []
ports_of (some n) = n.published_ports

abbrev pub network_warnings : SpecV1 → Warnings
network_warnings sf =
    deprecate (is_some (caps_of sf.caps)) (codes "caps:")
    ++ (deprecate (has_any (allowed_of sf.network)) (codes "network.allowedDomains")
        ++ (deprecate (has_any (denied_of sf.network)) (codes "network.deniedDomains")
            ++ deprecate (has_any (ports_of sf.network)) (codes "network.publishedPorts")))

-- `translateV1Network`
unfoldable pub translate_v1_network : SpecV1 → Draft → Draft
translate_v1_network sf (s, w) =
    let allow = allow_of (caps_of sf.caps) ++ allowed_of sf.network in
    let deny = deny_of (caps_of sf.caps) ++ denied_of sf.network in
    let s' : Spec = record s { ports = s.ports ++ ports_of sf.network } in
    let warnings = w ++ network_warnings sf in
    if has_any allow || has_any deny
    then (record s' { permissions = some (some (record { allow = allow; deny = deny })) }, warnings)
    else (s', warnings)

-- `NetworkRules` of a specification that is not nil
unfoldable pub network_rules : Spec → List Text × List Text
network_rules s = (allow_of (caps_of s.permissions), deny_of (caps_of s.permissions))

abbrev pub variables_of : Option EnvironmentV1 → Dict Text
variables_of none = []
variables_of (some e) = e.variables

-- `translateV1Environment`
unfoldable pub translate_v1_environment : SpecV1 → Draft → Draft
translate_v1_environment sf (s, w) =
    if has_any (variables_of sf.environment)
    then (record s { environment = some (variables_of sf.environment) }, w)
    else (s, w)

abbrev pub translate_commands : Option CommandsV1 → Draft → Draft
translate_commands none d = d
translate_commands (some c) (s, w) = (
  record s {
    setup = some (record { install = c.install; startup = c.startup; files = c.init_files });
  },
  w
      ++ (deprecated (codes "commands:")
          ∷ deprecate (has_any c.init_files) (codes "commands.initFiles")),
)

-- `translateV1Setup`
unfoldable pub translate_v1_setup : SpecV1 → Draft → Draft
translate_v1_setup sf d = translate_commands sf.commands d

abbrev pub text_or_empty : Option Text → Text
text_or_empty none = []
text_or_empty (some t) = t

-- The volumes of a map from paths to sizes, in the order of the paths.
abbrev pub sized_volumes : Text → Dict Text → List Text → List Volume
sized_volumes mount sizes [] = []
sized_volumes mount sizes (path ∷ paths) =
    record { path = path; mount = mount; size = text_or_empty (lookup path sizes); mode = [] }
    ∷ sized_volumes mount sizes paths

-- `translateV1Volumes`
unfoldable pub translate_v1_volumes : SpecV1 → Draft → Draft
unfolding sorted_keys lookup
translate_v1_volumes sf (s, w) =
    let sizes = sized_volumes mount_type_block sf.volume_sizes (sorted_keys sf.volume_sizes) in
    let tmpfs = sized_volumes mount_type_tmpfs sf.tmpfs (sorted_keys sf.tmpfs) in
    (
      record s { volumes = s.volumes ++ (sf.volumes_list ++ (sizes ++ tmpfs)) },
      w
          ++ (deprecate (has_any sf.volume_sizes) (codes "volumes: (mapping form)")
              ++ deprecate (has_any sf.tmpfs) (codes "tmpfs:")),
    )

-- `translateV1Removed`
unfoldable pub translate_v1_removed : SpecV1 → Draft → Draft
translate_v1_removed sf (s, w) = (
  s,
  w
      ++ (drop_field sf.has_settings (codes "settings:")
          ++ (drop_field (not (is_empty sf.persistence)) (codes "persistence:")
              ++ drop_field (not (is_empty sf.kit_dir)) (codes "kitDir:"))),
)
