-- ===== src/Kit/V1/Launch.antt =====
-- internal/kit/decode_v1.go: the translation of the block of the sandbox.
use boks.Prelude.{
  Bool, false, not, ◌&&◌, Option, none, some, List, [], ◌∷◌, ◌++◌, ◌==◌, if◌then◌else◌, is_some,
  has_any, Result, err, ok, ◌>>=◌,
}
use boks.Strings.{Text, codes, is_empty}
use boks.Strings.Decimal.{ℤ, pos, negsuc, itoa}
use boks.Kit.Spec.{Resources, Command}
use boks.Kit.V1.Grammar.{
  Warnings, deprecate, drop_field, EntrypointV1, ResourcesV1, SandboxV1, SpecV1, V1Error,
  negative_memory, Draft,
}

abbrev pub block_of : SpecV1 → Option SandboxV1
block_of sf = elim sf.sandbox [ none ↦ sf.legacy_agent | some block ↦ some block ]

abbrev pub run_of : Option EntrypointV1 → List Text
run_of none = []
run_of (some e) = e.run

abbrev pub args_of : Option EntrypointV1 → List Text
args_of none = []
args_of (some e) = e.args

abbrev pub tty_args_of : Option EntrypointV1 → Option (List Text)
tty_args_of none = none
tty_args_of (some e) = e.tty_args

abbrev pub pipe_mode_of : Option EntrypointV1 → Text
pipe_mode_of none = []
pipe_mode_of (some e) = e.pipe_mode

abbrev pub has_words : Option (List Text) → Bool
has_words none = false
has_words (some words) = has_any words

-- Whether `binary`, `runOptions` and `interactiveOptions` are used.
abbrev pub uses_binary : SandboxV1 → Bool
uses_binary b = not (is_empty b.binary) && not (has_any (run_of b.entrypoint))

abbrev pub uses_run_options : SandboxV1 → Bool
uses_run_options b = has_any b.run_options && not (has_any (args_of b.entrypoint))

abbrev pub uses_interactive : SandboxV1 → Bool
uses_interactive b = has_any b.interactive_options && not (has_words (tty_args_of b.entrypoint))

abbrev pub command_of : SandboxV1 → Command
command_of b = record {
  default = if uses_run_options b then b.run_options else args_of b.entrypoint;
  interactive = if uses_interactive b then some b.interactive_options else tty_args_of b.entrypoint;
}

abbrev pub is_zero : ℤ → Bool
is_zero (pos n) = n == 0
is_zero (negsuc n) = false

-- `fmt.Sprintf("%dm", …)` of a count that is not negative
unfoldable pub memory_text : ℤ → Result V1Error Text
memory_text (pos n) = ok (if n == 0 then [] else itoa n ++ codes "m")
memory_text (negsuc n) = err (negative_memory (negsuc n))

unfoldable pub translate_resources : Option ResourcesV1 → Result V1Error (Option Resources)
unfolding memory_text
translate_resources none = ok none
translate_resources (some r) = do
  memory ← memory_text r.memory_mb
  ok (some (record { cpu = r.cpu; memory = memory; gpu = r.gpu }))

abbrev pub counts_memory : Option ResourcesV1 → Bool
counts_memory none = false
counts_memory (some r) = not (is_zero r.memory_mb)

abbrev pub sandbox_warnings : SandboxV1 → Warnings
sandbox_warnings b =
    drop_field (not (is_empty b.persistence)) (codes "sandbox.persistence")
    ++ (drop_field (not (is_empty (pipe_mode_of b.entrypoint)))
          (codes "sandbox.entrypoint.pipeMode")
        ++ (deprecate (uses_binary b) (codes "agent.binary")
            ++ (deprecate (uses_run_options b) (codes "agent.runOptions")
                ++ (deprecate (uses_interactive b) (codes "agent.interactiveOptions")
                    ++ deprecate (counts_memory b.resources)
                        (codes "sandbox.resources.memoryMB")))))

abbrev pub translate_block : Option SandboxV1 → Draft → Result V1Error Draft
translate_block none d = ok d
translate_block (some b) (s, w) = do
  resources ← translate_resources b.resources
  ok (
    record s {
      sandbox = some (record {
        image = b.image;
        build = b.build;
        entrypoint = if uses_binary b then b.binary ∷ [] else run_of b.entrypoint;
        command = command_of b;
        resources = resources;
      });
    },
    w ++ sandbox_warnings b,
  )

-- `translateV1Sandbox`
unfoldable pub translate_v1_sandbox : SpecV1 → Draft → Result V1Error Draft
unfolding translate_resources
translate_v1_sandbox sf (s, w) =
    translate_block (block_of sf) (s, w ++ deprecate (is_some sf.legacy_agent) (codes "agent:"))
