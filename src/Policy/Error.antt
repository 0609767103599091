-- ===== src/Policy/Error.antt =====
-- The errors of internal/policy, one constructor for each message. An error that wraps another
-- with `%w` is the error that it wraps.
use boks.Prelude.{Result}

pub data Error : Type 0 where
  empty_destination unclosed_bracket trailing_text not_a_number port_out_of_range : Error
  empty_host host_too_long not_ascii empty_label label_too_long bad_character : Error
  empty_pattern bad_prefix misplaced_star wildcard_on_address : Error
  backwards_range unknown_action unknown_preset : Error
  no_version newer_version unnamed_sandbox unnamed_profile unusable_rule bad_profile : Error
  unknown_profile profile_exists not_stored two_scopes no_path : Error

-- What a Go function returns beside its value.
abbrev pub Outcome : Type 0 → Type 0
Outcome A = Result Error A
