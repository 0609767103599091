-- ===== src/Workspace/Mode.antt =====
-- internal/workspace/workspace.go: the mode at the end of a workspace argument.
use boks.Prelude.{Bool, true, false, ◌||◌, none, some, List, [], ◌∷◌, ◌==◌, if◌then◌else◌}
use boks.Strings.{Text, codes, text_eq, is_empty, byte_length, cut_last}
use boks.Workspace.GuestPath.{PathStyle, posix, windows}

pub data Mode : Type 0 where
  read_write read_only : Mode

-- the constants `ModeReadOnly` and `ModeReadWrite`
unfoldable pub mode_text : Mode → Text
mode_text read_only = codes "ro"
mode_text read_write = codes "rw"

abbrev pub is_drive_colon : PathStyle → Text → Bool
is_drive_colon posix front = false
is_drive_colon windows front = byte_length front == 1

unfoldable pub by_suffix : Text → Text → Text → Text × Mode
unfolding mode_text
by_suffix arg front back =
    if text_eq back (mode_text read_only)
    then (front, read_only)
    else if text_eq back (mode_text read_write)
    then (front, read_write)
    else (arg, read_write)

-- `splitMode`
unfoldable pub split_mode : Text → PathStyle → Text × Mode
unfolding by_suffix
split_mode arg style = elim (cut_last b':' arg) [
  | none ↦ (arg, read_write)
  | some (front, back) ↦
      if is_empty front || is_drive_colon style front
      then (arg, read_write)
      else by_suffix arg front back
]

-- `Workspace`
pub record Workspace : Type 0 where
  pub host_path : Text
  pub guest_path_ : Text
  pub mode : Mode

abbrev pub is_read_only : Workspace → Bool
is_read_only w = elim w.mode [ read_only ↦ true | read_write ↦ false ]

-- `Workspace.MountOptions`
unfoldable pub mount_options : Workspace → List Text
mount_options w =
    codes "rbind" ∷ codes "rprivate" ∷ (if is_read_only w then codes "ro" else codes "rw") ∷ []
