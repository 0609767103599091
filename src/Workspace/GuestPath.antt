-- ===== src/Workspace/GuestPath.antt =====
-- internal/workspace/guestpath.go: the guest's name of a host path.
pub mod Drive
use boks.Prelude.{
  ℕ, Bool, ◌&&◌, ◌||◌, Option, none, some, List, [], ◌∷◌, ◌++◌, map, leb, ◌==◌, if◌then◌else◌, take,
  drop, Result, err, ok,
}
use boks.Strings.{Text, codes, text_eq, is_empty, to_lower, cut_prefix, has_prefix, contains, split}

pub data PathStyle : Type 0 where
  posix windows : PathStyle

pub data Error : Type 0 where
  nul_byte unc_path no_drive relative_to_drive outside_drive : Error

abbrev pub slash : ℕ
slash = b'/'

abbrev pub backslash : ℕ
backslash = 92

abbrev pub to_slash : ℕ → ℕ
to_slash c = if c == backslash then slash else c

-- Go's `path.Clean` of a path that begins with a slash: the components are kept on a stack, the
-- last one first.
unfoldable pub clean_step : List Text → Text → List Text
clean_step stack component =
    if is_empty component || text_eq component (codes ".")
    then stack
    else if text_eq component (codes "..")
    then drop 1 stack
    else component ∷ stack

unfoldable pub clean_stack : List Text → List Text → List Text
unfolding clean_step
clean_stack stack [] = stack
clean_stack stack (c ∷ cs) = clean_stack (clean_step stack c) cs

-- the text of a stack of components
unfoldable pub path_text : List Text → Text
path_text [] = []
path_text (c ∷ stack) = path_text stack ++ slash ∷ c

abbrev pub or_root : Text → Text
or_root [] = codes "/"
or_root (c ∷ s) = c ∷ s

unfoldable pub clean_rooted : Text → Text
unfolding clean_stack path_text
clean_rooted p = or_root (path_text (clean_stack [] (split slash p)))

unfoldable pub is_drive_letter : ℕ → Bool
is_drive_letter c = (leb b'a' c && leb c b'z') || (leb b'A' c && leb c b'Z')

-- `cutPrefixFold(s, "UNC/")`
unfoldable pub cut_unc : Text → Option Text
cut_unc s = if text_eq (to_lower (take 4 s)) (codes "unc/") then some (drop 4 s) else none

unfoldable pub strip_extended : Text → Text
unfolding cut_unc
strip_extended p = elim (cut_prefix p (codes "//?/")) [
  | none ↦ p
  | some rest ↦ elim (cut_unc rest) [ none ↦ rest | some after ↦ slash ∷ slash ∷ after ]
]

unfoldable pub is_under : Text → Text → Bool
is_under root guest = text_eq guest root || has_prefix guest (root ++ slash ∷ [])

-- the drive letter, lower case, and the rest of the path
unfoldable pub on_drive : Text → Text → Result Error Text
unfolding clean_rooted is_under
on_drive drive [] = err relative_to_drive
on_drive drive (c ∷ rest) =
    if c == slash
    then (let guest = clean_rooted (slash ∷ drive ++ c ∷ rest) in
        if is_under (slash ∷ drive) guest then ok guest else err outside_drive)
    else err relative_to_drive

unfoldable pub map_drive : Text → Result Error Text
unfolding on_drive is_drive_letter
map_drive (d ∷ c ∷ rest) =
    if c == b':' && is_drive_letter d then on_drive (to_lower (d ∷ [])) rest else err no_drive
map_drive _ = err no_drive

-- `windowsGuestPath`
unfoldable pub windows_guest_path : Text → Result Error Text
unfolding strip_extended map_drive
windows_guest_path host =
    let p = strip_extended (map to_slash host) in
    if contains 0 host
    then err nul_byte
    else if has_prefix p (codes "//")
    then err unc_path
    else map_drive p

-- `guestPath`
unfoldable pub guest_path : Text → PathStyle → Result Error Text
unfolding windows_guest_path
guest_path host posix = ok host
guest_path host windows = windows_guest_path host
