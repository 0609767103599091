-- ===== src/Workspace/GuestPath/Drive.antt =====
-- internal/workspace/guestpath.go: where the components of a Windows path land in the guest.
use boks.Prelude.{
  ℕ, ◌+◌, ◌≡◌, refl, sym, ap, ◌∙◌, Bool, true, false, not, ◌&&◌, ◌||◌, List, [], ◌∷◌, ◌++◌, map,
  append-nil, append_assoc, map-append, arith, leb, ◌==◌, if◌then◌else◌, ==_refl, all, ok,
}
use boks.Strings.{
  Text, codes, text_eq, is_empty, lower_rune, to_lower, cut_prefix, has_prefix, contains, split,
}
use boks.Strings.Splitting.{split-none, split-append, contains-append}
use boks.Workspace.GuestPath.{
  to_slash, clean_step, clean_stack, path_text, clean_rooted, is_drive_letter, strip_extended,
  is_under, on_drive, map_drive, windows_guest_path,
}

-- A name of a directory or file: no NUL, no separator of either kind, not empty, `.` or `..`.
abbrev pub is_component : Text → Bool
is_component c =
    not (contains 0 c)
    && not (contains 92 c)
    && not (contains b'/' c)
    && not (is_empty c)
    && not (text_eq c (codes "."))
    && not (text_eq c (codes ".."))

-- The components below a drive, each after a separator.
abbrev pub below : ℕ → List Text → Text
below separator [] = []
below separator (c ∷ cs) = separator ∷ (c ++ below separator cs)

split-below :
    (c : Text) (cs : List Text)
    → contains b'/' c ≡ false
    → all is_component cs ≡ true
    → split b'/' (c ++ below b'/' cs) ≡ c ∷ cs
split-below c [] h k = ap (split b'/') (append-nil c) ∙ split-none b'/' c h
split-below c (d ∷ cs) h k =
    let plain : contains b'/' d ≡ false = ground (arith, k) in
    let rest : all is_component cs ≡ true = ground (arith, k) in
    split-append b'/' c (d ++ below b'/' cs) h ∙ ap (λ x. c ∷ x) (split-below d cs plain rest)

clean_stack-below :
    (stack cs : List Text)
    → all is_component cs ≡ true
    → path_text (clean_stack stack cs) ≡ path_text stack ++ below b'/' cs
unfolding clean_stack clean_step path_text
clean_stack-below stack [] h = sym (append-nil (path_text stack))
clean_stack-below stack (c ∷ cs) h =
    let skipped : (is_empty c || text_eq c (codes ".")) ≡ false = ground (arith, h) in
    let up : text_eq c (codes "..") ≡ false = ground (arith, h) in
    let rest : all is_component cs ≡ true = ground (arith, h) in
    rw (skipped, up)
      (clean_stack-below (c ∷ stack) cs rest
        ∙ append_assoc (path_text stack) (b'/' ∷ c) (below b'/' cs))

to_slash-component : (c : Text) → contains 92 c ≡ false → map to_slash c ≡ c
unfolding contains
to_slash-component [] h = refl
to_slash-component (d ∷ c) h =
    let first : (d == 92) ≡ false = ground (arith, h) in
    let rest : contains 92 c ≡ false = ground (arith, h) in
    rw (first, to_slash-component c rest) refl

to_slash-below :
    (cs : List Text) → all is_component cs ≡ true → map to_slash (below 92 cs) ≡ below b'/' cs
to_slash-below [] h = refl
to_slash-below (c ∷ cs) h =
    let plain : contains 92 c ≡ false = ground (arith, h) in
    let rest : all is_component cs ≡ true = ground (arith, h) in
    ap (λ x. b'/' ∷ x)
      (map-append to_slash c (below 92 cs)
        ∙ (rw (to_slash-component c plain, to_slash-below cs rest) refl))

no_nul-below : (cs : List Text) → all is_component cs ≡ true → contains 0 (below 92 cs) ≡ false
unfolding contains
no_nul-below [] h = refl
no_nul-below (c ∷ cs) h =
    let plain : contains 0 c ≡ false = ground (arith, h) in
    let rest : all is_component cs ≡ true = ground (arith, h) in
    contains-append 0 c (below 92 cs) ∙ (rw (plain, no_nul-below cs rest) refl)

-- a drive letter in lower case
abbrev pub lower_drive : ℕ → ℕ
lower_drive d = if leb b'A' d && leb d b'Z' then d + 32 else d

letter-lower : (d : ℕ) → is_drive_letter d ≡ true → to_lower (d ∷ []) ≡ lower_drive d ∷ []
unfolding is_drive_letter to_lower lower_rune
letter-lower d h = ground (arith, h)

letter-component : (d : ℕ) → is_drive_letter d ≡ true → is_component (lower_drive d ∷ []) ≡ true
unfolding is_drive_letter contains text_eq
letter-component d h = ground (arith, h)

letter-to_slash : (d : ℕ) → is_drive_letter d ≡ true → to_slash d ≡ d
unfolding is_drive_letter
letter-to_slash d h = ground (arith, h)

clean_rooted-below :
    (c : Text) (cs : List Text)
    → all is_component (c ∷ cs) ≡ true
    → clean_rooted (below b'/' (c ∷ cs)) ≡ below b'/' (c ∷ cs)
unfolding clean_rooted split clean_stack clean_step path_text
clean_rooted-below c cs h =
    let plain : contains b'/' c ≡ false = ground (arith, h) in
    let rest : all is_component cs ≡ true = ground (arith, h) in
    rw (split-below c cs plain rest, clean_stack-below [] (c ∷ cs) h) refl

is_under-below : (l : ℕ) (s : Text) → is_under (b'/' ∷ l ∷ []) (b'/' ∷ l ∷ b'/' ∷ s) ≡ true
unfolding is_under text_eq has_prefix cut_prefix
is_under-below l s = rw (==_refl l) refl

strip_extended-letter : (d : ℕ) (s : Text) → (b'/' == d) ≡ false → strip_extended (d ∷ s) ≡ d ∷ s
unfolding strip_extended cut_prefix
strip_extended-letter d s h = rw (h, strip_extended) refl

no_unc-letter : (d : ℕ) (s : Text) → (b'/' == d) ≡ false → has_prefix (d ∷ s) (codes "//") ≡ false
unfolding has_prefix cut_prefix
no_unc-letter d s h = rw h refl

map_drive-below :
    (d : ℕ) (c : Text) (cs : List Text)
    → is_drive_letter d ≡ true
    → all is_component (c ∷ cs) ≡ true
    → map_drive (d ∷ b':' ∷ below b'/' (c ∷ cs)) ≡ ok (b'/' ∷ lower_drive d ∷ below b'/' (c ∷ cs))
unfolding map_drive on_drive
map_drive-below d c cs h k =
    let l = letter-component d h in
    rw
      (
        h,
        letter-lower d h,
        clean_rooted-below (lower_drive d ∷ []) (c ∷ cs) (both l k),
        is_under-below (lower_drive d) (c ++ below b'/' cs),
      )
      refl
  where
    both : {a b : Bool} → a ≡ true → b ≡ true → (a && b) ≡ true
    both p q = ground arith

-- A Windows path of a drive letter, a colon and one or more components, each after a backslash,
-- none of which is `.` or `..`, empty, or has a NUL or a separator, maps to the letter in lower case and the
-- same components, each after a slash.
pub windows_guest_path-components :
    (d : ℕ) (c : Text) (cs : List Text)
    → is_drive_letter d ≡ true
    → all is_component (c ∷ cs) ≡ true
    → windows_guest_path (d ∷ b':' ∷ below 92 (c ∷ cs))
      ≡ ok (b'/' ∷ lower_drive d ∷ below b'/' (c ∷ cs))
unfolding windows_guest_path contains is_drive_letter
windows_guest_path-components d c cs h k =
    let plain : (b'/' == d) ≡ false = ground (arith, h) in
    let some_letter : (d == 0) ≡ false = ground (arith, h) in
    rw
      (
        letter-to_slash d h,
        to_slash-below (c ∷ cs) k,
        strip_extended-letter d (b':' ∷ below b'/' (c ∷ cs)) plain,
        some_letter,
        no_nul-below (c ∷ cs) k,
        no_unc-letter d (b':' ∷ below b'/' (c ∷ cs)) plain,
      )
      (map_drive-below d c cs h k)
