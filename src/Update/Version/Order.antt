-- ===== src/Update/Version/Order.antt =====
-- The order of versions is strict: of two versions at most one is newer than the other.
use boks.Prelude.{◌≡◌, refl, true, false, Option, none, some, [], ◌∷◌, arith}
use boks.Strings.{Text, text_lt}
use boks.Strings.Laws.{text_eq_iff}
use boks.Update.Version.{Version, parse_version, newer_pre, newer, newer_if_read, is_newer}

text_lt-asym : (s t : Text) → text_lt s t ≡ true → text_lt t s ≡ false
unfolding text_lt
text_lt-asym [] [] h = refl
text_lt-asym [] (c ∷ t) h = refl
text_lt-asym (b ∷ s) [] h = cc
text_lt-asym (b ∷ s) (c ∷ t) h = ground (arith, text_lt-asym s t)

newer_pre-asym : (s t : Text) → newer_pre s t ≡ true → newer_pre t s ≡ false
newer_pre-asym s t h = ground (arith, text_lt-asym s t, text_eq_iff s t, text_eq_iff t s)

pub newer-asym : (v w : Version) → newer v w ≡ true → newer w v ≡ false
unfolding newer
newer-asym v w h = ground (arith, newer_pre-asym v.pre w.pre)

newer_if_read-asym : (v w : Option Version) → newer_if_read v w ≡ true → newer_if_read w v ≡ false
unfolding newer_if_read
newer_if_read-asym none none h = refl
newer_if_read-asym none (some w) h = refl
newer_if_read-asym (some v) none h = refl
newer_if_read-asym (some v) (some w) h = newer-asym v w h

-- When the latest release is newer than the current one, the current one is not newer than the
-- latest, so that no two releases are each an update of the other.
pub is_newer-asym :
    (current latest : Text) → is_newer current latest ≡ true → is_newer latest current ≡ false
unfolding is_newer
is_newer-asym current latest h = newer_if_read-asym (parse_version current) (parse_version latest) h
