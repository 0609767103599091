-- ===== src/Secret/Oauth/Swap.antt =====
-- internal/secret/oauth.go: the replacement of a stand-in in the headers of a request. `canonical` is
-- the form in which `http.Header` keeps a name.
use boks.Prelude.{
  ℕ, zero, suc, ◌-◌, Bool, false, ◌||◌, Option, none, some, List, [], ◌∷◌, ◌++◌, map, if◌then◌else◌,
  length, any,
}
use boks.Strings.{Text, is_empty, has_prefix}
use boks.Dict.{Dict, lookup, insert}
use boks.Secret.Scope.{Value}
use boks.Secret.Oauth.{Oauth, headers_of}

abbrev pub Header : Type 0
Header = Dict (List Text)

abbrev pub or_none : Option (List Text) → List Text
or_none none = []
or_none (some vs) = vs

-- `strings.Contains` of a text
unfoldable pub contains_text : Text → Text → Bool
unfolding has_prefix
contains_text [] sub = is_empty sub
contains_text (c ∷ s) sub = has_prefix (c ∷ s) sub || contains_text s sub

-- `strings.ReplaceAll` of a text that is not empty; `left` characters of an occurrence are passed over.
unfoldable pub replace_from : Text → Text → ℕ → Text → Text
unfolding has_prefix
replace_from old new left [] = []
replace_from old new (suc left) (c ∷ s) = replace_from old new left s
replace_from old new zero (c ∷ s) =
    let after = replace_from old new (length old - 1) s in
    let next = replace_from old new 0 s in if has_prefix (c ∷ s) old then new ++ after else c ∷ next

-- The same of the empty text, which stands before each character and at the end.
unfoldable pub interleave : Text → Text → Text
interleave new [] = new
interleave new (c ∷ s) = new ++ c ∷ interleave new s

-- `strings.ReplaceAll`
unfoldable pub replace_all : Text → Text → Text → Text
unfolding replace_from interleave
replace_all old new s = if is_empty old then interleave new s else replace_from old new 0 s

module _ (canonical : Text → Text) where
  -- `http.Header.Values`
  unfoldable pub values : Header → Text → List Text
  unfolding lookup
  values h name = or_none (lookup (canonical name) h)

  -- `http.Header.Set`
  unfoldable pub set_header : Header → Text → Text → Header
  unfolding insert
  set_header h name v = insert (canonical name) (v ∷ []) h

  abbrev pub has_sentinel : Text → Text → Bool
  has_sentinel sentinel v = contains_text v sentinel

  -- `OAuth.carriesSentinel`
  unfoldable pub carries_sentinel : Oauth → Header → Bool
  unfolding headers_of values contains_text
  carries_sentinel o h =
      any (λ name. any (has_sentinel o.sentinels.access) (values h name)) (headers_of o)

  abbrev pub swap_value : Text → Text → Text → Text
  swap_value sentinel access v =
      if has_sentinel sentinel v then replace_all sentinel access v else v

  -- The loop of `OAuth.substitute` over the names: `Del` and `Add` leave the new values under a name.
  unfoldable pub swap_in : Text → Text → List Text → Header → Bool × Header
  unfolding values insert contains_text replace_all
  swap_in sentinel access [] h = (false, h)
  swap_in sentinel access (name ∷ names) h =
      let vs = values h name in
      let changed = any (has_sentinel sentinel) vs in
      let h' =
        if changed then insert (canonical name) (map (swap_value sentinel access) vs) h else h in
      let (others, h'') = swap_in sentinel access names h' in (changed || others, h'')

  -- `OAuth.substitute`
  unfoldable pub substitute : Oauth → Header → Value → Bool × Header
  unfolding headers_of swap_in
  substitute o h access = swap_in o.sentinels.access access.raw (headers_of o) h
