-- ===== src/Proxy/Sni.antt =====
-- internal/proxy/sni.go: the server name of a TLS ClientHello, from bytes that a guest sent.
pub mod Reading
pub mod Hello
use boks.Prelude.{
  ℕ, zero, suc, ◌+◌, ◌*◌, ◌||◌, Option, none, some, List, [], ◌∷◌, ltb, ◌==◌, if◌then◌else◌, length,
}

abbrev pub Bytes : Type 0
Bytes = List ℕ

-- What `extractSNI` returns; `out_of_fuel` belongs to the model only.
pub data Sni : Type 0 where
  name : Bytes → Sni
  need_more no_client_hello no_sni out_of_fuel : Sni

-- `reader.u8`: the value read, and the reader after it
unfoldable pub u8 : Bytes → Option (ℕ × Bytes)
u8 [] = none
u8 (b ∷ r) = some (b, r)

-- `reader.u16`
unfoldable pub u16 : Bytes → Option (ℕ × Bytes)
u16 (a ∷ b ∷ r) = some (a * 256 + b, r)
u16 _ = none

abbrev pub onto_first : ℕ → Option (Bytes × Bytes) → Option (Bytes × Bytes)
onto_first b none = none
onto_first b (some (front, rest)) = some (b ∷ front, rest)

-- `reader.take`, and `reader.skip`
unfoldable pub take_bytes : ℕ → Bytes → Option (Bytes × Bytes)
take_bytes zero r = some ([], r)
take_bytes (suc n) [] = none
take_bytes (suc n) (b ∷ r) = onto_first b (take_bytes n r)

-- `reader.vector(1)` and `reader.vector(2)`
unfoldable pub vector8 : Bytes → Option (Bytes × Bytes)
unfolding take_bytes
vector8 [] = none
vector8 (n ∷ r) = take_bytes n r

unfoldable pub vector16 : Bytes → Option (Bytes × Bytes)
unfolding take_bytes
vector16 (a ∷ b ∷ r) = take_bytes (a * 256 + b) r
vector16 _ = none

unfoldable pub host_name : Bytes → Sni
host_name [] = no_sni
host_name (c ∷ host) = name (c ∷ host)

-- The loop over the ServerNameList; each round reads at least three bytes.
unfoldable pub walk_names : ℕ → Bytes → Sni
unfolding vector16 host_name
walk_names fuel [] = no_sni
walk_names zero (t ∷ r) = out_of_fuel
walk_names (suc fuel) (t ∷ r) = elim (vector16 r) [
  | none ↦ no_sni
  | some (host, rest) ↦
      let others = walk_names fuel rest in if t == 0 then host_name host else others
]

unfoldable pub read_names : Bytes → Sni
unfolding walk_names
read_names ext = elim (vector16 ext) [
  | none ↦ no_sni
  | some (list, rest) ↦ walk_names (length list) list
]

-- The loop over the extensions; each round reads at least four bytes.
unfoldable pub walk_extensions : ℕ → Bytes → Sni
unfolding u16 read_names
walk_extensions fuel [] = no_sni
walk_extensions zero (b ∷ r) = out_of_fuel
walk_extensions (suc fuel) (b ∷ r) = elim (u16 (b ∷ r)) [
  | none ↦ no_sni
  | some (kind, r') ↦ elim (vector16 r') [
    | none ↦ no_sni
    | some (ext, rest) ↦
        let others = walk_extensions fuel rest in if kind == 0 then read_names ext else others
  ]
]

unfoldable pub read_extensions : Bytes → Sni
unfolding walk_extensions
read_extensions h = elim (vector16 h) [
  | none ↦ no_sni
  | some (exts, rest) ↦ walk_extensions (length exts) exts
]

-- A reading step inside the handshake, whose failure is `errNoClientHello`.
unfoldable pub or_no_hello : Option (Bytes × Bytes) → (Bytes → Sni) → Sni
or_no_hello none next = no_client_hello
or_no_hello (some (x, rest)) next = next rest

unfoldable pub read_hello : Bytes → Sni
unfolding take_bytes vector8 vector16 read_extensions
read_hello h = or_no_hello (take_bytes 3 h) λ h1. or_no_hello (take_bytes 34 h1) λ h2.
    or_no_hello (vector8 h2)
      λ h3. or_no_hello (vector16 h3) λ h4. or_no_hello (vector8 h4) read_extensions

unfoldable pub read_handshake : Bytes → Sni
unfolding read_hello
read_handshake [] = no_client_hello
read_handshake (kind ∷ h) = if kind == 1 then read_hello h else no_client_hello

abbrev pub max_client_hello : ℕ
max_client_hello = 16 * 1024

unfoldable pub read_body : ℕ → Bytes → Sni
unfolding take_bytes read_handshake
read_body len r =
    if len == 0 || ltb max_client_hello len
    then no_client_hello
    else elim (take_bytes len r) [ none ↦ need_more | some (body, rest) ↦ read_handshake body ]

unfoldable pub read_length : Bytes → Sni
unfolding u16 read_body
read_length r = elim (u16 r) [ none ↦ need_more | some (len, rest) ↦ read_body len rest ]

unfoldable pub read_version : Bytes → Sni
unfolding take_bytes read_length
read_version r = elim (take_bytes 2 r) [ none ↦ need_more | some (v, rest) ↦ read_length rest ]

-- `extractSNI`
unfoldable pub extract_sni : Bytes → Sni
unfolding read_version or_no_hello
extract_sni [] = need_more
extract_sni (kind ∷ r) = if kind == 0x16 then read_version r else no_client_hello
