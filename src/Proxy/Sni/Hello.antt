-- ===== src/Proxy/Sni/Hello.antt =====
-- A well-formed ClientHello and the name that `extractSNI` finds in it. The encoder below is RFC
-- 8446's and RFC 6066's layout of a ClientHello in one record.
use boks.Prelude.{
  ℕ, zero, suc, ◌+◌, ◌*◌, ◌/◌, ◌%◌, ◌≤◌, ◌<◌, ◌≡◌, refl, sym, ap, ◌∙◌, false, ◌||◌, Option, some,
  List, [], ◌∷◌, ◌++◌, append-nil, append_assoc, arith, ltb, ◌==◌, length, All, length-append,
}
use boks.Proxy.Sni.{
  Bytes, Sni, name, take_bytes, vector8, vector16, host_name, walk_names, read_names,
  walk_extensions, read_extensions, or_no_hello, read_handshake, max_client_hello, read_body,
  read_length, extract_sni,
}

unfoldable pub vec8 : Bytes → Bytes
vec8 b = length b ∷ b

unfoldable pub vec16 : Bytes → Bytes
vec16 b = (length b / 256) ∷ (length b % 256) ∷ b

-- an extension: its type, in two bytes, and its data
pub record Extension : Type 0 where
  pub high : ℕ
  pub low : ℕ
  pub body : Bytes

abbrev pub extension_bytes : Extension → Bytes
extension_bytes e = e.high ∷ e.low ∷ vec16 e.body

abbrev pub extensions_bytes : List Extension → Bytes
extensions_bytes [] = []
extensions_bytes (e ∷ es) = extension_bytes e ++ extensions_bytes es

-- the extension server_name with one host_name
abbrev pub server_name : Bytes → Bytes
server_name host = 0 ∷ 0 ∷ vec16 (vec16 (0 ∷ vec16 host))

abbrev pub IsOther : Extension → Type 0
IsOther e = (0 < e.high * 256 + e.low) × (length e.body < 65536)

-- `start` is the handshake length (3 bytes), `random` the version (2) and the random value (32).
pub record Hello : Type 0 where
  pub start : Bytes
  pub random : Bytes
  pub session : Bytes
  pub ciphers : Bytes
  pub compression : Bytes
  pub before : List Extension
  pub host : Bytes
  pub after : Bytes

abbrev pub all_extensions : Hello → Bytes
all_extensions h = extensions_bytes h.before ++ (server_name h.host ++ h.after)

unfoldable pub hello_bytes : Hello → Bytes
hello_bytes h =
    1
    ∷ (h.start
        ++ (h.random
            ++ (vec8 h.session
                ++ (vec16 h.ciphers ++ (vec8 h.compression ++ vec16 (all_extensions h))))))

-- one TLS record of type handshake
unfoldable pub record_bytes : ℕ → ℕ → Bytes → Bytes
record_bytes major minor body = 0x16 ∷ major ∷ minor ∷ vec16 body

pub record IsHello (h : Hello) : Type 0 where
  pub start_size : length h.start ≡ 3
  pub random_size : length h.random ≡ 34
  pub ciphers_size : length h.ciphers < 65536
  pub others : All IsOther h.before
  pub host_some : 0 < length h.host
  pub host_size : length h.host < 65000
  pub extensions_size : length (all_extensions h) < 65536
  pub record_size : length (hello_bytes h) ≤ max_client_hello

take_bytes_exact : (a b : Bytes) → take_bytes (length a) (a ++ b) ≡ some (a, b)
unfolding take_bytes
take_bytes_exact [] b = refl
take_bytes_exact (x ∷ a) b = rw (take_bytes_exact a b)

vector8_exact : (a b : Bytes) → vector8 (vec8 a ++ b) ≡ some (a, b)
unfolding vector8 vec8
vector8_exact a b = take_bytes_exact a b

vector16_exact : (a b : Bytes) → vector16 (vec16 a ++ b) ≡ some (a, b)
unfolding vector16 vec16
vector16_exact a b =
    let n : length a / 256 * 256 + length a % 256 ≡ length a = omega arith in
    rw n (take_bytes_exact a b)

vector16_whole : (a : Bytes) → vector16 (vec16 a) ≡ some (a, [])
vector16_whole a = rw (sym (append-nil (vec16 a))) (vector16_exact a [])

length-vec16 : (a : Bytes) → length (vec16 a) ≡ length a + 2
unfolding vec16
length-vec16 a = omega arith

walk_names_exact :
    (fuel : ℕ) (host rest : Bytes)
    → 0 < length host
    → walk_names (suc fuel) (0 ∷ (vec16 host ++ rest)) ≡ name host
unfolding walk_names host_name
walk_names_exact fuel [] rest h = absurd (omega arith)
walk_names_exact fuel (c ∷ host) rest h = rw (vector16_exact (c ∷ host) rest, walk_names)

read_names_exact :
    (host : Bytes) → 0 < length host → read_names (vec16 (0 ∷ vec16 host)) ≡ name host
unfolding read_names
read_names_exact host h =
    let whole = vector16_whole (0 ∷ vec16 host) in
    let found = walk_names_exact (length (vec16 host)) host [] h in
    rw (whole, read_names) (rw (append-nil (vec16 host)) at found)

-- Extensions of other types are passed over, and the first server_name decides.
walk_extensions_exact :
    (fuel : ℕ) (before : List Extension) (host after : Bytes)
    → All IsOther before
    → 0 < length host
    → length (extensions_bytes before ++ (server_name host ++ after)) ≤ fuel
    → walk_extensions fuel (extensions_bytes before ++ (server_name host ++ after)) ≡ name host
unfolding walk_extensions
walk_extensions_exact zero [] host after o h k = absurd (omega arith)
walk_extensions_exact (suc fuel) [] host after o h k =
    rw (vector16_exact (vec16 (0 ∷ vec16 host)) after, walk_extensions) (read_names_exact host h)
walk_extensions_exact zero (e ∷ before) host after o h k = absurd (omega arith)
walk_extensions_exact (suc fuel) (e ∷ before) host after o h k =
    let tail = server_name host ++ after in
    let rest = extensions_bytes before ++ tail in
    let regroup = append_assoc (vec16 e.body) (extensions_bytes before) tail in
    let size = length-append (vec16 e.body) rest in
    let other : (e.high * 256 + e.low == 0) ≡ false = ground (arith, o.0.0) in
    rw (regroup, vector16_exact e.body rest, other, walk_extensions)
      (walk_extensions_exact fuel before host after o.1 h
        (omega (arith, size, ap length regroup, length-vec16 e.body)))

read_extensions_exact :
    (h : Hello) → IsHello h → read_extensions (vec16 (all_extensions h)) ≡ name h.host
unfolding read_extensions
read_extensions_exact h v =
    rw (vector16_whole (all_extensions h), read_extensions)
      (walk_extensions_exact (length (all_extensions h)) h.before h.host h.after v.others
        v.host_some (omega arith))

or_no_hello-some :
    (o : Option (Bytes × Bytes)) (next : Bytes → Sni) {front rest : Bytes}
    → o ≡ some (front, rest)
    → or_no_hello o next ≡ next rest
unfolding or_no_hello
or_no_hello-some o next e = rw (e, or_no_hello)

take_bytes_sized : (n : ℕ) (a b : Bytes) → length a ≡ n → take_bytes n (a ++ b) ≡ some (a, b)
take_bytes_sized n a b e = rw (← e) (take_bytes_exact a b)

read_handshake_exact : (h : Hello) → IsHello h → read_handshake (hello_bytes h) ≡ name h.host
unfolding read_handshake hello_bytes
read_handshake_exact h v =
    or_no_hello-some _ _ (take_bytes_sized 3 h.start _ v.start_size)
    ∙ or_no_hello-some _ _ (take_bytes_sized 34 h.random _ v.random_size)
    ∙ or_no_hello-some _ _ (vector8_exact h.session _)
    ∙ or_no_hello-some _ _ (vector16_exact h.ciphers _)
    ∙ or_no_hello-some _ read_extensions (vector8_exact h.compression _)
    ∙ read_extensions_exact h v

read_body_exact :
    (body more : Bytes)
    → 0 < length body
    → length body ≤ max_client_hello
    → read_body (length body) (body ++ more) ≡ read_handshake body
unfolding read_body
read_body_exact body more some_ size =
    let fits : (length body == 0 || ltb max_client_hello (length body)) ≡ false = ground arith in
    rw (fits, take_bytes_exact body more, read_body)

read_length_exact :
    (body more : Bytes) → read_length (vec16 body ++ more) ≡ read_body (length body) (body ++ more)
unfolding read_length vec16
read_length_exact body more =
    let n : length body / 256 * 256 + length body % 256 ≡ length body = omega arith in rw n

length-hello_bytes : (h : Hello) → 0 < length (hello_bytes h)
unfolding hello_bytes
length-hello_bytes h = omega arith

-- A record of a well-formed ClientHello gives its host name, whatever follows the record.
pub extract_sni-record_bytes :
    (h : Hello) (major minor : ℕ) (more : Bytes)
    → IsHello h
    → extract_sni (record_bytes major minor (hello_bytes h) ++ more) ≡ name h.host
unfolding extract_sni record_bytes
extract_sni-record_bytes h major minor more v =
    read_length_exact (hello_bytes h) more
    ∙ read_body_exact (hello_bytes h) more (length-hello_bytes h) v.record_size
    ∙ read_handshake_exact h v
