-- ===== src/Proxy/Connect/Chunks.antt =====
-- `readClientHello` and how the bytes are cut into reads.
use boks.Prelude.{
  ◌<◌, ◌≡◌, refl, sym, ◌∙◌, ◌≢◌, inl, inr, false, Option, none, some, List, [], ◌∷◌, ◌++◌,
  append-nil, append_assoc, arith, leb, Bool-cases, length, length-append,
}
use boks.Proxy.Sni.{
  Bytes, Sni, name, need_more, no_client_hello, no_sni, out_of_fuel, max_client_hello, extract_sni,
}
use boks.Proxy.Sni.Reading.{extract_sni-append}
use boks.Proxy.Connect.{quiet, read_client_hello}

abbrev pub joined : List Bytes → Bytes
joined [] = []
joined (c ∷ cs) = c ++ joined cs

-- The name in an answer, empty where there is none.
unfoldable pub name_in : Sni → Bytes
name_in (name host) = host
name_in _ = []

-- The name in what was read.
unfoldable pub found_name : Option (Bytes × Bytes) → Option Bytes
found_name none = none
found_name (some (head, host)) = some host

final :
    (head c rest : Bytes) (s : Sni)
    → extract_sni (head ++ c) ≡ s
    → s ≢ need_more
    → name_in (extract_sni (head ++ (c ++ rest))) ≡ name_in s
final head c rest s e h =
    let same = extract_sni-append (head ++ c) rest (λ k. h (sym e ∙ k)) in
    rw (← append_assoc head c rest, same, e) refl

-- One read, after which the rest gives what the whole gives.
read_one :
    (head c rest : Bytes) (cs : List Bytes) (s : Sni)
    → extract_sni (head ++ c) ≡ s
    → leb max_client_hello (length head) ≡ false
    → (extract_sni (head ++ c) ≡ need_more
        → found_name (read_client_hello cs quiet (head ++ c))
          ≡ some (name_in (extract_sni ((head ++ c) ++ rest))))
    → found_name (read_client_hello (c ∷ cs) quiet head)
      ≡ some (name_in (extract_sni (head ++ (c ++ rest))))
unfolding read_client_hello name_in found_name
read_one head c rest cs need_more e k go =
    rw (read_client_hello, k, e, go e, append_assoc head c rest) refl
read_one head c rest cs (name host) e k go =
    rw (read_client_hello, k, e, final head c rest (name host) e (λ q. cc)) refl
read_one head c rest cs no_client_hello e k go =
    rw (read_client_hello, k, e, final head c rest no_client_hello e (λ q. cc)) refl
read_one head c rest cs no_sni e k go =
    rw (read_client_hello, k, e, final head c rest no_sni e (λ q. cc)) refl
read_one head c rest cs out_of_fuel e k go =
    rw (read_client_hello, k, e, final head c rest out_of_fuel e (λ q. cc)) refl

read-joined :
    (cs : List Bytes) (head : Bytes)
    → extract_sni head ≡ need_more
    → length (head ++ joined cs) < max_client_hello
    → found_name (read_client_hello cs quiet head)
      ≡ some (name_in (extract_sni (head ++ joined cs)))
unfolding read_client_hello name_in found_name
read-joined [] head e h = elim (Bool-cases (leb max_client_hello (length head))) [
  | inl k ↦ rw (k, append-nil head, e) refl
  | inr k ↦ rw (k, append-nil head, e) refl
]
read-joined (c ∷ cs) head e h =
    let size = length-append head (c ++ joined cs) in
    let more : leb max_client_hello (length head) ≡ false = ground (arith, size) in
    read_one head c (joined cs) cs (extract_sni (head ++ c)) refl more
      (λ k. read-joined cs (head ++ c) k (rw (append_assoc head c (joined cs)) h))

-- While fewer than 16384 bytes come before the client falls silent, `readClientHello` finds the
-- server name that `extractSNI` finds in all of them at once, however they are cut into reads, and
-- none where that finds none.
pub read_client_hello-joined :
    (cs : List Bytes)
    → length (joined cs) < max_client_hello
    → found_name (read_client_hello cs quiet []) ≡ some (name_in (extract_sni (joined cs)))
unfolding extract_sni
read_client_hello-joined cs h = read-joined cs [] refl h
