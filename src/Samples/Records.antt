-- ===== src/Samples/Records.antt =====
-- The log's buffer and the reader of TLS handshakes on small inputs.
use boks.Prelude.{ℕ, ◌+◌, ◌≡◌, refl, ◌≢◌, [], ◌∷◌, ◌++◌, arith, replicate}
use boks.Policy.Log.{new_ring, last_n, recent}
use boks.Policy.Log.Recent.{put_all, recent-put_all}
use boks.Proxy.Sni.{Bytes, name, need_more, max_client_hello, extract_sni}
use boks.Proxy.Sni.Reading.{AnswersWithin, extract_sni-AnswersWithin}
use boks.Proxy.Sni.Hello.{
  vec8, vec16, Hello, hello_bytes, record_bytes, IsHello, extract_sni-record_bytes,
}

-- Five entries in a buffer of three.
recent-put_all_example :
    recent {A = ℕ} (put_all (1 ∷ 2 ∷ 3 ∷ 4 ∷ 5 ∷ []) (new_ring 0 3)) 2 ≡ 4 ∷ 5 ∷ []
unfolding last_n
recent-put_all_example = recent-put_all 0 3 2 (1 ∷ 2 ∷ 3 ∷ 4 ∷ 5 ∷ []) (omega arith)

-- Bytes of plain HTTP.
abbrev http_start : Bytes
http_start = b'G' ∷ b'E' ∷ b'T' ∷ []

not_tls : extract_sni http_start ≢ need_more
unfolding extract_sni
not_tls h = cc

extract_sni-AnswersWithin_example :
    AnswersWithin (max_client_hello + 5) (0x16 ∷ 3 ∷ []) (extract_sni (0x16 ∷ 3 ∷ []))
extract_sni-AnswersWithin_example = extract_sni-AnswersWithin (0x16 ∷ 3 ∷ [])

abbrev random_bytes : Bytes
random_bytes = replicate 34 7

abbrev small_hello : Hello
small_hello = record {
  start = 0 ∷ 0 ∷ 90 ∷ [];
  random = random_bytes;
  session = [];
  ciphers = 19 ∷ 1 ∷ [];
  compression = 0 ∷ [];
  before = record { high = 0; low = 23; body = [] } ∷ [];
  host = b'g' ∷ b'o' ∷ b'.' ∷ b'd' ∷ b'e' ∷ b'v' ∷ [];
  after = [];
}

small_hello-IsHello : IsHello small_hello
unfolding hello_bytes vec8 vec16
small_hello-IsHello = record {
  start_size = refl;
  random_size = refl;
  ciphers_size = omega arith;
  others = ((omega arith, omega arith), tt);
  host_some = omega arith;
  host_size = omega arith;
  extensions_size = omega arith;
  record_size = omega arith;
}

extract_sni-record_bytes_example :
    extract_sni (record_bytes 3 1 (hello_bytes small_hello) ++ 23 ∷ []) ≡ name small_hello.host
extract_sni-record_bytes_example =
    extract_sni-record_bytes small_hello 3 1 (23 ∷ []) small_hello-IsHello
