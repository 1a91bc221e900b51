-- ===== src/Tls/Tests.antt =====
-- A hello that names its server, and one that is cut off.
use next_nps.Tls.Slices.{with_byte, with_uint16, with_slice, with_rest, and_then}
use next_nps.Tls.Extensions.{on_extension, read_server_name, names_loop, ends_in_dot}
use next_nps.Tls.Hello.{
  unmarshal, read_session, read_suites, suites_loop, read_compression, read_extensions,
  extensions_loop, new_hello, get_server_name_from_client_hello,
}
use next_nps.Tls.Given.{IsGiven}
use next_nps.Tls.Bounds.{unmarshal-IsGiven}
use next_nps.Base.{drop, replicate, Bytes, codes, ◌≡◌, refl, some, [], ◌∷◌, ◌++◌}

-- The record header, the handshake header, a random of zeros, no session, one suite, one method,
-- and the name `a.io`.
abbrev sni_hello : Bytes
sni_hello =
    (22 ∷ 3 ∷ 1 ∷ 0 ∷ 60 ∷ [])
    ++ ((1 ∷ 0 ∷ 0 ∷ 56 ∷ 3 ∷ 3 ∷ [])
        ++ (replicate 32 0
            ++ ((0 ∷ 0 ∷ 2 ∷ 0 ∷ 255 ∷ 1 ∷ 0 ∷ [])
                ++ ((0 ∷ 13 ∷ 0 ∷ 0 ∷ 0 ∷ 9 ∷ 0 ∷ 7 ∷ 0 ∷ 0 ∷ 4 ∷ []) ++ codes "a.io"))))

sni_name : get_server_name_from_client_hello (some sni_hello) ≡ some (codes "a.io", sni_hello)
unfolding get_server_name_from_client_hello unmarshal read_session read_suites suites_loop
    read_compression read_extensions extensions_loop on_extension read_server_name names_loop
    ends_in_dot with_byte with_uint16 with_slice with_rest and_then
sni_name = refl

unmarshal-IsGiven_example : IsGiven (unmarshal (drop 5 sni_hello) new_hello)
unmarshal-IsGiven_example = unmarshal-IsGiven (drop 5 sni_hello) new_hello
