-- ===== src/Tls/Bounds.antt =====
-- `Unmarshal` of lib/crypt/clientHello.go reads within its bounds, whatever it is given.
use next_nps.Tls.Slices.{Hello, Verdict, with_rest}
use next_nps.Tls.Given.{
  IsGiven, accepts, refuses, guard-IsGiven, and_then-IsGiven, with_byte-IsGiven,
  with_uint16-IsGiven, with_slice-IsGiven, with_rest-IsGiven,
}
use next_nps.Tls.Cases.{on_extension-IsGiven}
use next_nps.Tls.Hello.{
  extensions_loop, read_extensions, clear_extensions, read_compression, note_suite, suites_loop,
  read_suites, read_session, unmarshal,
}
use next_nps.Base.{
  ltb, nat_beq, length, Bytes, ℕ, zero, suc, ◌+◌, ◌*◌, ◌/◌, ◌%◌, ◌≤◌, not, ◌||◌, [], ◌∷◌, arith,
}

extensions_loop-IsGiven :
    (rounds : ℕ) (d : Bytes) (m : Hello) → length d ≤ rounds → IsGiven (extensions_loop rounds d m)
unfolding extensions_loop
extensions_loop-IsGiven rounds [] m h = accepts m
extensions_loop-IsGiven zero (x ∷ d) m h = absurd (omega arith)
extensions_loop-IsGiven (suc rounds) (x ∷ d) m h =
    guard-IsGiven (ltb (length (x ∷ d)) 4) (refuses m) (λ t.
      with_uint16-IsGiven (x ∷ d) 0 (ground arith) (λ kind.
        with_uint16-IsGiven (x ∷ d) 2 (ground arith) (λ n.
          with_rest-IsGiven (x ∷ d) 4 (ground arith) (λ b l.
            guard-IsGiven (ltb (length b) n) (refuses m) (λ u.
              and_then-IsGiven (on_extension-IsGiven kind n b m (ground arith)) (λ m'.
                with_rest-IsGiven b n (ground arith)
                  (λ rest k. extensions_loop-IsGiven rounds rest m' (omega arith))))))))

read_extensions-IsGiven : (d : Bytes) (m : Hello) → IsGiven (read_extensions d m)
unfolding read_extensions
read_extensions-IsGiven d m = guard-IsGiven (nat_beq (length d) 0) (accepts m) (λ s.
    guard-IsGiven (ltb (length d) 2) (refuses m) (λ t. with_uint16-IsGiven d 0 (ground arith) (λ n.
      with_rest-IsGiven d 2 (ground arith) (λ e l.
        guard-IsGiven (not (nat_beq n (length e))) (refuses m)
          (λ u. extensions_loop-IsGiven (length e) e m (omega arith))))))

read_compression-IsGiven : (d : Bytes) (m : Hello) → IsGiven (read_compression d m)
unfolding read_compression
read_compression-IsGiven d m = guard-IsGiven (ltb (length d) 1) (refuses m) (λ t.
    with_byte-IsGiven d 0 (ground arith) (λ n.
      guard-IsGiven (ltb (length d) (1 + n)) (refuses m) (λ u.
        with_slice-IsGiven d 1 (1 + n) (omega arith) (ground arith) (λ methods k.
          with_rest-IsGiven d (1 + n) (ground arith) (λ rest l.
            read_extensions-IsGiven rest
              (clear_extensions (record m { compression_methods = methods })))))))

suites_loop-IsGiven :
    (d : Bytes) (n i : ℕ) (m : Hello) (k : Hello → Verdict)
    → 2 + 2 * i + 2 * n ≤ length d
    → ((m' : Hello) → IsGiven (k m'))
    → IsGiven (suites_loop d n i m k)
unfolding suites_loop
suites_loop-IsGiven d zero i m k h s = s m
suites_loop-IsGiven d (suc n) i m k h s =
    with_uint16-IsGiven d (2 + 2 * i) (omega arith)
      (λ suite. suites_loop-IsGiven d n (suc i) (note_suite suite m) k (omega arith) s)

read_suites-IsGiven : (d : Bytes) (m : Hello) → IsGiven (read_suites d m)
unfolding read_suites
read_suites-IsGiven d m = guard-IsGiven (ltb (length d) 2) (refuses m) (λ t.
    with_uint16-IsGiven d 0 (ground arith) (λ n.
      guard-IsGiven (nat_beq (n % 2) 1 || ltb (length d) (2 + n)) (refuses m) (λ u.
        suites_loop-IsGiven d (n / 2) 0 (record m { cipher_suites = [] })
          (λ m'. with_rest d (2 + n) (λ rest. read_compression rest m')) (ground arith)
          (λ m'.
            with_rest-IsGiven d (2 + n) (ground arith)
              (λ rest l. read_compression-IsGiven rest m')))))

read_session-IsGiven : (n : ℕ) (d : Bytes) (m : Hello) → IsGiven (read_session n d m)
unfolding read_session
read_session-IsGiven n d m = guard-IsGiven (ltb 32 n || ltb (length d) (39 + n)) (refuses m) (λ u.
    with_slice-IsGiven d 39 (39 + n) (omega arith) (ground arith) (λ id k.
      with_rest-IsGiven d (39 + n) (ground arith)
        (λ rest l. read_suites-IsGiven rest (record m { session_id = id }))))

-- Whatever the bytes, `Unmarshal` accepts or refuses them: no index and no slice is out of range,
-- and every loop ends.
pub unmarshal-IsGiven : (d : Bytes) (m : Hello) → IsGiven (unmarshal d m)
unfolding unmarshal
unmarshal-IsGiven d m = guard-IsGiven (ltb (length d) 42) (refuses m) (λ t.
    with_uint16-IsGiven d 4 (ground arith) (λ vers.
      with_slice-IsGiven d 6 38 (omega arith) (ground arith) (λ random k.
        with_byte-IsGiven d 38 (ground arith)
          (λ n. read_session-IsGiven n d (record m { raw = d; vers = vers; random = random })))))
