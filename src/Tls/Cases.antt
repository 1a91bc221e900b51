-- ===== src/Tls/Cases.antt =====
-- The extensions of a client hello are read within their bounds.
use next_nps.Tls.Slices.{Hello, Verdict}
use next_nps.Tls.Given.{
  IsGiven, accepts, refuses, guard-IsGiven, with_byte-IsGiven, with_uint16-IsGiven,
  with_slice-IsGiven, with_rest-IsGiven,
}
use next_nps.Tls.Extensions.{
  ends_in_dot, accept_name, names_loop, read_server_name, read_next_proto_neg, read_status_request,
  uint16_loop, read_curves, read_points, read_session_ticket, read_signature_algorithms,
  read_renegotiation_info, protocols_loop, read_protocols, read_scts, on_extension,
}
use next_nps.Base.{
  ltb, nat_beq, Bool-cases, if_both, length, take, Bytes, ℕ, zero, suc, ◌+◌, ◌-◌, ◌*◌, ◌/◌, ◌%◌,
  ◌≤◌, inl, inr, true, false, not, ◌||◌, List, [], ◌∷◌, ◌++◌, arith,
}

accept_name-IsGiven : (m : Hello) (s : Bytes) → IsGiven (accept_name m s)
accept_name-IsGiven m s =
    guard-IsGiven (ends_in_dot s) (refuses (record m { server_name = s }))
      (λ e. accepts (record m { server_name = s }))

names_loop-IsGiven :
    (rounds : ℕ) (d : Bytes) (m : Hello) → length d ≤ rounds → IsGiven (names_loop rounds d m)
unfolding names_loop
names_loop-IsGiven rounds [] m h = accepts m
names_loop-IsGiven zero (x ∷ d) m h = absurd (omega arith)
names_loop-IsGiven (suc rounds) (x ∷ d) m h =
    guard-IsGiven (ltb (length (x ∷ d)) 3) (refuses m) (λ t.
      with_byte-IsGiven (x ∷ d) 0 (omega arith) (λ name_type.
        with_uint16-IsGiven (x ∷ d) 1 (ground arith) (λ n.
          with_rest-IsGiven (x ∷ d) 3 (ground arith) (λ e l.
            guard-IsGiven (ltb (length e) n) (refuses m) (λ u.
              if_both IsGiven (nat_beq name_type 0) _ _
                (with_slice-IsGiven e 0 n (omega arith) (ground arith)
                  (λ f k. accept_name-IsGiven m f))
                (with_rest-IsGiven e n (ground arith)
                  (λ f k. names_loop-IsGiven rounds f m (omega arith))))))))

read_server_name-IsGiven :
    (n : ℕ) (b : Bytes) (m : Hello) → n ≤ length b → IsGiven (read_server_name n b m)
unfolding read_server_name
read_server_name-IsGiven n b m h = with_slice-IsGiven b 0 n (omega arith) h (λ d k.
    guard-IsGiven (ltb (length d) 2) (refuses m) (λ t. with_uint16-IsGiven d 0 (ground arith) (λ l.
      with_rest-IsGiven d 2 (ground arith) (λ e g.
        guard-IsGiven (not (nat_beq (length e) l)) (refuses m)
          (λ u. names_loop-IsGiven (length e) e m (omega arith))))))

uint16_loop-IsGiven :
    (n : ℕ) (d : Bytes) (acc : List ℕ) (k : List ℕ → Verdict)
    → 2 * n ≤ length d
    → ((vs : List ℕ) → IsGiven (k vs))
    → IsGiven (uint16_loop n d acc k)
unfolding uint16_loop
uint16_loop-IsGiven zero d acc k h s = s acc
uint16_loop-IsGiven (suc n) d acc k h s = with_uint16-IsGiven d 0 (omega arith) (λ v.
    with_rest-IsGiven d 2 (omega arith)
      (λ e l. uint16_loop-IsGiven n e (acc ++ (v ∷ [])) k (omega arith) s))

read_curves-IsGiven : (n : ℕ) (b : Bytes) (m : Hello) → n ≤ length b → IsGiven (read_curves n b m)
unfolding read_curves
read_curves-IsGiven n b m h = guard-IsGiven (ltb n 2) (refuses m) (λ t.
    with_uint16-IsGiven b 0 (ground arith) (λ l.
      guard-IsGiven (nat_beq (l % 2) 1 || not (nat_beq n (l + 2))) (refuses m) (λ u.
        with_rest-IsGiven b 2 (ground arith) (λ d g.
          uint16_loop-IsGiven (l / 2) d [] _ (ground arith)
            (λ cs. accepts (record m { supported_curves = cs }))))))

read_points-IsGiven : (n : ℕ) (b : Bytes) (m : Hello) → n ≤ length b → IsGiven (read_points n b m)
unfolding read_points
read_points-IsGiven n b m h = guard-IsGiven (ltb n 1) (refuses m) (λ t.
    with_byte-IsGiven b 0 (ground arith) (λ l.
      guard-IsGiven (not (nat_beq n (l + 1))) (refuses m) (λ u.
        with_rest-IsGiven b 1 (ground arith)
          (λ d g. accepts (record m { supported_points = take l d })))))

read_signature_algorithms-IsGiven :
    (n : ℕ) (b : Bytes) (m : Hello) → n ≤ length b → IsGiven (read_signature_algorithms n b m)
unfolding read_signature_algorithms
read_signature_algorithms-IsGiven n b m h =
    guard-IsGiven (ltb n 2 || not (nat_beq (n % 2) 0)) (refuses m) (λ t.
      with_uint16-IsGiven b 0 (ground arith) (λ l.
        guard-IsGiven (not (nat_beq l (n - 2))) (refuses m) (λ u.
          with_rest-IsGiven b 2 (ground arith) (λ d g.
            uint16_loop-IsGiven (l / 2) d [] _ (ground arith)
              (λ ss. accepts (record m { supported_signature_algorithms = ss }))))))

read_renegotiation_info-IsGiven :
    (n : ℕ) (b : Bytes) (m : Hello) → n ≤ length b → IsGiven (read_renegotiation_info n b m)
unfolding read_renegotiation_info
read_renegotiation_info-IsGiven n b m h = guard-IsGiven (nat_beq n 0) (refuses m) (λ t.
    with_slice-IsGiven b 0 n (omega arith) h (λ d k. with_byte-IsGiven d 0 (ground arith) (λ l.
      with_rest-IsGiven d 1 (ground arith) (λ e g.
        guard-IsGiven (not (nat_beq l (length e))) (refuses m) (λ u.
          accepts
            (record m { secure_renegotiation = e; secure_renegotiation_supported = true }))))))

protocols_loop-IsGiven :
    (rounds : ℕ) (d : Bytes) (m : Hello) → length d ≤ rounds → IsGiven (protocols_loop rounds d m)
unfolding protocols_loop
protocols_loop-IsGiven rounds [] m h = accepts m
protocols_loop-IsGiven zero (x ∷ d) m h = absurd (omega arith)
protocols_loop-IsGiven (suc rounds) (x ∷ d) m h = with_byte-IsGiven (x ∷ d) 0 (omega arith) (λ l.
    with_rest-IsGiven (x ∷ d) 1 (omega arith) (λ e g.
      guard-IsGiven (nat_beq l 0 || ltb (length e) l) (refuses m) (λ u.
        with_slice-IsGiven e 0 l (omega arith) (ground arith) (λ p k.
          with_rest-IsGiven e l (ground arith) (λ f j.
            protocols_loop-IsGiven rounds f
              (record m { alpn_protocols = m.alpn_protocols ++ (p ∷ []) }) (omega arith))))))

read_protocols-IsGiven :
    (n : ℕ) (b : Bytes) (m : Hello) → n ≤ length b → IsGiven (read_protocols n b m)
unfolding read_protocols
read_protocols-IsGiven n b m h = guard-IsGiven (ltb n 2) (refuses m) (λ t.
    with_uint16-IsGiven b 0 (ground arith) (λ l.
      guard-IsGiven (not (nat_beq l (n - 2))) (refuses m) (λ u.
        with_slice-IsGiven b 2 n (ground arith) h
          (λ d k. protocols_loop-IsGiven (length d) d m (omega arith)))))

read_status_request-IsGiven :
    (n : ℕ) (b : Bytes) (m : Hello) → n ≤ length b → IsGiven (read_status_request n b m)
unfolding read_status_request
read_status_request-IsGiven n b m h = elim (Bool-cases (ltb 0 n)) [
  | inl e ↦ rw e (
      with_byte-IsGiven b 0 (ground arith)
        (λ v. accepts (record m { ocsp_stapling = nat_beq v 1 })))
  | inr e ↦ rw e (accepts (record m { ocsp_stapling = false }))
]

pub on_extension-IsGiven :
    (kind n : ℕ) (b : Bytes) (m : Hello) → n ≤ length b → IsGiven (on_extension kind n b m)
unfolding on_extension read_next_proto_neg read_session_ticket read_scts
on_extension-IsGiven kind n b m h =
    guard-IsGiven (nat_beq kind 0) (read_server_name-IsGiven n b m h) (λ e0.
      guard-IsGiven (nat_beq kind 13172)
        (guard-IsGiven (ltb 0 n) (refuses m) (λ t. accepts (record m { next_proto_neg = true })))
        (λ e1. guard-IsGiven (nat_beq kind 5) (read_status_request-IsGiven n b m h) (λ e2.
          guard-IsGiven (nat_beq kind 10) (read_curves-IsGiven n b m h) (λ e3.
            guard-IsGiven (nat_beq kind 11) (read_points-IsGiven n b m h) (λ e4.
              guard-IsGiven (nat_beq kind 35)
                (with_slice-IsGiven b 0 n (omega arith) h
                  (λ t l. accepts (record m { ticket_supported = true; session_ticket = t })))
                (λ e5.
                  guard-IsGiven (nat_beq kind 13) (read_signature_algorithms-IsGiven n b m h) (λ e6.
                    guard-IsGiven (nat_beq kind 65281) (read_renegotiation_info-IsGiven n b m h)
                      (λ e7. guard-IsGiven (nat_beq kind 16) (read_protocols-IsGiven n b m h) (λ e8.
                        guard-IsGiven (nat_beq kind 18)
                          (guard-IsGiven (not (nat_beq n 0)) (refuses (record m { scts = true }))
                            (λ t. accepts (record m { scts = true })))
                          (λ e9. accepts m))))))))))
