-- ===== src/Bridge/Links.antt =====
-- `SendLinkInfo` and `register` of bridge/bridge.go: how a proxied connection gets its way to a
-- client, and the check of its address. What the network answers is an argument.
use next_nps.Base.{
  if◌then◌else◌, Bool-cases, Option-cases, Bytes, split, first_piece, load, store, ℕ, ◌+◌, ◌*◌, ◌≡◌,
  refl, ◌⊎◌, inl, inr, Bool, true, false, Option, none, some, arith, nat_eq, bytes_eq,
}
use next_nps.Base.Int.{ℤ, pos, negsuc, ◌+ℤ◌, ◌<ℤ◌, ltb_ℤ, int64, ℤ_eq}
use next_nps.Bridge.{Session, Bridge}

pub record Link : Type 0 where
  pub conn_type : Bytes
  pub host : Bytes
  pub crypt : Bool
  pub compress : Bool
  pub local_proxy : Bool
  pub remote_addr : Bytes

-- `dial` is the answer of `net.Dial`, `new_conn` that of the multiplexer, and `sent` tells whether
-- the link was written.
pub record Network : Type 0 where
  pub dial : Option ℕ
  pub new_conn : ℕ → Option ℕ
  pub sent : Bool

pub data LinkError : Type 0 where
  dial_failed : LinkError
  ip_not_listed : Bytes → LinkError
  ip_expired : Bytes → LinkError
  client_connect : LinkError
  no_stream : LinkError
  refused : ℕ → LinkError
  not_connected : ℤ → LinkError

pub data LinkResult : Type 0 where
  opened : ℕ → Link → LinkResult
  failed : LinkError → LinkResult

-- The check of the address where `ip_verify` is set: `none` lets it pass. `After` is strict.
unfoldable pub check_ip : Bridge → ℤ → Bytes → Option LinkError
check_ip s now ip =
    if s.ip_verify
    then elim (load ip s.register) [
      | none ↦ some (ip_not_listed ip)
      | some until ↦ if ltb_ℤ now until then none else some (ip_expired ip)
    ]
    else none

send_over : Network → Link → Bool → Option ℕ → LinkResult
send_over net link is_file none = failed no_stream
send_over net link is_file (some target) =
    if is_file
    then opened target (record link { crypt = false; compress = false })
    else if net.sent
    then opened target link
    else failed (refused target)

open_stream : Network → Link → Bool → Option ℕ → LinkResult
unfolding send_over
open_stream net link is_file none = failed client_connect
open_stream net link is_file (some tunnel) = send_over net link is_file (net.new_conn tunnel)

unfoldable pub use_session : Bridge → Network → ℤ → Link → Bool → Bytes → Session → LinkResult
unfolding open_stream
use_session s net now link is_file ip v = elim (check_ip s now ip) [
  | some e ↦ failed e
  | none ↦ open_stream net link is_file (if is_file then v.file else v.tunnel)
]

-- `ip` is `GetIpByAddr(link.RemoteAddr)`; `is_file` is `t != nil && t.Mode == "file"`.
unfoldable pub send_link_info : Bridge → Network → ℤ → ℤ → Link → Bool → LinkResult
unfolding use_session
send_link_info s net now client_id link is_file =
    if link.local_proxy
    then elim net.dial [ none ↦ failed dial_failed | some target ↦ opened target link ]
    else elim (load client_id s.sessions) [
      | none ↦ failed (not_connected client_id)
      | some v ↦ use_session s net now link is_file (first_piece (split b':' link.remote_addr)) v
    ]

-- `time.Hour * time.Duration(hour)`, in nanoseconds.
abbrev hours : ℤ → ℤ
hours (pos n) = int64 (pos (n * 3600000000000))
hours (negsuc n) = int64 (negsuc (n * 3600000000000 + 3599999999999))

-- `none` where the number of hours cannot be read.
pub register_ip : Bridge → ℤ → Bytes → Option ℤ → Bridge
register_ip s now remote none = s
register_ip s now remote (some hour) = record s {
  register = store (first_piece (split b':' remote)) (now +ℤ hours hour) s.register;
}

check_ip-none :
    (s : Bridge) (now : ℤ) (ip : Bytes)
    → check_ip s now ip ≡ none
    → (s.ip_verify ≡ false) ⊎ ((until : ℤ) × (load ip s.register ≡ some until) × (now <ℤ until))
unfolding check_ip
check_ip-none s now ip h = elim (Bool-cases s.ip_verify) [
  | inr f ↦ inl f
  | inl t ↦ elim (Option-cases (load ip s.register)) [
    | inl e ↦ absurd (ground arith)
    | inr (until, e) ↦ inr (until, e, ground arith)
  ]
]

send_over_opened :
    (net : Network) (link link' : Link) (is_file : Bool) (o : Option ℕ) (target : ℕ)
    → send_over net link is_file o ≡ opened target link'
    → (o ≡ some target)
      × (link' ≡ (if is_file then record link { crypt = false; compress = false } else link))
unfolding send_over
send_over_opened net link link' is_file none target e = cc
send_over_opened net link link' true (some t) target e = (cc, cc)
send_over_opened net link link' false (some t) target e = (ground arith, ground arith)

open_stream_opened :
    (net : Network) (link link' : Link) (is_file : Bool) (o : Option ℕ) (target : ℕ)
    → open_stream net link is_file o ≡ opened target link'
    → ((tunnel : ℕ) × (o ≡ some tunnel) × (net.new_conn tunnel ≡ some target))
      × (link' ≡ (if is_file then record link { crypt = false; compress = false } else link))
unfolding open_stream
open_stream_opened net link link' is_file none target e = cc
open_stream_opened net link link' is_file (some t) target e =
    let (n, l) = send_over_opened net link link' is_file (net.new_conn t) target e in
    ((t, refl, n), l)

use_session_opened :
    (s : Bridge) (net : Network) (now : ℤ) (link link' : Link) (is_file : Bool) (ip : Bytes)
    (v : Session) (target : ℕ)
    → use_session s net now link is_file ip v ≡ opened target link'
    → ((tunnel : ℕ) × ((if is_file then v.file else v.tunnel) ≡ some tunnel)
        × (net.new_conn tunnel ≡ some target))
      × ((s.ip_verify ≡ false) ⊎ ((until : ℤ) × (load ip s.register ≡ some until) × (now <ℤ until)))
      × (link' ≡ (if is_file then record link { crypt = false; compress = false } else link))
unfolding use_session
use_session_opened s net now link link' is_file ip v target e =
    elim (Option-cases (check_ip s now ip)) [
      | inl n ↦
          let (t, l) =
            open_stream_opened net link link' is_file _ target (rw (n, use_session) at e) in
          (t, check_ip-none s now ip n, l)
      | inr (w, n) ↦ absurd (differ w (rw (n, use_session) at e))
    ]
  where
    differ : (w : LinkError) → failed w ≡ opened target link' → ⊥
    differ w p = cc

-- A link goes out, other than by a local dial, only to a session that is there, over its own file or
-- tunnel connection, and only if its address is not to be checked or is registered for a time to
-- come. A file link leaves with neither encryption nor compression, any other as it was given.
pub send_link_info_safe :
    (s : Bridge) (net : Network) (now client_id : ℤ) (link link' : Link) (is_file : Bool)
    (target : ℕ)
    → link.local_proxy ≡ false
    → send_link_info s net now client_id link is_file ≡ opened target link'
    → (v : Session) × (load client_id s.sessions ≡ some v)
      × ((tunnel : ℕ) × ((if is_file then v.file else v.tunnel) ≡ some tunnel)
          × (net.new_conn tunnel ≡ some target))
      × ((s.ip_verify ≡ false)
          ⊎ ((until : ℤ) × (load (first_piece (split b':' link.remote_addr)) s.register
                ≡ some until)
              × (now <ℤ until)))
      × (link' ≡ (if is_file then record link { crypt = false; compress = false } else link))
unfolding send_link_info
send_link_info_safe s net now client_id link link' is_file target h e =
    elim (Option-cases (load client_id s.sessions)) [
      | inl n ↦ absurd (differ (rw (h, n) at e))
      | inr (v, n) ↦
          let (t, c, l) =
            use_session_opened s net now link link' is_file
              (first_piece (split b':' link.remote_addr)) v target (rw (h, n) at e) in
          (v, n, t, c, l)
    ]
  where
    differ : failed (not_connected client_id) ≡ opened target link' → ⊥
    differ p = cc
