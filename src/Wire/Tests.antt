-- ===== src/Wire/Tests.antt =====
-- Messages of `Wire` sent and read.
use next_nps.Base.{codes, ◌≡◌, true, some, ◌++◌, arith}
use next_nps.Wire.{
  get_short_len_content, write_len_content, get_health_info, send_health_info, get_str_by_bool,
}
use next_nps.Wire.RoundTrip.{
  get_short_len_content-write_len_content, get_health_info-send_health_info,
}

get_short_len_content-write_len_content_example :
    get_short_len_content (write_len_content (codes "0.26") ++ codes "next")
    ≡ some (codes "0.26", codes "next")
get_short_len_content-write_len_content_example =
    get_short_len_content-write_len_content (codes "0.26") (codes "next") (omega arith)

get_health_info-send_health_info_example :
    get_health_info 1500 (send_health_info (codes "h:80") (get_str_by_bool true) ++ codes "x")
    ≡ some (codes "h:80", true, codes "x")
get_health_info-send_health_info_example =
    get_health_info-send_health_info 1500 (codes "h:80") (codes "x") true (omega arith)
      (omega arith) (omega arith)
