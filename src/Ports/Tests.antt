-- ===== src/Ports/Tests.antt =====
-- A list of ports.
use next_nps.Base.Int.{pos}
use next_nps.Base.{codes, split, digits_value, ◌≡◌, refl, true, [], ◌∷◌, arith}
use next_nps.Ports.{get_ports, in_int_arr, atoi, get_ports_range}

get_ports_range_example : in_int_arr (get_ports (codes "80,1000-1010")) (pos 1005) ≡ true
unfolding split atoi digits_value
get_ports_range_example =
    get_ports_range (codes "80,1000-1010") (codes "1000") (codes "1010") 1000 1010 1005
      (codes "80" ∷ []) [] (codes "1000-1010") refl refl refl refl (omega arith) (omega arith)
      (omega arith) (omega arith)
