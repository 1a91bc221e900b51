-- ===== src/Persist/Tests.antt =====
-- A file of tunnels, with a code that passes on the remark of a tunnel.
use next_nps.File.{Tunnel, new_tunnel, new_target}
use next_nps.Persist.{
  Codec, saved_tunnel, store_sync_map, load_records, load_records-store_sync_map,
}
use next_nps.Base.{
  Bytes, codes, Store, filter_values, ◌≡◌, refl, Bool, true, Option, none, some, [], ◌∷◌, arith,
}
use next_nps.Base.Int.{ℤ, pos, ℤ_eq}

abbrev with_remark : Bytes → Option Tunnel
with_remark [] = none
with_remark (c ∷ s) = some (record new_tunnel { id = pos 1; remark = c ∷ s })

abbrev remarks : Codec Tunnel
remarks = record { marshal = λ (t : Tunnel). some t.remark; unmarshal = with_remark }

-- A tunnel that has served its fourth target, and one that is not to be stored.
abbrev tunnels : Store ℤ Tunnel
tunnels =
    (
      pos 1,
      record new_tunnel {
        id = pos 1;
        remark = codes "web";
        target = record new_target { now_index = pos 3 };
      },
    )
    ∷ (pos 2, record new_tunnel { id = pos 2; remark = codes "tmp"; no_store = true })
    ∷ []

abbrev is_temporary : Tunnel → Bool
is_temporary t = t.no_store

load_records-store_sync_map_example :
    load_records remarks (store_sync_map remarks is_temporary tunnels)
    ≡ record new_tunnel { id = pos 1; remark = codes "web" } ∷ []
unfolding filter_values
load_records-store_sync_map_example =
    load_records-store_sync_map remarks saved_tunnel is_temporary tunnels refl
      ((codes "web", refl, refl, omega arith), tt)
