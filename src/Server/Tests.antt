-- ===== src/Server/Tests.antt =====
-- A server with two tunnels, of which one runs.
use next_nps.Base.Int.{ℤ, pos, ℤ_beq_iff, ℤ_eq}
use next_nps.Base.{
  if◌then◌else◌, ◌==◌, codes, load, ◌≡◌, refl, true, false, not, ◌&&◌, ◌||◌, none, some, [], ◌∷◌,
  arith, nat_eq, bytes_eq,
}
use next_nps.File.{Tunnel, Host, new_tunnel, new_host}
use next_nps.Server.{Server, System, del_tunnel_and_host_by_client_id}
use next_nps.Server.Tasks.{Keyed}
use next_nps.Server.Owners.{del_tunnel_and_host_lem}

abbrev mine : Tunnel
mine = record new_tunnel { id = pos 1; mode = codes "tcp"; client = pos 1; status = true }

abbrev page : Host
page = record new_host { id = pos 1; client = pos 1 }

abbrev server : Server
server = record {
  db = record {
    tasks = (pos 1, mine) ∷ [];
    hosts = (pos 1, page) ∷ [];
    clients = [];
    client_increase_id = pos 1;
    task_increase_id = pos 1;
    host_increase_id = pos 1;
    task_file = [];
    host_file = [];
    client_file = [];
  };
  run_list = (pos 1, some (codes "tcp")) ∷ [];
}

abbrev system : System
system = record { port_free = λ p m. false; closes = λ v. true }

server-Keyed : Keyed server
unfolding load
server-Keyed k t h = ground (arith, ℤ_beq_iff (pos 1) k)

page_keyed : (k : ℤ) (h : Host) → load k server.db.hosts ≡ some h → h.id ≡ k
unfolding load
page_keyed k t h = ground (arith, ℤ_beq_iff (pos 1) k)

del_tunnel_and_host_lem_example :
    let s' = del_tunnel_and_host_by_client_id system server (pos 1) false in
    ((k : ℤ) (t : Tunnel)
      → load k server.db.tasks ≡ some t
      → load k s'.db.tasks
        ≡ (if t.client == pos 1 && (not false || t.no_store) then none else some t))
    × ((k : ℤ) (h : Host)
        → load k server.db.hosts ≡ some h
        → load k s'.db.hosts
          ≡ (if h.client == pos 1 && (not false || h.no_store) then none else some h))
unfolding load
del_tunnel_and_host_lem_example =
    del_tunnel_and_host_lem system server (pos 1) false (refl, tt) (refl, tt) server-Keyed
      page_keyed (λ b. refl)
