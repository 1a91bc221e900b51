-- ===== src/Db/Tests.antt =====
-- Runs of the modules of `Db` on small tables.
use next_nps.Base.Int.{ℤ, pos, ◌≤ℤ◌, ◌<ℤ◌, ℤ_beq, ℤ_beq_iff, ℤ_eq}
use next_nps.Base.{
  length, Bytes, codes, bytes_beq, has_prefix, contains, split, load, any_value, filter_values,
  map_values, ◌≤◌, ◌≡◌, refl, sym, ap, ◌∙◌, subst, inl, true, false, none, some, [], ◌∷◌, ◌++◌,
  arith, nat_eq, bytes_eq,
}
use next_nps.File.{Client, Tunnel, Host, new_client, new_tunnel, new_host}
use next_nps.Db.{Db, new_task, verify_vkey, new_client_entry, default_location}
use next_nps.Db.Keys.{ClientsInv, new_client_entry-ClientsInv}
use next_nps.Db.Draws.{new_client_entry_draws}
use next_nps.Db.Secrets.{TasksInv, new_task-TasksInv}
use next_nps.Db.Routing.{
  Request, get_ip_by_addr, is_candidate, get_info_by_host, get_info_by_host_covers, name_matches,
  pick_longest, get_info_by_host_sound, FoundIn,
}
use next_nps.Db.{new_host_entry}
use next_nps.Db.Hosts.{HostsInv, new_host_entry-HostsInv}

abbrev office : Client
office = record (new_client (codes "k1") false false) { id = pos 1 }

abbrev newcomer : Client
newcomer = new_client [] false false

abbrev ssh : Tunnel
ssh = record new_tunnel { id = pos 1; mode = codes "secret"; password = codes "pw"; client = pos 1 }

abbrev shop : Host
shop = record new_host {
  id = pos 1;
  host = codes "*.shop.com";
  scheme = codes "all";
  location = codes "/a";
  client = pos 1;
}

abbrev db : Db
db = record {
  tasks = (pos 1, ssh) ∷ [];
  hosts = (pos 1, shop) ∷ [];
  clients = (pos 1, office) ∷ [];
  client_increase_id = pos 1;
  task_increase_id = pos 1;
  host_increase_id = pos 1;
  task_file = [];
  host_file = [];
  client_file = [];
}

load_one : {V : Type 0} (j k : ℤ) (v w : V) → load k ((j, v) ∷ []) ≡ some w → (j ≡ k) × (v ≡ w)
unfolding load
load_one j k v w h = ground (arith, ℤ_beq_iff j k)

db-ClientsInv : ClientsInv db
db-ClientsInv = record {
  keyed =
      λ k c h. let (e, f) = load_one (pos 1) k office c h in ap (λ (x : Client). x.id) (sym f) ∙ e;
  drawn = λ k c h.
      let (e, f) = load_one (pos 1) k office c h in
      subst (λ i. (pos 0 <ℤ i) × (i ≤ℤ pos 1)) e (omega arith, omega arith);
  unique =
      λ j k c d h l e. sym (load_one (pos 1) j office c h).0 ∙ (load_one (pos 1) k office d l).0;
}

db-TasksInv : TasksInv db
db-TasksInv = record {
  keyed = λ k c h. let (e, f) = load_one (pos 1) k ssh c h in ap (λ (x : Tunnel). x.id) (sym f) ∙ e;
  unique = λ j k c d h l a b e. sym (load_one (pos 1) j ssh c h).0 ∙ (load_one (pos 1) k ssh d l).0;
}

new_client_entry-ClientsInv_example :
    ClientsInv (new_client_entry db newcomer (codes "k1" ∷ codes "k2" ∷ [])).0
unfolding new_client
new_client_entry-ClientsInv_example =
    new_client_entry-ClientsInv db newcomer (codes "k1" ∷ codes "k2" ∷ [])
      (omega arith, omega arith) (inl refl) db-ClientsInv

new_client_entry_draws_example :
    let r = new_client_entry db newcomer ((codes "k1" ∷ []) ++ codes "k2" ∷ []) in
    (r.2 ≡ none) × (r.1.verify_key ≡ codes "k2") × (load r.1.id r.0.clients ≡ some r.1)
unfolding new_client verify_vkey bytes_beq ℤ_beq any_value
new_client_entry_draws_example =
    new_client_entry_draws db newcomer (codes "k1" ∷ []) (codes "k2") [] refl refl (refl, tt) refl

new_task-TasksInv_example : TasksInv (new_task db (record ssh { id = pos 2 })).0
new_task-TasksInv_example = new_task-TasksInv db (record ssh { id = pos 2 }) db-TasksInv

abbrev visit : Request
visit = record { scheme = codes "http"; request_uri = codes "/a/b" }

get_info_by_host_covers_example :
    (h : Host) × ((get_info_by_host db (codes "x.shop.com:80") visit).1 ≡ some h)
    × (length (default_location shop).location ≤ length h.location)
unfolding default_location bytes_beq load ℤ_beq has_prefix is_candidate name_matches contains
    get_ip_by_addr split
get_info_by_host_covers_example =
    get_info_by_host_covers db (codes "x.shop.com:80") visit (pos 1) shop refl refl refl

get_info_by_host_sound_example :
    FoundIn db.hosts (get_ip_by_addr (codes "x.shop.com:80")) visit shop
    × (has_prefix shop.location visit.request_uri ≡ true)
unfolding get_info_by_host default_location bytes_beq load ℤ_beq has_prefix is_candidate
    name_matches contains get_ip_by_addr split pick_longest filter_values map_values
get_info_by_host_sound_example = get_info_by_host_sound db (codes "x.shop.com:80") visit shop refl

abbrev no_number : Bytes → ℤ
no_number s = pos 0

db-HostsInv : HostsInv db
db-HostsInv = record {
  keyed = λ k c h. let (e, f) = load_one (pos 1) k shop c h in ap (λ (x : Host). x.id) (sym f) ∙ e;
  apart =
      λ j k c d h l a b e. sym (load_one (pos 1) j shop c h).0 ∙ (load_one (pos 1) k shop d l).0;
}

new_host_entry-HostsInv_example :
    HostsInv (new_host_entry db (record shop { id = pos 2; scheme = codes "http" })).0
new_host_entry-HostsInv_example =
    new_host_entry-HostsInv db (record shop { id = pos 2; scheme = codes "http" }) db-HostsInv
