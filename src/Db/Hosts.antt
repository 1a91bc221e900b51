-- ===== src/Db/Hosts.antt =====
-- `NewHost` of lib/file/db.go keeps the hosts apart: no two entries have the same name, location and
-- scheme.
use next_nps.Base.Int.{ℤ, ℤ_beq_iff, ℤ_eq}
use next_nps.Base.{
  any_value-false, ◌==◌, Bool-cases, if_both, codes, bytes_beq_iff, load, store, load-store_cases,
  ◌≡◌, refl, sym, ap, ◌∙◌, inl, inr, false, not, ◌&&◌, ◌||◌, Option, some, arith, nat_eq, bytes_eq,
}
use next_nps.File.{Host, new_flow}
use next_nps.Db.{Db, DbError, is_host_exist, default_location, add_host, new_host_entry}

pub record HostsInv (s : Db) : Type 0 where
  pub keyed : (k : ℤ) (h : Host) → load k s.hosts ≡ some h → h.id ≡ k
  pub apart :
      (j k : ℤ) (h u : Host)
      → load j s.hosts ≡ some h
      → load k s.hosts ≡ some u
      → h.host ≡ u.host
      → h.location ≡ u.location
      → h.scheme ≡ u.scheme
      → j ≡ k

is_host_exist_sound :
    (s : Db) (h v : Host) (k : ℤ)
    → is_host_exist s h ≡ false
    → load k s.hosts ≡ some v
    → v.host ≡ h.host
    → v.location ≡ h.location
    → v.scheme ≡ h.scheme
    → v.id ≡ h.id
unfolding is_host_exist
is_host_exist_sound s h v k n l a b c = ground (
  arith,
  any_value-false
      (λ (v : Host).
        not (v.id == h.id)
        && v.host == h.host
        && h.location == v.location
        && (v.scheme == codes "all" || v.scheme == h.scheme))
      k s.hosts v,
  ℤ_beq_iff v.id h.id,
  bytes_beq_iff v.host h.host,
  bytes_beq_iff h.location v.location,
  bytes_beq_iff v.scheme h.scheme,
)

store_apart :
    (s : Db) (x : Host)
    → HostsInv s
    → is_host_exist s x ≡ false
    → (j k : ℤ) (h u : Host) → load j (store x.id x s.hosts) ≡ some h
    → load k (store x.id x s.hosts) ≡ some u
    → h.host ≡ u.host
    → h.location ≡ u.location
    → h.scheme ≡ u.scheme
    → j ≡ k
store_apart s x v n j k h u p q a b c = elim (load-store_cases x.id j x h s.hosts p) [
  | inl (e, f) ↦ elim (load-store_cases x.id k x u s.hosts q) [
    | inl (e', _) ↦ sym e ∙ e'
    | inr (_, l) ↦
        sym e
        ∙ sym (
            is_host_exist_sound s x u k n l (sym a ∙ sym (ap (λ (y : Host). y.host) f))
              (sym b ∙ sym (ap (λ (y : Host). y.location) f))
              (sym c ∙ sym (ap (λ (y : Host). y.scheme) f)))
        ∙ v.keyed k u l
  ]
  | inr (_, l) ↦ elim (load-store_cases x.id k x u s.hosts q) [
    | inl (e', f) ↦
        sym (v.keyed j h l)
        ∙ is_host_exist_sound s x h j n l (a ∙ sym (ap (λ (y : Host). y.host) f))
            (b ∙ sym (ap (λ (y : Host). y.location) f)) (c ∙ sym (ap (λ (y : Host). y.scheme) f))
        ∙ e'
    | inr (_, l') ↦ v.apart j k h u l l' a b c
  ]
]

add_host-HostsInv : (s : Db) (t : Host) → HostsInv s → HostsInv (add_host s t).0
unfolding add_host is_host_exist
add_host-HostsInv s t v = elim (Bool-cases (is_host_exist s t)) [
  | inl e ↦ rw e v
  | inr e ↦ rw e (record {
    keyed = λ k h l. elim (load-store_cases t.id k (record t { flow = new_flow }) h s.hosts l) [
      | inl (a, f) ↦ sym (ap (λ (y : Host). y.id) f) ∙ a
      | inr (_, l') ↦ v.keyed k h l'
    ];
    apart = store_apart s (record t { flow = new_flow }) v e;
  })
]

-- Adding a host, refused or not, to a table in which every host stands under its own id and no two
-- have the same name, location and scheme gives such a table again.
pub new_host_entry-HostsInv : (s : Db) (t : Host) → HostsInv s → HostsInv (new_host_entry s t).0
unfolding new_host_entry
new_host_entry-HostsInv s t v = add_host-HostsInv s (default_location t) v

-- The tunnels are not changed.
pub new_host_entry_tasks : (s : Db) (t : Host) → (new_host_entry s t).0.tasks ≡ s.tasks
unfolding new_host_entry add_host
new_host_entry_tasks s t =
    if_both (λ (r : Db × Option DbError). r.0.tasks ≡ s.tasks)
      (is_host_exist s (default_location t)) _ _ refl refl
