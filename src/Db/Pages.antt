-- ===== src/Db/Pages.antt =====
-- The lists of lib/file/db.go that the web pages show: `GetClientList` and `GetHost` walk over the
-- sorted keys of a table, count the entries that fit the search, and keep one page of them. The
-- orders of package sort, and the number in a search text, are parameters.
use next_nps.Base.Int.{ℤ, pos, negsuc, ◌-ℤ◌, ◌≤ℤ◌, ltb_ℤ, leb_ℤ, ℤ_eq}
use next_nps.Base.{
  if◌then◌else◌, ◌==◌, length, take, drop, Bytes, contains, Store, load, ℕ, zero, suc, ◌+◌, ◌≡◌,
  refl, sym, ap, ◌∙◌, subst, Bool, true, false, not, ◌&&◌, ◌||◌, Option, none, some, List, [], ◌∷◌,
  ◌++◌, append-nil, append_assoc, arith, nat_eq, bytes_eq,
}
use next_nps.File.{Client, Host}
use next_nps.Db.{Db}

-- What one pass over the keys carries: the counters `start` and `length`, which go down, the count,
-- and the page.
pub record Page (A : Type 0) : Type 0 where
  pub start : ℤ
  pub room : ℤ
  pub cnt : ℕ
  pub list : List A

-- An entry that fits: `if start--; start < 0 { if length--; length >= 0 { append } }`.
unfoldable pub page_step : {A : Type 0} → Page A → A → Page A
page_step p v =
    let start = p.start -ℤ pos 1 in
    if ltb_ℤ start (pos 0)
    then record {
      start = start;
      room = p.room -ℤ pos 1;
      cnt = p.cnt + 1;
      list = if leb_ℤ (pos 0) (p.room -ℤ pos 1) then p.list ++ v ∷ [] else p.list;
    }
    else record p { start = start; cnt = p.cnt + 1 }

-- The entry of a key, where it is still there and fits.
unfoldable pub page_entry : {A : Type 0} → (A → Bool) → Option A → Page A → Page A
unfolding page_step
page_entry fits none p = p
page_entry fits (some v) p = if fits v then page_step p v else p

unfoldable pub page_loop : {A : Type 0} → (A → Bool) → Store ℤ A → List ℤ → Page A → Page A
unfolding page_entry
page_loop fits m [] p = p
page_loop fits m (k ∷ ks) p = page_loop fits m ks (page_entry fits (load k m) p)

abbrev pub first_page : {A : Type 0} → ℤ → ℤ → Page A
first_page start room = record { start = start; room = room; cnt = 0; list = [] }

-- The tests of `GetClientList`, in the order of the source.
unfoldable pub client_fits : (Bytes → ℤ) → Bytes → ℤ → Client → Bool
client_fits get_int search client_id v =
    if v.no_display
    then false
    else if not (client_id == pos 0) && not (client_id == v.id)
    then false
    else if not (search == [])
        && not (v.id == get_int search || contains v.verify_key search || contains v.remark search)
    then false
    else true

-- `keys` are those of `GetMapKeys`, sorted as the caller asks.
unfoldable pub get_client_list :
    (Bytes → ℤ) → (Store ℤ Client → List ℤ) → Db → ℤ → ℤ → Bytes → ℤ → List Client × ℕ
unfolding page_loop client_fits
get_client_list get_int keys s start room search client_id =
    let p =
      page_loop (client_fits get_int search client_id) s.clients (keys s.clients)
        (first_page start room) in
    (p.list, p.cnt)

unfoldable pub host_fits : (Bytes → ℤ) → Bytes → ℤ → Host → Bool
host_fits get_int search id v =
    if not (search == [])
      && not (v.id == get_int search || contains v.host search || contains v.remark search)
    then false
    else id == pos 0 || v.client == id

unfoldable pub get_host :
    (Bytes → ℤ) → (Store ℤ Host → List ℤ) → Db → ℤ → ℤ → ℤ → Bytes → List Host × ℕ
unfolding page_loop host_fits
get_host get_int keys s start room id search =
    let p =
      page_loop (host_fits get_int search id) s.hosts (keys s.hosts) (first_page start room) in
    (p.list, p.cnt)

module _ {A : Type 0} (fits : A → Bool) (m : Store ℤ A) where
  abbrev keep : Option A → List A → List A
  keep none rest = rest
  keep (some v) rest = if fits v then v ∷ rest else rest

  -- All the entries that fit, in the order of the keys.
  abbrev pub matches : List ℤ → List A
  matches [] = []
  matches (k ∷ ks) = keep (load k m) (matches ks)

-- The loop over the entries alone.
abbrev page_steps : {A : Type 0} → Page A → List A → Page A
page_steps p [] = p
page_steps p (v ∷ vs) = page_steps (page_step p v) vs

page_entry-keep :
    {A : Type 0} (fits : A → Bool) (m : Store ℤ A) (o : Option A) (vs : List A) (p : Page A)
    → page_steps (page_entry fits o p) vs ≡ page_steps p (keep fits m o vs)
unfolding page_entry
page_entry-keep fits m none vs p = refl
page_entry-keep fits m (some v) vs p = ground arith

page_loop-matches :
    {A : Type 0} (fits : A → Bool) (m : Store ℤ A) (ks : List ℤ) (p : Page A)
    → page_loop fits m ks p ≡ page_steps p (matches fits m ks)
unfolding page_loop
page_loop-matches fits m [] p = refl
page_loop-matches fits m (k ∷ ks) p =
    page_loop-matches fits m ks (page_entry fits (load k m) p)
    ∙ page_entry-keep fits m (load k m) (matches fits m ks) p

abbrev below : ℤ → ℤ
below (pos n) = negsuc 0
below (negsuc n) = negsuc (suc n)

dec_suc : (i : ℕ) → pos (suc i) -ℤ pos 1 ≡ pos i
unfolding ◌-ℤ◌
dec_suc i = ground arith

dec_below : (a : ℤ) → a ≤ℤ pos 0 → a -ℤ pos 1 ≡ below a
unfolding ◌-ℤ◌
dec_below (pos n) h = ground arith
dec_below (negsuc n) h = ground arith

below_le : (a : ℤ) → below a ≤ℤ pos 0
below_le (pos n) = omega arith
below_le (negsuc n) = omega arith

below_lt : (a : ℤ) → ltb_ℤ (below a) (pos 0) ≡ true
below_lt (pos n) = ground arith
below_lt (negsuc n) = ground arith

below_leb : (a : ℤ) → leb_ℤ (pos 0) (below a) ≡ false
below_leb (pos n) = ground arith
below_leb (negsuc n) = ground arith

module _ {A : Type 0} where
  abbrev at : ℤ → ℤ → ℕ → List A → Page A
  at start room cnt list = record { start = start; room = room; cnt = cnt; list = list }

  -- The three states of the loop: ahead of the page, on it, and past it.
  step_skip :
      (v : A) (i : ℕ) (room : ℤ) (c : ℕ) (l : List A)
      → page_step (at (pos (suc i)) room c l) v ≡ at (pos i) room (c + 1) l
  unfolding page_step
  step_skip v i room c l = rw (dec_suc i) (ground arith)

  step_open :
      (v : A) (start : ℤ) (n c : ℕ) (l : List A)
      → start ≤ℤ pos 0
      → page_step (at start (pos (suc n)) c l) v ≡ at (below start) (pos n) (c + 1) (l ++ v ∷ [])
  unfolding page_step
  step_open v start n c l h = rw (dec_below start h, dec_suc n, below_lt start) (ground arith)

  step_past :
      (v : A) (start room : ℤ) (c : ℕ) (l : List A)
      → start ≤ℤ pos 0
      → room ≤ℤ pos 0
      → page_step (at start room c l) v ≡ at (below start) (below room) (c + 1) l
  unfolding page_step
  step_past v start room c l h k =
      rw (dec_below start h, dec_below room k, below_lt start, below_leb room) refl

  abbrev Shows : Page A → ℕ → List A → Type 0
  Shows q n l = (q.cnt ≡ n) × (q.list ≡ l)

  after :
      (p q : Page A) (v : A) (vs : List A) (n : ℕ) (l : List A)
      → page_step p v ≡ q
      → Shows (page_steps q vs) n l
      → Shows (page_steps p (v ∷ vs)) n l
  after p q v vs n l e h = subst (λ r. Shows (page_steps r vs) n l) (sym e) h

  take_nil : (n : ℕ) → take {A = A} n [] ≡ []
  take_nil zero = refl
  take_nil (suc n) = refl

  steps_past :
      (vs : List A) (start room : ℤ) (c : ℕ) (l : List A)
      → start ≤ℤ pos 0
      → room ≤ℤ pos 0
      → Shows (page_steps (at start room c l) vs) (c + length vs) l
  steps_past [] start room c l h k = (omega arith, refl)
  steps_past (v ∷ vs) start room c l h k =
      let (p, q) =
        steps_past vs (below start) (below room) (c + 1) l (below_le start) (below_le room) in
      after _ _ v vs _ _ (step_past v start room c l h k) (p ∙ omega arith, q)

  steps_open :
      (vs : List A) (start : ℤ) (n c : ℕ) (l : List A)
      → start ≤ℤ pos 0
      → Shows (page_steps (at start (pos n) c l) vs) (c + length vs) (l ++ take n vs)
  steps_open vs start zero c l h =
      let (p, q) = steps_past vs start (pos 0) c l h (omega arith) in (p, q ∙ sym (append-nil l))
  steps_open [] start (suc n) c l h = (omega arith, sym (append-nil l))
  steps_open (v ∷ vs) start (suc n) c l h =
      let (p, q) = steps_open vs (below start) n (c + 1) (l ++ v ∷ []) (below_le start) in
      after _ _ v vs _ _ (step_open v start n c l h)
        (p ∙ omega arith, q ∙ append_assoc l (v ∷ []) (take n vs))

  steps_skip :
      (vs : List A) (i n c : ℕ) (l : List A)
      → Shows (page_steps (at (pos i) (pos n) c l) vs) (c + length vs) (l ++ take n (drop i vs))
  steps_skip vs zero n c l = steps_open vs (pos 0) n c l (omega arith)
  steps_skip [] (suc i) n c l = (omega arith, sym (ap (◌++◌ l) (take_nil n) ∙ append-nil l))
  steps_skip (v ∷ vs) (suc i) n c l =
      let (p, q) = steps_skip vs i n (c + 1) l in
      after _ _ v vs _ _ (step_skip v i (pos n) c l) (p ∙ omega arith, q)

-- A page of the clients: with a start and a length that are not negative, the count is the number
-- of the clients that fit the search, and the page holds `room` of them behind the first `start`,
-- in the order of the keys.
pub get_client_list_lem :
    (get_int : Bytes → ℤ) (keys : Store ℤ Client → List ℤ) (s : Db) (start room : ℕ)
    (search : Bytes) (client_id : ℤ)
    → let all = matches (client_fits get_int search client_id) s.clients (keys s.clients) in
      let r = get_client_list get_int keys s (pos start) (pos room) search client_id in
      (r.0 ≡ take room (drop start all)) × (r.1 ≡ length all)
unfolding get_client_list
get_client_list_lem get_int keys s start room search client_id =
    let all = matches (client_fits get_int search client_id) s.clients (keys s.clients) in
    let (p, q) = steps_skip all start room 0 [] in
    rw
      (page_loop-matches (client_fits get_int search client_id) s.clients (keys s.clients)
        (first_page (pos start) (pos room)))
      (q, p ∙ omega arith)

-- A page of the hosts: with a start and a length that are not negative, the count is the number of
-- the hosts that fit the search, and the page holds `room` of them behind the first `start`, in the
-- order of the keys.
pub get_host_lem :
    (get_int : Bytes → ℤ) (keys : Store ℤ Host → List ℤ) (s : Db) (start room : ℕ) (id : ℤ)
    (search : Bytes)
    → let all = matches (host_fits get_int search id) s.hosts (keys s.hosts) in
      let r = get_host get_int keys s (pos start) (pos room) id search in
      (r.0 ≡ take room (drop start all)) × (r.1 ≡ length all)
unfolding get_host
get_host_lem get_int keys s start room id search =
    let all = matches (host_fits get_int search id) s.hosts (keys s.hosts) in
    let (p, q) = steps_skip all start room 0 [] in
    rw
      (page_loop-matches (host_fits get_int search id) s.hosts (keys s.hosts)
        (first_page (pos start) (pos room)))
      (q, p ∙ omega arith)
