-- ===== src/Config/NewConfig.antt =====
-- `NewConfig` of lib/config/config.go: the sections in the order of their titles.
mod Order
mod Tests
use next_nps.File.{Host, Tunnel}
use next_nps.Config.Sections.{
  CommonConfig, LocalServer, Health, FileText, deal_common, deal_host, deal_health, deal_tunnel,
  del_local_service,
}
use next_nps.Config.Titles.{get_all_title, get_title_content, section_text}
use next_nps.Base.{
  if◌then◌else◌, ◌==◌, Bytes, codes, has_prefix, contains, Bool, true, false, not, ◌&&◌, Option,
  none, some, List, [], ◌∷◌, ◌++◌, nat_eq, bytes_eq,
}

pub record Config : Type 0 where
  pub content : Bytes
  pub title : List Bytes
  pub common_config : Option CommonConfig
  pub hosts : List Host
  pub tasks : List Tunnel
  pub healths : List Health
  pub local_server : List LocalServer

-- A configuration, an error with what was read before it, or a panic.
pub data Loaded : Type 0 where
  loaded : Config → Loaded
  failed : Config → Loaded
  failed_nil : Loaded
  panic : Loaded

abbrev pub begin_config : Bytes → List Bytes → Config
begin_config content title = record {
  content = content;
  title = title;
  common_config = none;
  hosts = [];
  tasks = [];
  healths = [];
  local_server = [];
}

module _ (windows : Bool) (files : Bytes → FileText) where
  add_local : Bytes → Bytes → Config → Config
  add_local kind now c = record c {
    local_server = c.local_server ++ (record (del_local_service windows now) { kind = kind } ∷ []);
  }

  append_task : Bytes → Config → Option Tunnel → Option Config
  append_task remark c none = none
  append_task remark c (some t) =
      some (record c { tasks = c.tasks ++ (record t { remark = remark } ∷ []) })

  -- One title and its text; `none` is a panic.
  pub one_section : Bytes → Bytes → Config → Option Config
  unfolding get_title_content has_prefix contains
  one_section title now c =
      let name = get_title_content title in
      if has_prefix (codes "secret") name && not (contains now (codes "mode"))
      then some (add_local (codes "secret") now c)
      else if has_prefix (codes "p2p") name && not (contains now (codes "mode"))
      then some (add_local (codes "p2p") now c)
      else if has_prefix (codes "health") name
      then some (record c { healths = c.healths ++ (deal_health windows now ∷ []) })
      else if title == codes "[common]"
      then some (record c { common_config = some (deal_common windows now) })
      else if contains now (codes "host")
      then some
          (record c { hosts = c.hosts ++ (record (deal_host windows now) { remark = name } ∷ []) })
      else append_task name c (deal_tunnel windows files now)

  with_text : Bytes → Option Bytes → Option Config → Option Config
  with_text t (some now) (some c) = one_section t now c
  with_text t _ _ = none

  -- The loop over the titles.
  pub sections : Bytes → List Bytes → Option Config → Option Config
  unfolding section_text with_text
  sections content [] c = c
  sections content (t ∷ ts) c = sections content ts (with_text t (section_text content t ts) c)

  finish : Option Config → Loaded
  finish none = panic
  finish (some c) = loaded c

  with_titles : Bytes → List Bytes × Bool → Loaded
  with_titles content (ts, true) = failed (begin_config content ts)
  with_titles content (ts, false) = finish (sections content ts (some (begin_config content ts)))

  -- From the file's bytes: those that cannot be read are an error, as are those that are no template
  -- of package text/template; `parse_str` is its expansion with the environment.
  pub load_config : (Bytes → Option Bytes) → Option Bytes → Loaded
  load_config parse_str none = failed (begin_config [] [])
  load_config parse_str (some b) = elim (parse_str b) [
    | none ↦ failed_nil
    | some content ↦ with_titles content (get_all_title content)
  ]
