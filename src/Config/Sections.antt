-- ===== src/Config/Sections.antt =====
-- src/config.c, `config_load`: the loop over the lines, and the shards and rules that it collects.
use sharegres.Base.{
  false, List, [], ◌∷◌, Option, none, some, length, take, leb, ◌==◌, if◌then◌else◌,
}
use sharegres.Base.Bytes.{Bytes, codes, equal}
use sharegres.Config.Text.{trim, cut_at, c_prefix, atoi, strtoull}
use sharegres.Config.{
  Settings, ShardEntry, TmpTableRule, LogLevel, default_settings, max_shards, max_tables,
}

-- The local variables of the loop.
pub record Parsed : Type 0 where
  pub settings : Settings
  pub shards : List ShardEntry
  pub rules : List TmpTableRule
  pub section : Bytes
  pub section_arg : Bytes

abbrev pub nothing_parsed : Parsed
nothing_parsed = record {
  settings = default_settings;
  shards = [];
  rules = [];
  section = [];
  section_arg = [];
}

-- `[section]` or `[section:argument]`, each cut to the size of its buffer.
abbrev pub set_section : Option (Bytes × Bytes) → Bytes → Parsed → Parsed
set_section (some (section, arg)) header st = record st {
  section = take 127 section;
  section_arg = take 127 arg;
}
set_section none header st = record st { section = take 127 header; section_arg = [] }

abbrev pub read_header : Option (Bytes × Bytes) → Parsed → Parsed
read_header none st = st
read_header (some (header, _)) st = set_section (cut_at b':' header) header st

abbrev pub level_of : Bytes → LogLevel → LogLevel
level_of val level =
    if equal val (codes "debug")
    then LogLevel.debug
    else if equal val (codes "info")
    then LogLevel.info
    else if equal val (codes "warn")
    then LogLevel.warn
    else if equal val (codes "error")
    then LogLevel.error
    else level

abbrev pub set_global : Bytes → Bytes → Settings → Settings
set_global key val s =
    if equal key (codes "listen_addr")
    then record s { listen_addr = val }
    else if equal key (codes "listen_port")
    then record s { listen_port = atoi val }
    else if equal key (codes "max_clients")
    then record s { max_clients = atoi val }
    else if equal key (codes "log_level")
    then record s { log_level = level_of val s.log_level }
    else s

abbrev pub set_auth : Bytes → Bytes → Settings → Settings
set_auth key val s =
    if equal key (codes "method")
    then (if equal val (codes "trust") then record s { auth_method = 0 } else s)
    else s

abbrev pub set_pool : Bytes → Bytes → Settings → Settings
set_pool key val s =
    if equal key (codes "default_pool_size")
    then record s { default_pool_size = atoi val }
    else if equal key (codes "max_pool_size")
    then record s { max_pool_size = atoi val }
    else if equal key (codes "idle_timeout")
    then record s { idle_timeout = atoi val }
    else s

abbrev pub set_backend : Bytes → Bytes → Settings → Settings
set_backend key val s =
    if equal key (codes "conninfo") then record s { backend_conninfo = val } else s

abbrev pub set_shard : Bytes → Bytes → ShardEntry → ShardEntry
set_shard key val s =
    if equal key (codes "conninfo")
    then record s { conninfo = some val }
    else if equal key (codes "key_range_start")
    then record s { key_range_start = strtoull val }
    else if equal key (codes "key_range_end")
    then record s { key_range_end = strtoull val }
    else s

abbrev pub new_shard : Bytes → ShardEntry
new_shard name = record { name = name; conninfo = none; key_range_start = 0; key_range_end = 0 }

-- The entry of the name, found or created, and changed.
unfoldable pub update_named {ℓ} : {A : Type ℓ} → (A → Bytes) → A → (A → A) → Bytes → List A → List A
unfolding equal
update_named name_of new f name [] = f new ∷ []
update_named name_of new f name (x ∷ xs) =
    let rest = update_named name_of new f name xs in
    if equal (name_of x) name then f x ∷ xs else x ∷ rest

unfoldable pub update_shard : (ShardEntry → ShardEntry) → Bytes → List ShardEntry → List ShardEntry
unfolding update_named
update_shard f name shards = update_named (λ s. s.name) (new_shard name) f name shards

abbrev pub set_rule : Bytes → Bytes → TmpTableRule → TmpTableRule
set_rule key val r =
    if equal key (codes "shard_column")
    then record r { shard_column = take 127 val }
    else if equal key (codes "method")
    then record r { method = take 15 val }
    else if equal key (codes "shards")
    then record r { shard_list = take 1023 val }
    else if equal key (codes "broadcast")
    then record r { broadcast = equal val (codes "true") }
    else r

abbrev pub new_rule : Bytes → TmpTableRule
new_rule name = record {
  table_name = take 127 name;
  shard_column = [];
  method = [];
  shard_list = [];
  broadcast = false;
}

unfoldable pub update_rule :
    (TmpTableRule → TmpTableRule) → Bytes → List TmpTableRule → List TmpTableRule
unfolding update_named
update_rule f name rules = update_named (λ r. r.table_name) (new_rule name) f name rules

-- `tmp_shard_count >= MAX_SHARDS` is tested before the shard is looked for.
abbrev pub shard_line : Bytes → Bytes → Bytes → Parsed → Parsed
shard_line [] key val st = st
shard_line (c ∷ cs) key val st =
    if leb max_shards (length st.shards)
    then st
    else record st { shards = update_shard (set_shard key val) (c ∷ cs) st.shards }

abbrev pub table_line : Bytes → Bytes → Bytes → Parsed → Parsed
table_line [] key val st = st
table_line (c ∷ cs) key val st =
    if leb max_tables (length st.rules)
    then st
    else record st { rules = update_rule (set_rule key val) (c ∷ cs) st.rules }

-- `key = val`, in the current section.
unfoldable pub set_key : Bytes → Bytes → Parsed → Parsed
unfolding equal update_shard update_rule atoi strtoull
set_key key val st =
    if equal st.section (codes "global")
    then record st { settings = set_global key val st.settings }
    else if equal st.section (codes "auth")
    then record st { settings = set_auth key val st.settings }
    else if equal st.section (codes "pool")
    then record st { settings = set_pool key val st.settings }
    else if equal st.section (codes "backend")
    then record st { settings = set_backend key val st.settings }
    else if equal st.section (codes "shard")
    then shard_line st.section_arg key val st
    else if equal st.section (codes "table")
    then table_line st.section_arg key val st
    else st

abbrev pub read_key : Option (Bytes × Bytes) → Parsed → Parsed
read_key none st = st
read_key (some (key, val)) st = set_key (trim key) (trim val) st

-- A trimmed line: empty, a comment, a section's header, or a key.
unfoldable pub read_line : Bytes → Parsed → Parsed
unfolding cut_at trim set_key
read_line [] st = st
read_line (c ∷ cs) st =
    if c == b'#'
    then st
    else if c == b';'
    then st
    else if c == b'['
    then read_header (cut_at b']' cs) st
    else read_key (cut_at b'=' (c ∷ cs)) st

unfoldable pub read_lines : List Bytes → Parsed → Parsed
unfolding read_line c_prefix trim
read_lines [] st = st
read_lines (l ∷ ls) st = read_lines ls (read_line (trim (c_prefix l)) st)
