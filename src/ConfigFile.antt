-- ===== src/ConfigFile.antt =====
-- The configuration's files: `AppConfig::load` and `cache::merge` of src/config.rs, and `hot_reload`
-- of src/main.rs.
pub mod Rules
pub mod Sound
pub mod Save
use aether_opt_ext.Base.{
  ℕ, Bool, true, false, not, ◌&&◌, ◌||◌, Option, none, some, List, [], ◌∷◌, ◌++◌, State, ◌>>=◌,
  pure, leb, length, if◌then◌else◌,
}
use aether_opt_ext.Base.Text.{Text, codes, text_eq, contains_char}
use aether_opt_ext.CpuRange.{from_range, to_range_string}
use aether_opt_ext.Os.{Os}
use aether_opt_ext.Os.Machine.{Machine, call, base_cpuset}
use aether_opt_ext.Topology.{CpuTopology, join_path, create_cpuset_dir}
use aether_opt_ext.Config.{Rule, AppConfig, rule_prio}
use aether_opt_ext.Bpf.{has_text}
use aether_opt_ext.Entries.{
  insert_texts, push_wild, str_or, is_text, or_false, package_rule, cons_some, cons_rule, Json,
}

-- The variables of the loop in `load`.
pub record Loaded : Type 0 where
  pub rules : List Rule
  pub pkg_set : List Text
  pub wild : List Text

abbrev pub nothing_loaded : Loaded
nothing_loaded = record { rules = []; pkg_set = []; wild = [] }

-- The variables of the loop in `merge`.
pub record Merging : Type 0 where
  pub seen_pkgs : List Text
  pub set : List Text
  pub rules : List Rule

abbrev pub cache_file : Text
cache_file = codes "/sdcard/Android/Aether/threads_cache"

module _ {J : Type 0} (json : Json J) where
  -- `filter_map(|v| v.as_str().map(String::from))`
  unfoldable pub strings : List J → List Text
  strings [] = []
  strings (v ∷ vs) = cons_some (json.as_str v) (strings vs)

  unfoldable pub name_rules : Text → Text → List J → List Rule
  name_rules pkg cpus [] = []
  name_rules pkg cpus (v ∷ vs) = cons_rule pkg cpus (json.as_str v) (name_rules pkg cpus vs)

  unfoldable pub entry_rules : Text → List (Text × J) → List Rule
  entry_rules pkg [] = []
  entry_rules pkg ((cpus, names) ∷ rest) =
      name_rules pkg cpus (json.members names) ++ entry_rules pkg rest

  -- The thread rules of an entry, none if `comm` is no object.
  unfoldable pub comm_rules : Text → J → List Rule
  comm_rules pkg comm = if json.is_object comm then entry_rules pkg (json.entries comm) else []

  abbrev pub other_cpus : J → Text
  other_cpus e =
      str_or (json.as_str (json.get (json.get e (codes "cpuset")) (codes "other"))) (codes "0")

  abbrev pub comm_of : J → J
  comm_of e = json.get (json.get e (codes "cpuset")) (codes "comm")

  abbrev pub packages_of : J → List Text
  packages_of e = strings (json.members (json.get e (codes "packages")))

  -- The joke: a file with this key and no other is no configuration.
  abbrev pub is_joke : J → Bool
  is_joke root =
      is_text (json.as_str (json.get root (codes "nekonemo"))) (codes "meow")
      && leb (if json.is_object root then length (json.entries root) else 0) 1

  -- An entry of the cache: the first of a package is kept.
  unfoldable pub merge_pkgs : List Text → J → Merging → Merging
  merge_pkgs [] e acc = acc
  merge_pkgs (def ∷ rest) e acc = if has_text acc.seen_pkgs def then acc else record {
    seen_pkgs = def ∷ acc.seen_pkgs;
    set = insert_texts (def ∷ rest) acc.set;
    rules = (acc.rules ++ package_rule def (other_cpus e) [] ∷ []) ++ comm_rules def (comm_of e);
  }

  unfoldable pub merge_entries : List J → Merging → Merging
  merge_entries [] acc = acc
  merge_entries (e ∷ es) acc = merge_entries es (merge_pkgs (packages_of e) e acc)

  unfoldable pub merge_root : Option J → AppConfig → AppConfig
  merge_root none cfg = cfg
  merge_root (some root) cfg =
      let start : Merging = record { seen_pkgs = []; set = cfg.pkg_set; rules = cfg.rules } in
      let acc = merge_entries (json.members root) start in
      if not (json.is_array root) then cfg else record cfg { pkg_set = acc.set; rules = acc.rules }

  unfoldable pub merge_data : Option Text → AppConfig → AppConfig
  merge_data none cfg = cfg
  merge_data (some text) cfg = merge_root (json.parse text) cfg

-- What is made of the entries and the time of the file.
abbrev pub config_at : CpuTopology → Bool → Loaded → Option ℕ → Option AppConfig
config_at topo ebpf acc none = none
config_at topo ebpf acc (some mt) = some (record {
  rules = acc.rules;
  pkg_set = acc.pkg_set;
  wild = acc.wild;
  mtime = mt;
  ebpf = ebpf;
  topo = topo;
})

module _ {J W B : Type 0} (json : Json J) (os : Os W) where
  -- `cache::merge(&mut cfg.pkg_set, &mut cfg.rules)`
  unfoldable pub merge : AppConfig → State (Machine W B) AppConfig
  merge cfg m = let file = call (os.read_file cache_file) m in (merge_data json file.0 cfg, file.1)

  -- The directory of a package rule, empty if there is none.
  unfoldable pub other_cpuset_dir : Text → CpuTopology → State (Machine W B) Text
  other_cpuset_dir other topo m =
      let other_dir = to_range_string (from_range other) in
      let made =
        create_cpuset_dir os (join_path (base_cpuset m) other_dir) other_dir topo.mems_str m in
      if topo.cpuset_enabled then (if made.0 then other_dir else [], made.1) else ([], m)

  unfoldable pub load_pkgs : CpuTopology → List Text → J → Loaded → State (Machine W B) Loaded
  load_pkgs topo [] e acc m = (acc, m)
  load_pkgs topo (def ∷ rest) e acc m =
      let dir = other_cpuset_dir (other_cpus json e) topo m in
      (
        record {
          rules =
              (acc.rules ++ package_rule def (other_cpus json e) dir.0 ∷ [])
              ++ comm_rules json def (comm_of json e);
          pkg_set = insert_texts (def ∷ rest) acc.pkg_set;
          wild = push_wild (def ∷ rest) acc.wild;
        },
        dir.1,
      )

  unfoldable pub load_entries : CpuTopology → List J → Loaded → State (Machine W B) Loaded
  load_entries topo [] acc m = (acc, m)
  load_entries topo (e ∷ es) acc m =
      let loaded = load_pkgs topo (packages_of json e) e acc m in
      load_entries topo es loaded.0 loaded.1

  unfoldable pub load_root : Text → CpuTopology → Option J → State (Machine W B) (Option AppConfig)
  load_root path topo none m = (none, m)
  load_root path topo (some root) m =
      let ebpf =
        or_false (json.as_bool (json.get (json.get root (codes "features")) (codes "ebpf"))) in
      let entries = if json.is_array root then root else json.get root (codes "rules") in
      let loaded = load_entries topo (json.members entries) nothing_loaded m in
      let mt = call (os.modified path) loaded.1 in
      if is_joke json root || not (json.is_array entries)
      then (none, m)
      else (config_at topo ebpf loaded.0 mt.0, mt.1)

  unfoldable pub load_data :
      Text → CpuTopology → Option Text → State (Machine W B) (Option AppConfig)
  load_data path topo none m = (none, m)
  load_data path topo (some text) m = load_root path topo (json.parse text) m

  unfoldable pub load : Text → CpuTopology → State (Machine W B) (Option AppConfig)
  load path topo m = let file = call (os.read_file path) m in load_data path topo file.0 file.1

  unfoldable pub reload_with : Option AppConfig → AppConfig → State (Machine W B) (Bool × AppConfig)
  reload_with none cfg m = ((false, cfg), m)
  reload_with (some new_cfg) cfg m = let merged = merge new_cfg m in ((true, merged.0), merged.1)

  unfoldable pub hot_reload : Text → AppConfig → State (Machine W B) (Bool × AppConfig)
  hot_reload config_path cfg m =
      let loaded = load config_path cfg.topo m in reload_with loaded.0 cfg loaded.1
