-- ===== src/ConfigFile/Save.antt =====
-- src/config.rs, `cache::is_blacklisted`, `cache::est_load` and `cache::save`: the entry that is made
-- for an app that the configuration does not name.
pub mod Unique
pub mod Written
use aether_opt_ext.Base.{
  ℕ, Bool, true, false, not, ◌&&◌, ◌||◌, Option, none, some, List, [], ◌∷◌, ◌++◌, State, ltb, leb,
  ◌==◌, if◌then◌else◌, any, filter,
}
use aether_opt_ext.Base.Text.{
  Text, codes, is_empty, text_eq, starts_with, ends_with, contains, trim, trim_start,
}
use aether_opt_ext.Os.{Os}
use aether_opt_ext.Os.Machine.{Machine, call}
use aether_opt_ext.Scanner.{Found, text_or_empty}
use aether_opt_ext.Entries.{Json}
use aether_opt_ext.ConfigFile.{cache_file}

-- How the crate `json` makes values and prints them, and how it indexes an array.
pub record JsonBuild (J : Type 0) : Type 0 where
  pub at : J → ℕ → J
  pub new_object : J
  -- `value[key] = field`
  pub set_field : J → Text → J → J
  pub new_array : J
  -- `value.push(item)`; the result is dropped
  pub push : J → J → J
  pub string : Text → J
  pub stringify_pretty : J → ℕ → Text

abbrev pub ends_with_any : Text → List Text → Bool
ends_with_any s ps = any (λ p. ends_with s p) ps

abbrev pub starts_with_any : Text → List Text → Bool
starts_with_any s ps = any (λ p. starts_with s p) ps

abbrev pub contains_any : Text → List Text → Bool
contains_any s ps = any (λ p. contains s p) ps

unfoldable pub is_blacklisted : Text → Bool
is_blacklisted pkg =
    ends_with_any pkg (
      codes ":widgetProvider"
      ∷ codes ":searchDataService"
      ∷ codes ":coreService"
      ∷ codes ":cognitionService"
      ∷ codes ":bert"
      ∷ codes ":bertAlgo"
      ∷ codes ":privacy"
      ∷ codes ":kit7"
      ∷ codes ":services"
      ∷ codes ":daemon"
      ∷ [])
    || text_eq pkg (codes "android.process.media")
    || text_eq pkg (codes "android.process.acore")
    || starts_with_any pkg (
        codes "com.qualcomm."
        ∷ codes ".qti"
        ∷ codes ".qms"
        ∷ codes ".cacert"
        ∷ codes ".dataservices"
        ∷ [])

unfoldable pub est_load : Text → ℕ
est_load name =
    if contains_any name (codes "Render" ∷ codes "Gfx" ∷ codes "GL" ∷ codes "Vulkan" ∷ [])
    then 10
    else if contains_any name (codes "Decode" ∷ codes "Codec" ∷ codes "Video" ∷ codes "Audio" ∷ [])
    then 8
    else if contains_any name (
        codes "Main"
        ∷ codes "Unity"
        ∷ codes "Game"
        ∷ codes "Native"
        ∷ codes "RHI"
        ∷ codes "TaskGraph"
        ∷ [])
    then 9
    else if contains_any name (codes "Worker" ∷ codes "Thread" ∷ codes "Job" ∷ [])
    then 5
    else if contains_any name (codes "Io" ∷ codes "Network" ∷ codes "Http" ∷ [])
    then 3
    else if contains_any name (codes "Background" ∷ codes "Idle" ∷ codes "Pool" ∷ [])
    then 1
    else 5

-- The names that go to the fast, the middle and the slow CPUs.
pub record Names : Type 0 where
  pub big_names : List Text
  pub mid_names : List Text
  pub lil_names : List Text

abbrev pub no_names : Names
no_names = record { big_names = []; mid_names = []; lil_names = [] }

unfoldable pub add_name : Bool → Text → Names → Names
unfolding est_load
add_name has_mid comm n =
    let load = est_load comm in
    if leb 8 load
    then record n { big_names = n.big_names ++ comm ∷ [] }
    else if leb 5 load && has_mid
    then record n { mid_names = n.mid_names ++ comm ∷ [] }
    else record n { lil_names = n.lil_names ++ comm ∷ [] }

unfoldable pub add_names : Bool → List (ℕ × Text) → Names → Names
unfolding add_name
add_names has_mid [] n = n
add_names has_mid ((tid, comm) ∷ th) n = add_names has_mid th (add_name has_mid comm n)

-- The threads of all processes of the package.
unfoldable pub names_of : Bool → Text → List Found → Names → Names
unfolding add_names
names_of has_mid pkg [] n = n
names_of has_mid pkg (found ∷ all) n =
    names_of has_mid pkg all (if text_eq found.pkg pkg then add_names has_mid found.th n else n)

-- `str` is compared by its bytes.
unfoldable pub text_lt : Text → Text → Bool
text_lt s [] = false
text_lt [] (b ∷ t) = true
text_lt (a ∷ s) (b ∷ t) = ltb a b || a == b && text_lt s t

-- `BTreeMap<&str, Vec<&str>>`, in the order of its keys.
abbrev pub CommMap : Type 0
CommMap = List (Text × List Text)

-- `comm_map.entry(cpus).or_default().push(n)`
unfoldable pub push_comm : Text → Text → CommMap → CommMap
unfolding text_lt
push_comm cpus n [] = (cpus, n ∷ []) ∷ []
push_comm cpus n ((key, ns) ∷ map) =
    let rest = push_comm cpus n map in
    if text_eq key cpus
    then (key, ns ++ n ∷ []) ∷ map
    else if text_lt cpus key
    then (cpus, n ∷ []) ∷ (key, ns) ∷ map
    else (key, ns) ∷ rest

unfoldable pub push_comms : Text → List Text → CommMap → CommMap
unfolding push_comm
push_comms cpus [] map = map
push_comms cpus (n ∷ names) map = push_comms cpus names (push_comm cpus n map)

abbrev pub differs : Option Text → Text → Bool
differs none pkg = true
differs (some old_pkg) pkg = not (text_eq old_pkg pkg)

module _ {J : Type 0} (json : Json J) (build : JsonBuild J) where
  unfoldable pub push_strings : List Text → J → J
  push_strings [] arr = arr
  push_strings (n ∷ ns) arr = push_strings ns (build.push arr (build.string n))

  unfoldable pub set_comms : CommMap → J → J
  unfolding push_strings
  set_comms [] cm = cm
  set_comms ((cpus, ns) ∷ map) cm =
      set_comms map (build.set_field cm cpus (push_strings ns build.new_array))

  unfoldable pub cpuset_field : Names → CommMap → Text → J
  unfolding set_comms
  cpuset_field n comm_map little =
      let cs = build.set_field build.new_object (codes "other") (build.string little) in
      if not (is_empty n.big_names) || not (is_empty n.mid_names)
      then build.set_field cs (codes "comm") (set_comms comm_map build.new_object)
      else cs

  unfoldable pub new_entry : Text → List Found → Text → Text → Text → J
  unfolding cpuset_field names_of push_comms
  new_entry pkg all big mid little =
      let n = names_of (not (is_empty mid)) pkg all no_names in
      let comm_map = push_comms mid n.mid_names (push_comms big n.big_names []) in
      let friendly =
        build.set_field build.new_object (codes "friendly")
          (build.string (codes "[auto] " ++ pkg)) in
      let named =
        build.set_field friendly (codes "packages")
          (build.push build.new_array (build.string pkg)) in
      build.set_field named (codes "cpuset") (cpuset_field n comm_map little)

  abbrev pub parsed_or_new : Option J → J
  parsed_or_new none = build.new_array
  parsed_or_new (some v) = v

  -- The entries that are there; a file that does not begin with a bracket has none.
  unfoldable pub old_entries : Text → J
  old_entries old =
      if is_empty (trim old) || not (starts_with (trim_start old) (codes "["))
      then build.new_array
      else parsed_or_new (json.parse old)

  abbrev pub first_package : J → Option Text
  first_package e = json.as_str (build.at (json.get e (codes "packages")) 0)

  unfoldable pub push_others : Text → List J → J → J
  push_others pkg [] deduped = deduped
  push_others pkg (e ∷ es) deduped =
      push_others pkg es (if differs (first_package e) pkg then build.push deduped e else deduped)

  -- The text of the file: the entries of other packages, and the new one.
  unfoldable pub saved_entries : Text → J → Text → J
  unfolding old_entries push_others
  saved_entries pkg entry old =
      build.push (push_others pkg (json.members (old_entries old)) build.new_array) entry

module _ {J W B : Type 0} (json : Json J) (build : JsonBuild J) (os : Os W) where
  unfoldable pub save : Text → List Found → Text → Text → Text → State (Machine W B) (Unit {0})
  unfolding saved_entries new_entry is_blacklisted
  save pkg all big mid little m =
      let dir = call (os.create_dir_all (codes "/sdcard/Android/Aether")) m in
      let old = call (os.read_file cache_file) dir.1 in
      let saved =
        saved_entries json build pkg (new_entry json build pkg all big mid little)
          (text_or_empty old.0) in
      let written = call (os.write_file cache_file (build.stringify_pretty saved 2)) old.1 in
      if is_blacklisted pkg then (tt, m) else (tt, written.1)
