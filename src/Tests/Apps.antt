-- ===== src/Tests/Apps.antt =====
-- The apps that the configuration does not name, at one app and one file system.
use aether_opt_ext.Base.{Bool, false, true, Option, none, some, List, [], ◌∷◌, ◌++◌, if◌then◌else◌}
use aether_opt_ext.Base.Text.{Text, codes, text_eq, ends_with}
use aether_opt_ext.Os.{Os}
use aether_opt_ext.Os.Machine.{Machine}
use aether_opt_ext.Scanner.{Found}
use aether_opt_ext.ConfigFile.{cache_file}
use aether_opt_ext.ConfigFile.Save.{new_entry}
use aether_opt_ext.ConfigFile.Save.Written.{Written}
use aether_opt_ext.Clusters.{Clusters}
use aether_opt_ext.Tests.Maps.{Maps}
use aether_opt_ext.Tests.Printed.{Value}
use aether_opt_ext.Tests.Values.{value_json, value_build}

-- The world is whether there is the directory, and the text of the cache's file. A file is written if
-- the directory is there. One app runs that is not configured.
abbrev World : Type 0
World = Bool × Option Text

abbrev file_os : Os World
file_os = record {
  read_file = λ path w. (
    if text_eq path cache_file
        then w.1
        else some (
            if ends_with path (codes "status")
            then codes "Uid:" ++ 9 ∷ codes "10123"
            else codes "org.example.other"),
    w,
  );
  write_file = λ path text w. if w.0 then (true, (true, some text)) else (false, w);
  append_file = λ path text w. (tt, w);
  create_dir_all = λ path w. (true, (true, w.1));
  read_dir = λ path w. (some (codes "4711" ∷ []), w);
  modified = λ path w. (none, w);
  mkdir = λ path w. (0, w);
  chmod = λ path w. (0, w);
  chown = λ path w. (0, w);
  exists = λ path w. (true, w);
  access = λ path w. (0, w);
  open_dir = λ path w. (3, w);
  getaffinity = λ tid w. (none, w);
  setaffinity = λ tid cpus w. (0, w);
  process_count = λ w. (none, w);
  is_alive = λ pid w. (true, w);
}

abbrev pub phone_clusters : Clusters
phone_clusters = record {
  big = codes "7";
  mid = codes "4-6";
  little = codes "0-3";
  topo = codes "1+3+4";
}

abbrev no_file : Machine World Maps
no_file = record {
  world = (false, none);
  base_cpuset_path = none;
  failed_once = [];
  logged = [];
  bpf = none;
}

abbrev reader : Text
reader = codes "org.example.reader"

abbrev reading : List Found
reading =
    record {
      pid = 4711;
      pkg = reader;
      th = (4711, codes "RenderThread") ∷ (4712, codes "Worker-1") ∷ [];
    }
    ∷ []

abbrev old_entry : Value
old_entry =
    new_entry value_json value_build (codes "org.example.old") [] (codes "7") (codes "4-6")
      (codes "0-3")

abbrev old_array : Value
old_array = value_build.push value_build.new_array old_entry

-- The file holds the entry that an earlier run made for the app.
abbrev one_entry : Machine World Maps
one_entry = record no_file { world = (true, some (value_build.stringify_pretty old_array 2)) }
