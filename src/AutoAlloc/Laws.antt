-- ===== src/AutoAlloc/Laws.antt =====
-- What the loop for unknown apps (src/main.rs) relies on: the file system at the cache's file, and the
-- printer of the crate `json`.
use aether_opt_ext.Base.{◌≡◌, Bool, true, false, some}
use aether_opt_ext.Base.Text.{Text, codes, is_empty, trim, trim_start, starts_with}
use aether_opt_ext.Os.{Os}
use aether_opt_ext.Entries.{Json}
use aether_opt_ext.ConfigFile.{cache_file}
use aether_opt_ext.ConfigFile.Save.{JsonBuild}

-- The directory that `save` makes, in which the cache's file is.
abbrev pub cache_dir : Text
cache_dir = codes "/sdcard/Android/Aether"

-- A storage that can be written: the directory can be made and stays, a file can be written where its
-- directory is, and a file that was written holds the text. Making the directory and reading do not
-- change the file.
pub record FileLaws {W : Type 0} (os : Os W) : Type 0 where
  pub has_dir : W → Bool
  pub can_make : (w : W) → (os.create_dir_all cache_dir w).0 ≡ true
  pub dir_made :
      (w : W)
      → (os.create_dir_all cache_dir w).0 ≡ true
      → has_dir (os.create_dir_all cache_dir w).1 ≡ true
  pub dir_stays : (w : W) → has_dir (os.read_file cache_file w).1 ≡ has_dir w
  pub can_write : (t : Text) (w : W) → has_dir w ≡ true → (os.write_file cache_file t w).0 ≡ true
  pub read_back :
      (t : Text) (w : W)
      → (os.write_file cache_file t w).0 ≡ true
      → (os.read_file cache_file (os.write_file cache_file t w).1).0 ≡ some t
  pub dir_keeps :
      (w : W)
      → (os.read_file cache_file (os.create_dir_all cache_dir w).1).0
        ≡ (os.read_file cache_file w).0

-- A printed array begins with a bracket and is read back.
pub record PrintLaws {J : Type 0} (json : Json J) (build : JsonBuild J) : Type 0 where
  pub not_blank :
      (a : J) → json.is_array a ≡ true → is_empty (trim (build.stringify_pretty a 2)) ≡ false
  pub bracket :
      (a : J)
      → json.is_array a ≡ true
      → starts_with (trim_start (build.stringify_pretty a 2)) (codes "[") ≡ true
  pub parse_back :
      (a : J) → json.is_array a ≡ true → json.parse (build.stringify_pretty a 2) ≡ some a
