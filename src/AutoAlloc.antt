-- ===== src/AutoAlloc.antt =====
-- src/main.rs, the loop that makes entries for the apps that the configuration does not name: it
-- runs at the start and in every 30th round of the mode without eBPF.
pub mod Laws
pub mod Known
pub mod Merged
pub mod Saved
pub mod Loop
use aether_opt_ext.Base.{Bool, true, false, List, [], ◌∷◌, State, if◌then◌else◌}
use aether_opt_ext.Os.{Os}
use aether_opt_ext.Os.Machine.{Machine}
use aether_opt_ext.Config.{AppConfig}
use aether_opt_ext.Entries.{Json}
use aether_opt_ext.ConfigFile.{merge}
use aether_opt_ext.ConfigFile.Save.{JsonBuild, is_blacklisted, save}
use aether_opt_ext.Scanner.{Found, scan_unknown}
use aether_opt_ext.Clusters.{Clusters}

module _ {J W B : Type 0} (json : Json J) (build : JsonBuild J) (os : Os W) (c : Clusters) where
  -- Whether an entry was made for one of the apps in the list; `all` are the apps that were found.
  unfoldable pub save_each : List Found → List Found → Bool → State (Machine W B) Bool
  save_each all [] saved m = (saved, m)
  save_each all (found ∷ rest) saved m =
      let one = save json build os found.pkg all c.big c.mid c.little m in
      let skipped = save_each all rest saved m in
      let next = save_each all rest true one.1 in if is_blacklisted found.pkg then skipped else next

  unfoldable pub auto_allocate : AppConfig → State (Machine W B) AppConfig
  auto_allocate cfg m =
      let unknown = scan_unknown os cfg.pkg_set cfg.wild m in
      let saved = save_each unknown.0 unknown.0 false unknown.1 in
      let merged = merge json os cfg saved.1 in if saved.0 then merged else (cfg, saved.1)
