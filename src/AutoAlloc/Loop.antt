-- ===== src/AutoAlloc/Loop.antt =====
-- After `auto_allocate` (src/main.rs, with `cache::save` and `cache::merge` of src/config.rs) the apps
-- that it found are known.
use aether_opt_ext.Base.{not, ◌||◌, ◌&&◌, ◌≡◌, true, List, [], ◌∷◌, if◌then◌else◌}
use aether_opt_ext.Base.Text.{Text}
use aether_opt_ext.Os.{Os}
use aether_opt_ext.Os.Machine.{Machine}
use aether_opt_ext.Config.{AppConfig}
use aether_opt_ext.Bpf.{has_text}
use aether_opt_ext.Scanner.{Found, is_unknown}
use aether_opt_ext.ConfigFile.Save.{is_blacklisted}
use aether_opt_ext.Clusters.{Clusters}

abbrev pub listed : List Found → List Text → List Text
listed [] done = done
listed (found ∷ rest) done =
    if is_blacklisted found.pkg then listed rest done else listed rest (found.pkg ∷ done)

-- An app that is not on the black list is one of the packages, and `scan_unknown` passes it over.
abbrev pub Known : AppConfig → Found → Type 0
Known cfg f =
    (is_blacklisted f.pkg
      || has_text cfg.pkg_set f.pkg && not (is_unknown cfg.pkg_set cfg.wild f.pkg))
    ≡ true
