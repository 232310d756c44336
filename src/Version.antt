-- ===== src/Version.antt =====
-- core/version/version.go: the build that is running. What `debug.ReadBuildInfo` returns is an argument,
-- as the values that the linker sets are.
pub mod Linked
use stumpfworks_framework.Base.{
  Bool, true, false, not, ◌&&◌, List, [], ◌∷◌, Option, none, some, Bytes, eqb, is_empty, codes,
  if◌then◌else◌,
}

pub record Info : Type 0 where
  pub version : Bytes
  pub commit : Bytes
  pub build_time : Bytes
  pub dirty : Bool

-- `debug.BuildInfo`: the version of the main module, and the settings.
pub record BuildInfo : Type 0 where
  pub main_version : Bytes
  pub settings : List (Bytes × Bytes)

-- One round of the loop over the settings.
unfoldable pub apply_setting : Bytes × Bytes → Info → Info
apply_setting (key, value) info =
    if eqb key (codes "vcs.revision")
    then (if is_empty info.commit then record info { commit = value } else info)
    else if eqb key (codes "vcs.time")
    then (if is_empty info.build_time then record info { build_time = value } else info)
    else if eqb key (codes "vcs.modified")
    then record info { dirty = eqb value (codes "true") }
    else info

unfoldable pub apply_settings : List (Bytes × Bytes) → Info → Info
apply_settings [] info = info
apply_settings (s ∷ more) info = apply_settings more (apply_setting s info)

-- `Current`, for the values of `Version`, `Commit` and `BuildTime`.
unfoldable pub current : Bytes → Bytes → Bytes → Option BuildInfo → Info
current version commit build_time build =
    let info : Info = record {
      version = version;
      commit = commit;
      build_time = build_time;
      dirty = false;
    } in
    elim build [
      | none ↦ info
      | some b ↦ apply_settings b.settings (
          if eqb version (codes "dev")
            && not (is_empty b.main_version)
            && not (eqb b.main_version (codes "(devel)"))
          then record info { version = b.main_version }
          else info)
    ]
