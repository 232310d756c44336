-- ===== src/Version/Linked.antt =====
-- core/version/version.go: values that the linker sets are kept.
use stumpfworks_framework.Base.{
  inl, inr, ◌≡◌, ◌≢◌, refl, sym, ◌∙◌, false, not, ◌&&◌, List, [], ◌∷◌, Option, none, some, Bytes,
  eqb, is_empty, codes, arith, Bool-cases,
}
use stumpfworks_framework.Version.{Info, BuildInfo, apply_setting, apply_settings, current}

-- `b` has the version of `a`, and its commit and time where those are set.
record Keeps (a b : Info) : Type 0 where
  version : b.version ≡ a.version
  commit : a.commit ≢ [] → b.commit ≡ a.commit
  build_time : a.build_time ≢ [] → b.build_time ≡ a.build_time

apply_setting-Keeps : (s : Bytes × Bytes) (info : Info) → Keeps info (apply_setting s info)
unfolding apply_setting
apply_setting-Keeps (key, value) info = record {
  version = ground arith;
  commit = λ set. ground arith;
  build_time = λ set. ground arith;
}

apply_settings-Keeps :
    (settings : List (Bytes × Bytes)) (info : Info) → Keeps info (apply_settings settings info)
unfolding apply_settings
apply_settings-Keeps [] info = record {
  version = refl;
  commit = λ set. refl;
  build_time = λ set. refl;
}
apply_settings-Keeps (s ∷ more) info =
    let one = apply_setting-Keeps s info in
    let rest = apply_settings-Keeps more (apply_setting s info) in
    record {
      version = rest.version ∙ one.version;
      commit = λ set. rest.commit (λ e. set (sym (one.commit set) ∙ e)) ∙ one.commit set;
      build_time =
          λ set. rest.build_time (λ e. set (sym (one.build_time set) ∙ e)) ∙ one.build_time set;
    }

-- `Current` keeps a version other than dev, a commit and a build time that the linker has set, whatever
-- build information there is.
current_keeps :
    (version commit build_time : Bytes) (build : Option BuildInfo)
    → let info = current version commit build_time build in
      (version ≢ codes "dev" → info.version ≡ version)
      × (commit ≢ [] → info.commit ≡ commit)
      × (build_time ≢ [] → info.build_time ≡ build_time)
unfolding current
current_keeps version commit build_time none = (λ set. refl, λ set. refl, λ set. refl)
current_keeps version commit build_time (some b) =
    let start : Info = record {
      version = version;
      commit = commit;
      build_time = build_time;
      dirty = false;
    } in
    elim (Bool-cases (
      eqb version (codes "dev")
      && not (is_empty b.main_version)
      && not (eqb b.main_version (codes "(devel)")))) [
        | inl released ↦
            let kept =
              apply_settings-Keeps b.settings (record start { version = b.main_version }) in
            rw released (λ set. absurd (ground arith), kept.commit, kept.build_time)
        | inr linked ↦
            let kept = apply_settings-Keeps b.settings start in
            rw linked (λ set. kept.version, kept.commit, kept.build_time)
      ]
