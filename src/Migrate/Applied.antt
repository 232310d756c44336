-- ===== src/Migrate/Applied.antt =====
-- data/migrate/migrate.go, `Apply`: what has been applied.
use stumpfworks_framework.Base.{
  ℕ, ◌≡◌, ◌≢◌, inl, inr, refl, sym, ap, ◌∙◌, Bool, List, [], ◌∷◌, Option, some, Bytes, lookup,
  insert, lookup-insert, ℕ_discrete, ok, arith, Option-cases, Result-cases, All,
}
use stumpfworks_framework.Migrate.{Migration, Database, Faults, apply_one, apply_all, apply}

-- The table holds the checksum of `m` under its version.
abbrev pub IsApplied : List (ℕ × Bytes) → Migration → Type 0
IsApplied table m = lookup ℕ_discrete m.version table ≡ some m.checksum

-- Different migrations have different versions.
abbrev pub IsNew : ℕ → List Migration → Type 0
IsNew v [] = Unit {0}
IsNew v (m ∷ more) = (m.version ≢ v) × IsNew v more

abbrev pub AreDistinct : List Migration → Type 0
AreDistinct [] = Unit {0}
AreDistinct (m ∷ more) = IsNew m.version more × AreDistinct more

module _ {Schema : Type 0} (execute : Bytes → Schema → Option Schema) (records : ℕ → Bool) where
  apply_one-table :
      (m : Migration) (db next : Database Schema)
      → apply_one execute records m db ≡ ok next
      → next.applied ≡ insert ℕ_discrete m.version m.checksum db.applied
  unfolding apply_one
  apply_one-table m db next e = ground arith

  -- An entry under another version stays.
  apply_one_keeps :
      (m : Migration) (db next : Database Schema) (v : ℕ)
      → apply_one execute records m db ≡ ok next
      → m.version ≢ v
      → lookup ℕ_discrete v next.applied ≡ lookup ℕ_discrete v db.applied
  apply_one_keeps m db next v e other =
      let table = apply_one-table m db next e in
      let law = lookup-insert ℕ_discrete v m.version m.checksum db.applied in
      rw table (ground arith)

  apply_one_done :
      (m : Migration) (db next : Database Schema)
      → apply_one execute records m db ≡ ok next
      → IsApplied next.applied m
  apply_one_done m db next e =
      let table = apply_one-table m db next e in
      let law = lookup-insert ℕ_discrete m.version m.version m.checksum db.applied in
      rw table (ground arith)

  apply_all_keeps :
      (before : List (ℕ × Bytes)) (ms : List Migration) (db after : Database Schema) (v : ℕ)
      → apply_all execute records before ms db ≡ ok after
      → IsNew v ms
      → lookup ℕ_discrete v after.applied ≡ lookup ℕ_discrete v db.applied
  unfolding apply_all
  apply_all_keeps before [] db after v e h = ground arith
  apply_all_keeps before (m ∷ more) db after v e h =
      elim (Option-cases (lookup ℕ_discrete m.version before)) [
        | inr (checksum, found) ↦ apply_all_keeps before more db after v (ground arith) h.1
        | inl pending ↦ elim (Result-cases (apply_one execute records m db)) [
          | inr (error, failed) ↦ absurd (ground arith)
          | inl (next, done) ↦
              let rest = apply_all_keeps before more next after v (ground arith) h.1 in
              let one = apply_one_keeps m db next v done h.0 in cc
        ]
      ]

  -- The table still says of these migrations what the map says.
  AreRead : List (ℕ × Bytes) → List (ℕ × Bytes) → List Migration → Type 0
  AreRead before table [] = Unit {0}
  AreRead before table (m ∷ more) =
      (lookup ℕ_discrete m.version table ≡ lookup ℕ_discrete m.version before)
      × AreRead before table more

  all_read : (table : List (ℕ × Bytes)) (ms : List Migration) → AreRead table table ms
  unfolding AreRead
  all_read table [] = tt
  all_read table (m ∷ more) = (refl, all_read table more)

  still_read :
      (before : List (ℕ × Bytes)) (m : Migration) (ms : List Migration) (db next : Database Schema)
      → apply_one execute records m db ≡ ok next
      → IsNew m.version ms
      → AreRead before db.applied ms
      → AreRead before next.applied ms
  unfolding AreRead
  still_read before m [] db next e new h = tt
  still_read before m (n ∷ more) db next e new h =
      let one = apply_one_keeps m db next n.version e (λ same. new.0 (sym same)) in
      (one ∙ h.0, still_read before m more db next e new.1 h.1)

  apply_all-IsApplied :
      (before : List (ℕ × Bytes)) (ms : List Migration) (db after : Database Schema)
      → apply_all execute records before ms db ≡ ok after
      → AreDistinct ms
      → AreRead before db.applied ms
      → All (IsApplied after.applied) ms
  unfolding apply_all AreRead
  apply_all-IsApplied before [] db after e distinct h = tt
  apply_all-IsApplied before (m ∷ more) db after e distinct h =
      elim (Option-cases (lookup ℕ_discrete m.version before)) [
        | inr (checksum, found) ↦
            let rest : apply_all execute records before more db ≡ ok after = ground arith in
            let same : checksum ≡ m.checksum = ground arith in
            let kept = apply_all_keeps before more db after m.version rest distinct.0 in
            (
              kept ∙ h.0 ∙ found ∙ ap some same,
              apply_all-IsApplied before more db after rest distinct.1 h.1,
            )
        | inl pending ↦ elim (Result-cases (apply_one execute records m db)) [
          | inr (error, failed) ↦ absurd (ground arith)
          | inl (next, done) ↦
              let rest : apply_all execute records before more next ≡ ok after = ground arith in
              let kept = apply_all_keeps before more next after m.version rest distinct.0 in
              (
                kept ∙ apply_one_done m db next done,
                apply_all-IsApplied before more next after rest distinct.1
                    (still_read before m more db next done distinct.0 h.1),
              )
        ]
      ]

  apply_all_again :
      (ms : List Migration) (table : List (ℕ × Bytes)) (db : Database Schema)
      → All (IsApplied table) ms
      → apply_all execute records table ms db ≡ ok db
  unfolding apply_all
  apply_all_again [] table db h = refl
  apply_all_again (m ∷ more) table db h =
      let rest = apply_all_again more table db h.1 in let found = h.0 in ground arith

  applied :
      (has_pool : Bool) (f : Faults) (ms : List Migration) (db : Database Schema)
      → (apply execute records has_pool f ms db).0 ≡ ok tt
      → apply_all execute records db.applied ms db ≡ ok (apply execute records has_pool f ms db).1
  unfolding apply
  applied has_pool f ms db e = elim (Result-cases (apply_all execute records db.applied ms db)) [
    | inl (after, done) ↦ ground arith
    | inr (error, failed) ↦ absurd (ground arith)
  ]

  -- A successful `Apply` of migrations with distinct versions leaves each of them in the table under
  -- its version with its checksum, whichever of them were there before.
  pub apply-IsApplied :
      (has_pool : Bool) (f : Faults) (ms : List Migration) (db : Database Schema)
      → AreDistinct ms
      → (apply execute records has_pool f ms db).0 ≡ ok tt
      → All (IsApplied ((apply execute records has_pool f ms db).1).applied) ms
  apply-IsApplied has_pool f ms db distinct e =
      apply_all-IsApplied db.applied ms db (apply execute records has_pool f ms db).1
        (applied has_pool f ms db e) distinct (all_read db.applied ms)

  repeated :
      (has_pool : Bool) (f : Faults) (ms : List Migration) (db after : Database Schema)
      → (apply execute records has_pool f ms db).0 ≡ ok tt
      → apply_all execute records after.applied ms after ≡ ok after
      → apply execute records has_pool f ms after ≡ (ok tt, after)
  unfolding apply
  repeated has_pool f ms db after e again =
      elim (Result-cases (apply_all execute records db.applied ms db)) [
        | inl (end, done) ↦ ground arith
        | inr (error, failed) ↦ absurd (ground arith)
      ]

  -- `Apply` is idempotent: after a successful one of migrations with distinct versions, the same call
  -- succeeds and leaves the database as it is.
  pub apply_idempotent :
      (has_pool : Bool) (f : Faults) (ms : List Migration) (db : Database Schema)
      → AreDistinct ms
      → (apply execute records has_pool f ms db).0 ≡ ok tt
      → let after = (apply execute records has_pool f ms db).1 in
        apply execute records has_pool f ms after ≡ (ok tt, after)
  apply_idempotent has_pool f ms db distinct e =
      let after = (apply execute records has_pool f ms db).1 in
      repeated has_pool f ms db after e
        (apply_all_again ms after.applied after (apply-IsApplied has_pool f ms db distinct e))
