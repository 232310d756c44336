-- ===== src/Migrate/Ordered.antt =====
-- data/migrate/migrate.go: which migrations `Load` returns, and what `Apply` makes of them.
use stumpfworks_framework.Base.{
  ℕ, ◌<◌, ◌≡◌, ◌≢◌, ◌⊎◌, inl, inr, Bool, false, List, [], ◌∷◌, Option, some, none, Bytes, any, ◌==◌,
  ok, arith, Option-cases, Result-cases, Bool-cases, All, sort_by, insert_sorted,
}
use stumpfworks_framework.Migrate.{Migration, Database, Faults, apply}
use stumpfworks_framework.Migrate.Load.{
  Entry, find_digits, version_of, digits_of, read_migration, read_all, before, load,
}
use stumpfworks_framework.Migrate.Applied.{
  IsApplied, IsNew, AreDistinct, apply-IsApplied, apply_idempotent,
}

-- Each version is less than all that follow it.
abbrev pub AreOrdered : List Migration → Type 0
AreOrdered [] = Unit {0}
AreOrdered (m ∷ more) = All (λ n. m.version < n.version) more × AreOrdered more

abbrev AreApart : List Migration → Type 0
AreApart [] = Unit {0}
AreApart (m ∷ more) = All (λ n. n.version ≢ m.version) more × AreApart more

All-weaken :
    {A : Type 0} (P Q : A → Type 0) (l : List A) → ((m : A) → P m → Q m) → All P l → All Q l
All-weaken P Q [] f h = tt
All-weaken P Q (m ∷ l) f h = (f m h.0, All-weaken P Q l f h.1)

module _ (checksum_of : Bytes → Bytes) where
  All-insert_sorted :
      (P : Migration → Type 0) (m : Migration) (l : List Migration)
      → P m
      → All P l
      → All P (insert_sorted (before checksum_of) m l)
  unfolding insert_sorted
  All-insert_sorted P m [] p h = (p, tt)
  All-insert_sorted P m (n ∷ l) p h = elim (Bool-cases (before checksum_of m n)) [
    | inl less ↦ rw less (p, h)
    | inr more ↦ rw more (h.0, All-insert_sorted P m l p h.1)
  ]

  All-sort_by :
      (P : Migration → Type 0) (l : List Migration)
      → All P l
      → All P (sort_by (before checksum_of) l)
  unfolding sort_by
  All-sort_by P [] h = tt
  All-sort_by P (m ∷ l) h =
      All-insert_sorted P m (sort_by (before checksum_of) l) h.0 (All-sort_by P l h.1)

  insert_sorted-AreOrdered :
      (m : Migration) (l : List Migration)
      → AreOrdered l
      → All (λ n. n.version ≢ m.version) l
      → AreOrdered (insert_sorted (before checksum_of) m l)
  unfolding insert_sorted
  insert_sorted-AreOrdered m [] h apart = (tt, tt)
  insert_sorted-AreOrdered m (n ∷ l) h apart = elim (Bool-cases (before checksum_of m n)) [
    | inl less ↦
        let first : m.version < n.version = ground arith in
        rw less (
          (
            first,
            All-weaken (λ k. n.version < k.version) (λ k. m.version < k.version) l
                (λ k e. omega arith) h.0,
          ),
          h,
        )
    | inr more ↦
        let first : n.version < m.version = let different = apart.0 in ground arith in
        rw more (
          All-insert_sorted (λ k. n.version < k.version) m l first h.0,
          insert_sorted-AreOrdered m l h.1 apart.1,
        )
  ]

  sort_by-AreOrdered :
      (l : List Migration) → AreApart l → AreOrdered (sort_by (before checksum_of) l)
  unfolding sort_by
  sort_by-AreOrdered [] h = tt
  sort_by-AreOrdered (m ∷ l) h =
      insert_sorted-AreOrdered m (sort_by (before checksum_of) l) (sort_by-AreOrdered l h.1)
        (All-sort_by (λ n. n.version ≢ m.version) l h.0)

  -- The migration is that of the file.
  pub record IsRead (e : Entry) (m : Migration) : Type 0 where
    pub file : e.is_dir ≡ false
    pub digits : Bytes
    pub matched : find_digits e.name ≡ some digits
    pub version : version_of digits ≡ some m.version
    pub named : m.name ≡ e.name
    pub contents : e.contents ≡ some m.sql
    pub checksum : m.checksum ≡ checksum_of m.sql

  abbrev pub IsFrom : List Entry → Migration → Type 0
  IsFrom [] m = ⊥
  IsFrom (e ∷ more) m = IsRead e m ⊎ IsFrom more m

  abbrev pub HasRead : List Migration → Entry → Type 0
  HasRead [] e = ⊥
  HasRead (m ∷ more) e = IsRead e m ⊎ HasRead more e

  migration-IsRead :
      (seen : List ℕ) (e : Entry) (digits : Bytes) (m : Migration)
      → digits_of checksum_of e ≡ some digits
      → read_migration checksum_of seen e digits ≡ ok m
      → IsRead e m × (any (λ v. v == m.version) seen ≡ false)
  unfolding read_migration
  migration-IsRead seen e digits m matched h = elim (Option-cases (version_of digits)) [
    | inl bad ↦ absurd (ground arith)
    | inr (version, good) ↦ elim (Option-cases e.contents) [
      | inl lost ↦ absurd (ground arith)
      | inr (contents, read) ↦ (
        record {
          file = ground arith;
          digits = digits;
          matched = ground arith;
          version = ground arith;
          named = ground arith;
          contents = ground arith;
          checksum = ground arith;
        },
        ground arith,
      )
    ]
  ]

  -- What the loop has read, for the versions that were seen before.
  record IsCollected (seen : List ℕ) (entries : List Entry) (l : List Migration) : Type 0 where
    from : All (IsFrom entries) l
    kept : All (λ e. (digits_of checksum_of e ≡ none) ⊎ HasRead l e) entries
    apart : AreApart l
    fresh : All (λ m. any (λ v. v == m.version) seen ≡ false) l

  one_more :
      (seen : List ℕ) (e : Entry) (more : List Entry) (m : Migration) (l : List Migration)
      → IsRead e m
      → any (λ v. v == m.version) seen ≡ false
      → IsCollected (m.version ∷ seen) more l
      → IsCollected seen (e ∷ more) (m ∷ l)
  one_more seen e more m l read new h = record {
    from = (inl read, All-weaken (IsFrom more) (IsFrom (e ∷ more)) l (λ n f. inr f) h.from);
    kept = (
      inr (inl read),
      All-weaken (λ f. (digits_of checksum_of f ≡ none) ⊎ HasRead l f)
          (λ f. (digits_of checksum_of f ≡ none) ⊎ HasRead (m ∷ l) f) more
          (λ f k. elim k [ inl none_there ↦ inl none_there | inr there ↦ inr (inr there) ]) h.kept,
    );
    apart = (
      All-weaken (λ n. any (λ v. v == n.version) (m.version ∷ seen) ≡ false)
          (λ n. n.version ≢ m.version) l (λ n f. ground arith) h.fresh,
      h.apart,
    );
    fresh = (
      new,
      All-weaken (λ n. any (λ v. v == n.version) (m.version ∷ seen) ≡ false)
          (λ n. any (λ v. v == n.version) seen ≡ false) l (λ n f. ground arith) h.fresh,
    );
  }

  collected :
      (seen : List ℕ) (entries : List Entry) (l : List Migration)
      → read_all checksum_of seen entries ≡ ok l
      → IsCollected seen entries l
  unfolding read_all
  collected seen [] [] e = record { from = tt; kept = tt; apart = tt; fresh = tt }
  collected seen [] (m ∷ l) e = absurd (ground arith)
  collected seen (f ∷ more) l e = elim (Option-cases (digits_of checksum_of f)) [
    | inl skipped ↦
        let h = collected seen more l (ground arith) in
        record {
          from = All-weaken (IsFrom more) (IsFrom (f ∷ more)) l (λ n g. inr g) h.from;
          kept = (inl skipped, h.kept);
          apart = h.apart;
          fresh = h.fresh;
        }
    | inr (digits, matched) ↦ elim (Result-cases (read_migration checksum_of seen f digits)) [
      | inr (error, bad) ↦ absurd (ground arith)
      | inl (m, done) ↦ elim (Result-cases (read_all checksum_of (m.version ∷ seen) more)) [
        | inr (error, bad) ↦ absurd (ground arith)
        | inl (rest, all) ↦
            let (read, new) = migration-IsRead seen f digits m matched done in
            let h =
              one_more seen f more m rest read new (collected (m.version ∷ seen) more rest all) in
            let same : m ∷ rest ≡ l = ground arith in rw same at h
      ]
    ]
  ]

  HasRead-insert_sorted :
      (m : Migration) (l : List Migration) (e : Entry)
      → HasRead (m ∷ l) e
      → HasRead (insert_sorted (before checksum_of) m l) e
  unfolding insert_sorted
  HasRead-insert_sorted m [] e h = h
  HasRead-insert_sorted m (n ∷ l) e h = elim (Bool-cases (before checksum_of m n)) [
    | inl less ↦ rw less h
    | inr more ↦ rw more (elim h [
      | inl first ↦ inr (HasRead-insert_sorted m l e (inl first))
      | inr later ↦ elim later [
        | inl next ↦ inl next
        | inr rest ↦ inr (HasRead-insert_sorted m l e (inr rest))
      ]
    ])
  ]

  HasRead-sort_by :
      (l : List Migration) (e : Entry) → HasRead l e → HasRead (sort_by (before checksum_of) l) e
  unfolding sort_by
  HasRead-sort_by [] e h = elim h [ ]
  HasRead-sort_by (m ∷ l) e h =
      HasRead-insert_sorted m (sort_by (before checksum_of) l) e
        (elim h [ inl first ↦ inl first | inr later ↦ inr (HasRead-sort_by l e later) ])

  loaded :
      (entries : List Entry) (l : List Migration)
      → load checksum_of (some entries) ≡ ok l
      → (all : List Migration) × IsCollected [] entries all × (sort_by (before checksum_of) all ≡ l)
  unfolding load
  loaded entries l e = elim (Result-cases (read_all checksum_of [] entries)) [
    | inr (error, bad) ↦ absurd (ground arith)
    | inl (all, done) ↦ (all, collected [] entries all done, ground arith)
  ]

  -- The migrations that `Load` returns ascend strictly by version. Each is read from a file of the
  -- directory whose name matches the pattern, with the version that the name begins with; and each such
  -- file is among them.
  load-AreOrdered :
      (entries : List Entry) (l : List Migration)
      → load checksum_of (some entries) ≡ ok l
      → AreOrdered l
        × All (IsFrom entries) l
        × All (λ e. (digits_of checksum_of e ≡ none) ⊎ HasRead l e) entries
  load-AreOrdered entries l e =
      let (all, h, same) = loaded entries l e in
      let sorted : List Migration = sort_by (before checksum_of) all in
      let result : AreOrdered sorted
          × All (IsFrom entries) sorted
          × All (λ e. (digits_of checksum_of e ≡ none) ⊎ HasRead sorted e) entries =
        (
          sort_by-AreOrdered all h.apart,
          All-sort_by (IsFrom entries) all h.from,
          All-weaken (λ e. (digits_of checksum_of e ≡ none) ⊎ HasRead all e)
              (λ e. (digits_of checksum_of e ≡ none) ⊎ HasRead (sort_by (before checksum_of) all) e)
              entries
              (λ e k. elim k [
                | inl skipped ↦ inl skipped
                | inr there ↦ inr (HasRead-sort_by all e there)
              ])
              h.kept,
        ) in
      rw same at result

  IsNew-of : (v : ℕ) (l : List Migration) → All (λ n. v < n.version) l → IsNew v l
  IsNew-of v [] h = tt
  IsNew-of v (n ∷ l) h = ((λ same. omega (arith, h.0, same)), IsNew-of v l h.1)

  AreDistinct-of : (l : List Migration) → AreOrdered l → AreDistinct l
  AreDistinct-of [] h = tt
  AreDistinct-of (m ∷ l) h = (IsNew-of m.version l h.0, AreDistinct-of l h.1)

  -- What `Load` returned can be given to `Apply`: where that succeeds, each of the migrations is
  -- recorded with its checksum, and giving them again succeeds and changes nothing.
  pub apply-load :
      {Schema : Type 0} (execute : Bytes → Schema → Option Schema) (records : ℕ → Bool)
      (entries : List Entry) (l : List Migration) (has_pool : Bool) (f : Faults)
      (db : Database Schema)
      → load checksum_of (some entries) ≡ ok l
      → (apply execute records has_pool f l db).0 ≡ ok tt
      → let after = (apply execute records has_pool f l db).1 in
        All (IsApplied after.applied) l
        × (apply execute records has_pool f l after ≡ (ok tt, after))
  apply-load execute records entries l has_pool f db e done =
      let distinct = AreDistinct-of l ((load-AreOrdered entries l e).0) in
      (
        apply-IsApplied execute records has_pool f l db distinct done,
        apply_idempotent execute records has_pool f l db distinct done,
      )
