-- ===== src/Audit/Store/Kept.antt =====
-- audit/postgres/store.go, `Append`: which events are stored, and that they stay.
use stumpfworks_framework.Base.{
  ◌≡◌, ◌≢◌, ◌↔◌, ◌⊎◌, inl, inr, refl, Bool, true, false, List, [], ◌∷◌, Option, none, some, Bytes,
  Bytes-discrete, lookup, insert, lookup-insert, ok, arith, Option-cases, Result-cases, Bool-cases,
}
use stumpfworks_framework.Audit.{Json, Event, validate, is_result}
use stumpfworks_framework.Audit.Metadata.{IsAcceptable, validate-IsAcceptable}
use stumpfworks_framework.Audit.Store.{
  Row, Table, Ending, acknowledged, refused, lost, Server, kept_row, row_of, insert_row, append,
  append_all,
}

abbrev pub find : Bytes → Table → Option Row
find id table = lookup Bytes-discrete id table

-- What is there stays there.
abbrev pub Keeps : Table → Table → Type 0
Keeps table after = (id : Bytes) (row : Row) → find id table ≡ some row → find id after ≡ some row

ending_cases : (e : Ending) → (e ≡ acknowledged) ⊎ (e ≡ refused) ⊎ (e ≡ lost)
ending_cases acknowledged = inl refl
ending_cases refused = inr (inl refl)
ending_cases lost = inr (inr refl)

-- The `INSERT` leaves the table, or adds the converted row, and is then acknowledged or lost.
insert_row_cases :
    (server : Server) (row : Row) (table : Table)
    → (insert_row server row table ≡ (false, table))
      ⊎ ((json : Bytes) × (server.to_jsonb row.metadata ≡ some json)
          × (find row.id table ≡ none)
          × (let after = insert Bytes-discrete row.id (kept_row server row json) table in
              ((insert_row server row table ≡ (true, after)) × (server.ending row ≡ acknowledged))
              ⊎ ((insert_row server row table ≡ (false, after)) × (server.ending row ≡ lost))))
unfolding insert_row
insert_row_cases server row table = elim (Option-cases (server.to_jsonb row.metadata)) [
  | inl bad ↦ rw (insert_row, bad) (inl refl)
  | inr (json, converted) ↦ elim (Option-cases (find row.id table)) [
    | inr (old, there) ↦ rw (insert_row, converted, there) (inl refl)
    | inl free ↦ elim (Bool-cases (is_result row.result)) [
      | inr odd ↦ rw (insert_row, converted, free, odd) (inl refl)
      | inl fine ↦ elim (ending_cases (server.ending row)) [
        | inl taken ↦
            rw (insert_row, converted, free, fine, taken) (inr (json, refl, refl, inl (refl, refl)))
        | inr (inl rejected) ↦ rw (insert_row, converted, free, fine, rejected) (inl refl)
        | inr (inr unheard) ↦
            rw (insert_row, converted, free, fine, unheard)
              (inr (json, refl, refl, inr (refl, refl)))
      ]
    ]
  ]
]

insert_row_complete :
    (server : Server) (row : Row) (table : Table) (json : Bytes)
    → server.to_jsonb row.metadata ≡ some json
    → find row.id table ≡ none
    → is_result row.result ≡ true
    → server.ending row ≡ acknowledged
    → insert_row server row table
      ≡ (true, insert Bytes-discrete row.id (kept_row server row json) table)
unfolding insert_row
insert_row_complete server row table json converted free fine taken =
    rw (insert_row, converted, free, fine, taken) refl

-- A row more, under a new ID.
insert-Keeps :
    (row : Row) (id : Bytes) (table after : Table)
    → find id table ≡ none
    → after ≡ insert Bytes-discrete id row table
    → Keeps table after
insert-Keeps row id table after free same other there found =
    let law = lookup-insert Bytes-discrete other id row table in rw same (ground arith)

insert-found :
    (row : Row) (id : Bytes) (table after : Table)
    → after ≡ insert Bytes-discrete id row table
    → find id after ≡ some row
insert-found row id table after same =
    let law = lookup-insert Bytes-discrete id id row table in rw same (ground arith)

module _ {M : Type 0} (lower : Bytes → Bytes) (valid_utf8 : Bytes → Bool)
    (marshal : M → Option Bytes) (unmarshal : Bytes → Option Json) (server : Server) where
  -- The event can be stored: it is acceptable, its ID is new, jsonb takes its metadata, and the answer
  -- of the server comes.
  pub record IsStorable (e : Event M) (table : Table) : Type 0 where
    pub acceptable : IsAcceptable lower valid_utf8 marshal unmarshal e
    pub fresh : find e.id table ≡ none
    pub json : Bytes
    pub converted : server.to_jsonb acceptable.encoded ≡ some json
    pub taken : server.ending (row_of e acceptable.encoded) ≡ acknowledged

  -- The event was stored, as its columns keep it, and nothing else has changed.
  pub record IsStored (e : Event M) (table after : Table) : Type 0 where
    pub acceptable : IsAcceptable lower valid_utf8 marshal unmarshal e
    pub fresh : find e.id table ≡ none
    pub json : Bytes
    pub converted : server.to_jsonb acceptable.encoded ≡ some json
    pub stored :
        after
        ≡ insert Bytes-discrete e.id (kept_row server (row_of e acceptable.encoded) json) table

  -- A call changes nothing and fails, or stores the event, and is then acknowledged or lost.
  append_cases :
      (e : Event M) (table : Table)
      → let run = append lower valid_utf8 marshal unmarshal server e table in
        ((run.0 ≢ ok tt) × (run.1 ≡ table))
        ⊎ ((h : IsStored e table run.1) × (((run.0 ≡ ok tt)
                × (server.ending (row_of e h.acceptable.encoded) ≡ acknowledged))
              ⊎ ((run.0 ≢ ok tt) × (server.ending (row_of e h.acceptable.encoded) ≡ lost))))
  unfolding append
  append_cases e table = elim (Result-cases (validate lower valid_utf8 marshal unmarshal e)) [
    | inr (reason, bad) ↦ rw (append, bad) (inl (λ x. cc, refl))
    | inl (u, valid) ↦
        let h = (validate-IsAcceptable lower valid_utf8 marshal unmarshal e).0 valid in
        elim (insert_row_cases server (row_of e h.encoded) table) [
          | inl same ↦ rw (append, valid, h.marshalled, same) (inl (λ x. cc, refl))
          | inr (json, converted, free, inl (done, taken)) ↦
              rw (append, valid, h.marshalled, done)
                (inr (
                  record {
                    acceptable = h;
                    fresh = free;
                    json = json;
                    converted = converted;
                    stored = refl;
                  },
                  inl (refl, taken),
                ))
          | inr (json, converted, free, inr (failed, unheard)) ↦
              rw (append, valid, h.marshalled, failed)
                (inr (
                  record {
                    acceptable = h;
                    fresh = free;
                    json = json;
                    converted = converted;
                    stored = refl;
                  },
                  inr (λ x. cc, unheard),
                ))
        ]
  ]

  append-Keeps :
      (e : Event M) (table : Table)
      → Keeps table (append lower valid_utf8 marshal unmarshal server e table).1
  append-Keeps e table id row there = elim (append_cases e table) [
    | inl (failed, same) ↦ rw same there
    | inr (h, ends) ↦
        insert-Keeps (kept_row server (row_of e h.acceptable.encoded) h.json) e.id table _ h.fresh
          h.stored id row there
  ]

  append_all-Keeps :
      (events : List (Event M)) (table : Table)
      → Keeps table (append_all lower valid_utf8 marshal unmarshal server events table)
  unfolding append_all
  append_all-Keeps [] table id row there = there
  append_all-Keeps (e ∷ more) table id row there =
      append_all-Keeps more _ id row (append-Keeps e table id row there)

  append_complete :
      (e : Event M) (table : Table)
      → IsStorable e table
      → (append lower valid_utf8 marshal unmarshal server e table).0 ≡ ok tt
  unfolding append
  append_complete e table h =
      let valid = (validate-IsAcceptable lower valid_utf8 marshal unmarshal e).1 h.acceptable in
      let result : is_result e.result ≡ true = ground (arith, h.acceptable.outcome) in
      let inserted =
        insert_row_complete server (row_of e h.acceptable.encoded) table h.json h.converted h.fresh
          result h.taken in
      rw (append, valid, h.acceptable.marshalled, inserted) refl

  -- `Append` returns nil exactly for an acceptable event whose ID no stored event has, whose metadata
  -- jsonb takes, and for whose row the server's answer comes: the table's constraint on the result
  -- never refuses one. Then the table has the event more, as its columns keep it. Where `Append` does
  -- not return nil, the table is as it was, or the server has stored such an event and its answer was
  -- lost.
  pub append_iff :
      (e : Event M) (table : Table)
      → let run = append lower valid_utf8 marshal unmarshal server e table in
        ((run.0 ≡ ok tt) ↔ IsStorable e table)
        × (run.0 ≡ ok tt → IsStored e table run.1)
        × (run.0 ≢ ok tt
            → (run.1 ≡ table)
              ⊎ ((h : IsStored e table run.1) × (server.ending (row_of e h.acceptable.encoded)
                    ≡ lost)))
  append_iff e table = elim (append_cases e table) [
    | inl (failed, same) ↦ (
      (λ done. absurd (failed done), append_complete e table),
      λ done. absurd (failed done),
      λ x. inl same,
    )
    | inr (h, inl (done, taken)) ↦ (
      (
        λ x. record {
          acceptable = h.acceptable;
          fresh = h.fresh;
          json = h.json;
          converted = h.converted;
          taken = taken;
        },
        append_complete e table,
      ),
      λ x. h,
      λ failed. absurd (failed done),
    )
    | inr (h, inr (failed, unheard)) ↦ (
      (λ done. absurd (failed done), append_complete e table),
      λ done. absurd (failed done),
      λ x. inr (h, unheard),
    )
  ]

  -- An event that `Append` has returned nil for is found under its ID whatever is appended afterwards,
  -- with its texts as they were, the time as timestamptz keeps it, and the JSON of its metadata as
  -- jsonb keeps it.
  pub append_lasts :
      (e : Event M) (table : Table) (later : List (Event M))
      → let run = append lower valid_utf8 marshal unmarshal server e table in
        run.0 ≡ ok tt
        → (encoded json : Bytes) × (marshal e.metadata ≡ some encoded)
          × (server.to_jsonb encoded ≡ some json)
          × (find e.id (append_all lower valid_utf8 marshal unmarshal server later run.1)
              ≡ some (record {
                id = e.id;
                timestamp = server.to_timestamptz e.timestamp;
                actor = e.actor;
                action = e.action;
                resource = e.resource;
                result = e.result;
                correlation_id = e.correlation_id;
                metadata = json;
              }))
  append_lasts e table later done = elim (append_cases e table) [
    | inl (failed, same) ↦ absurd (failed done)
    | inr (h, ends) ↦ (
      h.acceptable.encoded,
      h.json,
      h.acceptable.marshalled,
      h.converted,
      append_all-Keeps later _ e.id _ (
          insert-found (kept_row server (row_of e h.acceptable.encoded) h.json) e.id table _
            h.stored),
    )
  ]
