-- ===== src/Ldap/Reader/Lookup.antt =====
-- directory/ldap/reader.go, `GetUser`: which user is returned, and which outcome is observed.
use stumpfworks_framework.Base.{
  ◌≤◌, ◌≡◌, ◌≢◌, ◌↔◌, inl, inr, refl, Bool, true, false, List, [], ◌∷◌, Option, none, some, Bytes,
  length, is_empty, if◌then◌else◌, any, ◌==◌, arith, Result, ok, err, Option-cases, Bool-cases,
}
use stumpfworks_framework.Ldap.Reader.{
  Reader, User, LookupOutcome, success, not_found, ambiguous, canceled, timeout, unavailable,
  invalid_input, LookupStage, connect, bind, search, Entry, SearchResult, Directory, LookupError,
  unreachable, none_found, several_found, deadline_exceeded, context_canceled, no_context,
  bad_username, failed, user_of, pick, has_only_referrals, found, whole_seconds, user_filter,
  request_for, lookup_user, get_user, Ended, by_deadline, by_cancel,
}

-- The outcome that stands for an error, and only for it.
abbrev pub outcome_of : Result LookupError User → LookupOutcome
outcome_of (ok u) = success
outcome_of (err no_context) = invalid_input
outcome_of (err bad_username) = invalid_input
outcome_of (err unreachable) = unavailable
outcome_of (err none_found) = not_found
outcome_of (err several_found) = ambiguous
outcome_of (err deadline_exceeded) = timeout
outcome_of (err context_canceled) = canceled

module _ (valid_utf8 : Bytes → Bool) (trimmed : Bytes → Bytes) (escaped : Bytes → Bytes) where
  -- The user of the one entry that the directory has for this name.
  pub record IsFound (r : Reader) (d : Directory) (username : Bytes) (u : User) : Type 0 where
    pub valid : (length username ≤ 256) × (valid_utf8 username ≡ true)
    pub named : trimmed username ≢ []
    pub no_zero : any (λ c. c == 0) (trimmed username) ≡ false
    pub dialled : d.dials ≡ true
    pub bound : d.binds r.config.bind_dn r.config.bind_password ≡ true
    pub in_time : d.ended_at_search ≡ none
    pub answer : SearchResult
    pub answered :
        d.search (record {
          base_dn = r.config.base_dn;
          size_limit = 2;
          time_limit = whole_seconds r.config.timeout;
          filter = user_filter valid_utf8 trimmed escaped (trimmed username);
        })
        ≡ some answer
    pub entry : Entry
    pub only_entry : answer.entries ≡ entry ∷ []
    pub account : entry.account ≢ []
    pub user : u ≡ record {
      username = entry.account;
      display_name = if is_empty entry.display_name then entry.account else entry.display_name;
      dn = entry.dn;
      mail = entry.mail;
    }

  picked :
      (l : List Entry) (u : User)
      → (pick l).result ≡ ok u
      → (e : Entry) × (l ≡ e ∷ []) × (e.account ≢ []) × (u ≡ user_of e)
  unfolding pick
  picked [] u h = cc
  picked (e ∷ []) u h = (e, refl, ground arith, ground arith)
  picked (e ∷ f ∷ more) u h = cc

  pick_chosen : (e : Entry) → e.account ≢ [] → (pick (e ∷ [])).result ≡ ok (user_of e)
  unfolding pick
  pick_chosen e h = ground arith

  sound :
      (r : Reader) (d : Directory) (has_context : Bool) (username : Bytes) (u : User)
      → (get_user valid_utf8 trimmed escaped r d has_context username).result ≡ ok u
      → (has_context ≡ true) × IsFound r d username u
  unfolding get_user lookup_user found
  sound r d has_context username u e =
      elim (Option-cases (d.search (request_for valid_utf8 trimmed escaped r (trimmed username)))) [
        | inl failed ↦ absurd (ground arith)
        | inr (answer, answered) ↦
            let chosen : (pick answer.entries).result ≡ ok u = ground arith in
            let (entry, only_entry, account, user) = picked answer.entries u chosen in
            (
              ground arith,
              record {
                valid = (ground arith, ground arith);
                named = ground arith;
                no_zero = ground arith;
                dialled = ground arith;
                bound = ground arith;
                in_time = ground arith;
                answer = answer;
                answered = answered;
                entry = entry;
                only_entry = only_entry;
                account = account;
                user = user;
              },
            )
      ]

  found_only :
      (a : SearchResult) (e : Entry)
      → a.entries ≡ e ∷ []
      → e.account ≢ []
      → (found a).result ≡ ok (user_of e)
  unfolding found
  found_only a e only account = let chosen = pick_chosen e account in rw only chosen

  complete :
      (r : Reader) (d : Directory) (username : Bytes) (u : User)
      → IsFound r d username u
      → (get_user valid_utf8 trimmed escaped r d true username).result ≡ ok u
  unfolding get_user lookup_user
  complete r d username u h =
      let taken = found_only h.answer h.entry h.only_entry h.account in
      ground (
        arith, h.valid, h.named, h.no_zero, h.dialled, h.bound, h.in_time, h.answered, h.user,
        taken,
      )

  failed_observed :
      (ended : Option Ended) (s : LookupStage)
      → (failed ended s).observed.outcome ≡ outcome_of (failed ended s).result
  failed_observed none s = refl
  failed_observed (some by_deadline) s = refl
  failed_observed (some by_cancel) s = refl

  pick_observed : (l : List Entry) → (pick l).observed.outcome ≡ outcome_of (pick l).result
  unfolding pick
  pick_observed [] = refl
  pick_observed (e ∷ []) = ground arith
  pick_observed (e ∷ f ∷ more) = refl

  found_observed : (a : SearchResult) → (found a).observed.outcome ≡ outcome_of (found a).result
  unfolding found
  found_observed a = elim (Bool-cases (has_only_referrals a)) [
    | inl only ↦ rw only refl
    | inr other ↦ rw other (pick_observed a.entries)
  ]

  lookup_observed :
      (r : Reader) (d : Directory) (username : Bytes)
      → (lookup_user valid_utf8 trimmed escaped r d username).observed.outcome
        ≡ outcome_of (lookup_user valid_utf8 trimmed escaped r d username).result
  unfolding lookup_user
  lookup_observed r d username = elim (Bool-cases d.dials) [
    | inr refused ↦ rw refused (failed_observed d.ended_at_dial connect)
    | inl dialled ↦ elim (Bool-cases (d.binds r.config.bind_dn r.config.bind_password)) [
      | inr refused ↦ rw (dialled, refused) (failed_observed d.ended_at_bind bind)
      | inl bound ↦ elim (Option-cases d.ended_at_search) [
        | inr (ended, late) ↦ rw (dialled, bound, late) (failed_observed (some ended) search)
        | inl in_time ↦
            elim (Option-cases (d.search (request_for valid_utf8 trimmed escaped r username))) [
              | inl lost ↦ rw (dialled, bound, in_time, lost) refl
              | inr (answer, answered) ↦
                  rw (dialled, bound, in_time, answered) (found_observed answer)
            ]
      ]
    ]
  ]

  observed :
      (r : Reader) (d : Directory) (has_context : Bool) (username : Bytes)
      → (get_user valid_utf8 trimmed escaped r d has_context username).observed.outcome
        ≡ outcome_of (get_user valid_utf8 trimmed escaped r d has_context username).result
  unfolding get_user
  observed r d has_context username = ground (arith, lookup_observed r d (trimmed username))

  -- `GetUser` returns a user exactly if it has a context and the directory, asked in time over a bound
  -- connection for the trimmed name, a valid one of at most 256 bytes, answers with one entry that has
  -- an account name: that entry's. In each case the outcome observed is the one that stands for what
  -- is returned.
  pub get_user_iff :
      (r : Reader) (d : Directory) (has_context : Bool) (username : Bytes)
      → let looked = get_user valid_utf8 trimmed escaped r d has_context username in
        ((u : User) → (looked.result ≡ ok u) ↔ ((has_context ≡ true) × IsFound r d username u))
        × (looked.observed.outcome ≡ outcome_of looked.result)
  get_user_iff r d has_context username = (
    λ u. (sound r d has_context username u, λ (given, h). rw given (complete r d username u h)),
    observed r d has_context username,
  )
