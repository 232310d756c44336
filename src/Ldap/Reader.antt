-- ===== src/Ldap/Reader.antt =====
-- directory/ldap/reader.go: the configuration of a reader, and `GetUser`. The LDAP library, net/url,
-- strconv and the text functions are parameters; the bytes below a connection are in `Ldap.Framing`.
-- Durations count nanoseconds.
pub mod Lookup
pub mod Tests
use stumpfworks_framework.Base.{
  ℕ, ◌+◌, ◌*◌, ◌/◌, ◌^◌, Bool, true, false, not, ◌&&◌, ◌||◌, List, [], ◌∷◌, ◌++◌, Option, none,
  some, Bytes, length, ltb, leb, eqb, any, ◌==◌, is_empty, codes, if◌then◌else◌, Result, ok, err,
  ◌>>=◌, ◌>>◌, or_fail, reject_if, ℤ, pos, negsuc, exceeds,
}

abbrev pub second : ℕ
second = 10 ^ 9

-- `Config`, less its observer and roots; whether there is an observer.
pub record ReaderConfig : Type 0 where
  pub url : Bytes
  pub base_dn : Bytes
  pub bind_dn : Bytes
  pub bind_password : Bytes
  pub timeout : ℤ
  pub has_observer : Bool

pub record Reader : Type 0 where
  pub config : ReaderConfig
  pub address : Bytes
  pub hostname : Bytes

pub record User : Type 0 where
  pub username : Bytes
  pub display_name : Bytes
  pub dn : Bytes
  pub mail : Bytes

pub data LookupOutcome : Type 0 where
  success not_found ambiguous canceled timeout unavailable invalid_input : LookupOutcome

pub data LookupStage : Type 0 where
  validation connect bind search result : LookupStage

-- What the observer is given, less the duration.
pub record LookupObservation : Type 0 where
  pub outcome : LookupOutcome
  pub stage : LookupStage

pub data ConfigError : Type 0 where
  too_large no_ldaps_url bad_port no_credentials bad_base_dn bad_timeout : ConfigError

-- The fields of a parsed URL that `New` reads; `hostname` and `port` are those of its methods.
pub record LdapUrl : Type 0 where
  pub scheme : Bytes
  pub hostname : Bytes
  pub port : Bytes
  pub has_user : Bool
  pub path : Bytes
  pub raw_query : Bytes
  pub force_query : Bool
  pub fragment : Bytes

abbrev pub url_ok : LdapUrl → Bool
url_ok u =
    eqb u.scheme (codes "ldaps")
    && not (is_empty u.hostname)
    && not u.has_user
    && is_empty u.path
    && is_empty u.raw_query
    && not u.force_query
    && is_empty u.fragment

abbrev pub port_of : LdapUrl → Bytes
port_of u = if is_empty u.port then codes "636" else u.port

abbrev pub port_ok : ℤ → Bool
port_ok p = not (exceeds (pos 1) p) && not (exceeds p (pos 65535))

abbrev pub is_zero : ℤ → Bool
is_zero (pos n) = n == 0
is_zero (negsuc n) = false

abbrev pub timeout_or_default : ℤ → ℤ
timeout_or_default t = if is_zero t then pos (8 * second) else t

abbrev pub timeout_ok : ℤ → Bool
timeout_ok t = not (exceeds (pos second) t) && not (exceeds t (pos (30 * second)))

module _ (parse_url : Bytes → Option LdapUrl) (parse_int : Bytes → Option ℤ) (dn_ok : Bytes → Bool)
    (join_host_port : Bytes → Bytes → Bytes) where
  -- `New`
  unfoldable pub new_reader : ReaderConfig → Result ConfigError Reader
  new_reader c = do
    reject_if
        (ltb 2048 (length c.url)
          || ltb 4096 (length c.base_dn)
          || ltb 4096 (length c.bind_dn)
          || ltb 4096 (length c.bind_password))
        too_large
    u ← or_fail (parse_url c.url) no_ldaps_url
    reject_if (not (url_ok u)) no_ldaps_url
    p ← or_fail (parse_int (port_of u)) bad_port
    reject_if (not (port_ok p)) bad_port
    reject_if (is_empty c.base_dn || is_empty c.bind_dn || is_empty c.bind_password) no_credentials
    reject_if (not (dn_ok c.base_dn)) bad_base_dn
    reject_if (not (timeout_ok (timeout_or_default c.timeout))) bad_timeout
    ok (record {
      config = record c { timeout = timeout_or_default c.timeout };
      address = join_host_port u.hostname (port_of u);
      hostname = u.hostname;
    })

pub data LookupError : Type 0 where
  no_context bad_username unreachable none_found several_found deadline_exceeded context_canceled :
      LookupError

-- Why the context of the lookup has ended.
pub data Ended : Type 0 where
  by_deadline by_cancel : Ended

pub record Entry : Type 0 where
  pub dn : Bytes
  pub account : Bytes
  pub display_name : Bytes
  pub mail : Bytes

-- `entries` and `referrals` of a search that has succeeded.
pub record SearchResult : Type 0 where
  pub entries : List Entry
  pub referrals : List Bytes

-- `int(Timeout.Seconds())`, for a timeout that is not negative, as `New` has tested.
abbrev pub whole_seconds : ℤ → ℕ
whole_seconds (pos n) = n / second
whole_seconds (negsuc n) = 0

-- A search request, by what the code puts in. The scope, the aliases and the attributes are fixed.
pub record SearchRequest : Type 0 where
  pub base_dn : Bytes
  pub size_limit : ℕ
  pub time_limit : ℕ
  pub filter : Bytes

-- One call's directory: whether each step succeeds, and whether the context has ended when the code
-- looks after it.
pub record Directory : Type 0 where
  pub dials : Bool
  pub ended_at_dial : Option Ended
  pub binds : Bytes → Bytes → Bool
  pub ended_at_bind : Option Ended
  pub search : SearchRequest → Option SearchResult
  pub ended_at_search : Option Ended

-- What a call returns, and what is observed of it at the end.
pub record Looked : Type 0 where
  pub result : Result LookupError User
  pub observed : LookupObservation

abbrev pub observe : LookupOutcome → LookupStage → LookupObservation
observe o s = record { outcome = o; stage = s }

-- A step that has failed: `ended` is `ctx.Err()`.
abbrev pub failed : Option Ended → LookupStage → Looked
failed none stage = record { result = err unreachable; observed = observe unavailable stage }
failed (some by_deadline) stage = record {
  result = err deadline_exceeded;
  observed = observe timeout stage;
}
failed (some by_cancel) stage = record {
  result = err context_canceled;
  observed = observe canceled stage;
}

abbrev pub user_of : Entry → User
user_of e = record {
  username = e.account;
  display_name = if is_empty e.display_name then e.account else e.display_name;
  dn = e.dn;
  mail = e.mail;
}

-- From `stage = StageResult` on, for the entries.
pub pick : List Entry → Looked
pick [] = record { result = err none_found; observed = observe not_found result }
pick (e ∷ []) =
    if is_empty e.account
    then record { result = err unreachable; observed = observe unavailable result }
    else record { result = ok (user_of e); observed = observe success result }
pick (e ∷ f ∷ more) = record { result = err several_found; observed = observe ambiguous result }

-- `len(result.Entries) == 0 && len(result.Referrals) > 0`
abbrev pub has_only_referrals : SearchResult → Bool
has_only_referrals r = length r.entries == 0 && ltb 0 (length r.referrals)

pub found : SearchResult → Looked
found r =
    if has_only_referrals r
    then record { result = err unreachable; observed = observe unavailable search }
    else pick r.entries

module _ (valid_utf8 : Bytes → Bool) (trimmed : Bytes → Bytes) (escaped : Bytes → Bytes) where
  -- `userFilter`
  abbrev pub user_filter : Bytes → Bytes
  user_filter username =
      codes
        "(&(objectCategory=person)(objectClass=user)(!(userAccountControl:1.2.840.113556.1.4.803:=2))(sAMAccountName="
      ++ (escaped username ++ codes "))")

  abbrev pub request_for : Reader → Bytes → SearchRequest
  request_for r username = record {
    base_dn = r.config.base_dn;
    size_limit = 2;
    time_limit = whole_seconds r.config.timeout;
    filter = user_filter username;
  }

  -- From the dialling on, for a trimmed username.
  pub lookup_user : Reader → Directory → Bytes → Looked
  lookup_user r d username =
      if not d.dials
      then failed d.ended_at_dial connect
      else if not (d.binds r.config.bind_dn r.config.bind_password)
      then failed d.ended_at_bind bind
      else elim d.ended_at_search [
        | some ended ↦ failed (some ended) search
        | none ↦ elim (d.search (request_for r username)) [
          | none ↦ failed none search
          | some answer ↦ found answer
        ]
      ]

  abbrev refused : LookupError → Looked
  refused e = record { result = err e; observed = observe invalid_input validation }

  unfoldable pub get_user : Reader → Directory → Bool → Bytes → Looked
  get_user r d has_context username =
      if not has_context
      then refused no_context
      else if ltb 256 (length username) || not (valid_utf8 username)
      then refused bad_username
      else if is_empty (trimmed username) || any (λ c. c == 0) (trimmed username)
      then refused bad_username
      else lookup_user r d (trimmed username)
