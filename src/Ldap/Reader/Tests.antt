-- ===== src/Ldap/Reader/Tests.antt =====
-- directory/ldap/reader_test.go: a configuration, and lookups of a user.
use stumpfworks_framework.Base.{
  ◌*◌, ◌≡◌, ◌↔◌, refl, Bool, true, false, List, [], ◌∷◌, ◌++◌, some, none, Option, Bytes,
  Bytes-discrete, codes, eqb, ok, err, ℤ, pos, negsuc, if◌then◌else◌,
}
use stumpfworks_framework.Ldap.Reader.{
  LdapUrl, ReaderConfig, Reader, User, second, new_reader, no_ldaps_url, bad_timeout, Entry,
  Directory, several_found, deadline_exceeded, by_deadline, user_of, pick, found, lookup_user,
  get_user,
}
use stumpfworks_framework.Ldap.Reader.Lookup.{IsFound, outcome_of, get_user_iff}

abbrev url : LdapUrl
url = record {
  scheme = codes "ldaps";
  hostname = codes "dc";
  port = [];
  has_user = false;
  path = [];
  raw_query = [];
  force_query = false;
  fragment = [];
}

abbrev parse_url : Bytes → Option LdapUrl
parse_url text = if eqb text (codes "ldaps://dc") then some url else none

abbrev parse_int : Bytes → Option ℤ
parse_int text = some (pos 636)

abbrev always : Bytes → Bool
always text = true

abbrev as_is : Bytes → Bytes
as_is text = text

abbrev join_host_port : Bytes → Bytes → Bytes
join_host_port host port = host ++ codes ":" ++ port

abbrev config : ReaderConfig
config = record {
  url = codes "ldaps://dc";
  base_dn = codes "dc=x";
  bind_dn = codes "cn=r";
  bind_password = codes "p";
  timeout = pos 0;
  has_observer = true;
}

abbrev reader : Reader
reader = record {
  config = record config { timeout = pos (8 * second) };
  address = codes "dc:636";
  hostname = codes "dc";
}

abbrev entry : Entry
entry = record { dn = codes "cn=a"; account = codes "a"; display_name = []; mail = [] }

abbrev directory : List Entry → Directory
directory entries = record {
  dials = true;
  ended_at_dial = none;
  binds = λ dn password. true;
  ended_at_bind = none;
  search = λ request. some (record { entries = entries; referrals = [] });
  ended_at_search = none;
}

code : Unit {0}
unfolding new_reader get_user lookup_user found pick Bytes-discrete
code = tt

builds : new_reader parse_url parse_int always join_host_port config ≡ ok reader
unfolding code
builds = refl

refuses_plain :
    new_reader parse_url parse_int always join_host_port (record config { url = codes "ldap://dc" })
    ≡ err no_ldaps_url
unfolding code
refuses_plain = refl

refuses_timeout :
    new_reader parse_url parse_int always join_host_port (record config { timeout = negsuc 0 })
    ≡ err bad_timeout
unfolding code
refuses_timeout = refl

finds_one :
    (get_user always as_is as_is reader (directory (entry ∷ [])) true (codes "a")).result
    ≡ ok (user_of entry)
unfolding code
finds_one = refl

finds_two :
    (get_user always as_is as_is reader (directory (entry ∷ entry ∷ [])) true (codes "a")).result
    ≡ err several_found
unfolding code
finds_two = refl

too_late :
    (get_user always as_is as_is reader
      (record (directory (entry ∷ [])) { ended_at_search = some by_deadline })
      true
      (codes "a")).result
    ≡ err deadline_exceeded
unfolding code
too_late = refl

get_user_iff_example :
    let looked = get_user always as_is as_is reader (directory (entry ∷ [])) true (codes "a") in
    ((u : User)
      → (looked.result ≡ ok u) ↔ (
          (true ≡ true) × IsFound always as_is as_is reader (directory (entry ∷ [])) (codes "a") u))
    × (looked.observed.outcome ≡ outcome_of looked.result)
get_user_iff_example =
    get_user_iff always as_is as_is reader (directory (entry ∷ [])) true (codes "a")
