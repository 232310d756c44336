-- ===== src/Authz/Sets.antt =====
-- authz/permissions.go: what `New` stores, and what `Has`, `HasAll` and `HasAny` answer.
use stumpfworks_framework.Base.{
  ◌+◌, ◌≤◌, ◌≡◌, refl, ◌⊎◌, ◌↔◌, true, List, [], ◌∷◌, arith, Bytes, Bytes-discrete, length, All,
  lookup, insert, lookup-insert, length-insert-le, ok, bind-eq-ok,
}
use stumpfworks_framework.Authz.{
  Set, parse, add_all, new, has, has_all, has_any, len, max_permission,
}
use stumpfworks_framework.Authz.Grammar.{IsKey, parse-IsKey}

-- `p` is one of the listed values.
abbrev pub IsListed : Bytes → List Bytes → Type 0
IsListed p [] = ⊥
IsListed p (v ∷ vs) = (p ≡ v) ⊎ IsListed p vs

abbrev pub Holds : Set → Bytes → Type 0
Holds s p = has s p ≡ true

Holds-insert :
    (m : List (Bytes × Unit {0})) (v p : Bytes)
    → Holds (record { values = insert Bytes-discrete v tt m }) p
      ↔ ((p ≡ v) ⊎ Holds (record { values = m }) p)
unfolding has
Holds-insert m v p = ground (arith, lookup-insert Bytes-discrete p v tt m)

add_all-Holds :
    (m : List (Bytes × Unit {0})) (values : List Bytes) (s : Set) (p : Bytes)
    → add_all m values ≡ ok s
    → Holds s p ↔ (IsListed p values ⊎ Holds (record { values = m }) p)
unfolding add_all
add_all-Holds m [] s p e = ground arith
add_all-Holds m (v ∷ vs) s p e =
    let (q, parsed, rest) = bind-eq-ok (parse v) _ e in
    let same = ((parse-IsKey v q).0 parsed).0 in
    let ih = add_all-Holds (insert Bytes-discrete q tt m) vs s p rest in
    ground (arith, ih, same, Holds-insert m q p)

-- A set that `New` returns has exactly the listed permissions: no wildcard, no hierarchy.
new-Holds :
    (values : List Bytes) (s : Set) (p : Bytes) → new values ≡ ok s → Holds s p ↔ IsListed p values
unfolding new has lookup
new-Holds values s p e = ground (arith, add_all-Holds [] values s p)

add_all_total :
    (m : List (Bytes × Unit {0})) (values : List Bytes)
    → All IsKey values
    → (s : Set) × (add_all m values ≡ ok s)
unfolding add_all
add_all_total m [] h = (record { values = m }, refl)
add_all_total m (v ∷ vs) (key, h) =
    let (s, e) = add_all_total (insert Bytes-discrete v tt m) vs h in
    (s, rw ((parse-IsKey v v).1 (refl, key)) e)

add_all_keys :
    (m : List (Bytes × Unit {0})) (values : List Bytes) (s : Set)
    → add_all m values ≡ ok s
    → All IsKey values
unfolding add_all
add_all_keys m [] s e = tt
add_all_keys m (v ∷ vs) s e =
    let (q, parsed, rest) = bind-eq-ok (parse v) _ e in
    (((parse-IsKey v q).0 parsed).1, add_all_keys (insert Bytes-discrete q tt m) vs s rest)

-- `New` succeeds exactly on at most 256 values that are all permission keys.
new_total :
    (values : List Bytes)
    → ((s : Set) × (new values ≡ ok s)) ↔ ((length values ≤ max_permission) × All IsKey values)
unfolding new
new_total values = (
  λ r. ground (arith, add_all_keys [] values r.0),
  λ h. ((add_all_total [] values h.1).0, ground (arith, (add_all_total [] values h.1).1)),
)

add_all_len :
    (m : List (Bytes × Unit {0})) (values : List Bytes) (s : Set)
    → add_all m values ≡ ok s
    → len s ≤ length m + length values
unfolding add_all len
add_all_len m [] s e = ground arith
add_all_len m (v ∷ vs) s e =
    let (q, parsed, rest) = bind-eq-ok (parse v) _ e in
    let ih = add_all_len (insert Bytes-discrete q tt m) vs s rest in
    omega (arith, ih, length-insert-le Bytes-discrete q tt m)

has_all_iff :
    (s : Set) (required : List Bytes) → (has_all s required ≡ true) ↔ All (Holds s) required
unfolding has_all
has_all_iff s [] = ground arith
has_all_iff s (p ∷ more) = ground (arith, has_all_iff s more)

abbrev pub AnyHolds : (Bytes → Type 0) → List Bytes → Type 0
AnyHolds P [] = ⊥
AnyHolds P (p ∷ more) = P p ⊎ AnyHolds P more

has_any_iff :
    (s : Set) (required : List Bytes) → (has_any s required ≡ true) ↔ AnyHolds (Holds s) required
unfolding has_any
has_any_iff s [] = ground arith
has_any_iff s (p ∷ more) = ground (arith, has_any_iff s more)

All-IsListed :
    (values : List Bytes) (s : Set) (required : List Bytes)
    → new values ≡ ok s
    → All (Holds s) required ↔ All (λ p. IsListed p values) required
All-IsListed values s [] e = (λ h. tt, λ h. tt)
All-IsListed values s (p ∷ more) e =
    let here = new-Holds values s p e in
    let rest = All-IsListed values s more e in
    (λ h. (here.0 h.0, rest.0 h.1), λ h. (here.1 h.0, rest.1 h.1))

Any-IsListed :
    (values : List Bytes) (s : Set) (required : List Bytes)
    → new values ≡ ok s
    → AnyHolds (Holds s) required ↔ AnyHolds (λ p. IsListed p values) required
Any-IsListed values s [] e = (λ h. h, λ h. h)
Any-IsListed values s (p ∷ more) e =
    let here = new-Holds values s p e in
    let rest = Any-IsListed values s more e in ground (arith, here, rest)

-- `HasAll` is true exactly if each required permission is listed, `HasAny` exactly if one is, and
-- `Len` is at most the number of listed values and at most 256.
new_answers :
    (values required : List Bytes) (s : Set)
    → new values ≡ ok s
    → ((has_all s required ≡ true) ↔ All (λ p. IsListed p values) required)
      × ((has_any s required ≡ true) ↔ AnyHolds (λ p. IsListed p values) required)
      × (len s ≤ length values)
      × (len s ≤ max_permission)
unfolding new
new_answers values required s e =
    let all_iff = has_all_iff s required in
    let any_iff = has_any_iff s required in
    let listed = All-IsListed values s required e in
    let some_listed = Any-IsListed values s required e in
    (
      (λ h. listed.0 (all_iff.0 h), λ h. all_iff.1 (listed.1 h)),
      (λ h. some_listed.0 (any_iff.0 h), λ h. any_iff.1 (some_listed.1 h)),
      ground (arith, add_all_len [] values s),
      ground (arith, add_all_len [] values s),
    )
