-- ===== src/Oidc/Introspection/Active.antt =====
-- auth/oidc/introspection.go: when a token counts as active.
use stumpfworks_framework.Base.{
  ℕ, ◌+◌, ◌*◌, ◌≤◌, ◌<◌, ◌≡◌, ◌≢◌, ◌↔◌, ◌⊎◌, inl, inr, Bool, true, false, Option, some, [], Bytes,
  length, codes, arith, ok, pos, exceeds, Option-cases, Bool-cases, positive_cases, exceeds_cases,
  sym,
}
use stumpfworks_framework.Oidc.Transactions.{second, clock_skew}
use stumpfworks_framework.Oidc.Fetch.{Response}
use stumpfworks_framework.Oidc.Verify.{epoch_seconds}
use stumpfworks_framework.Oidc.Login.{max_code_bytes}
use stumpfworks_framework.Oidc.Introspection.{
  TokenStatus, TokenIntrospector, Answer, IntrospectionRequest, inactive, day, subject_ok, dates_ok,
  judge, ask, introspect,
}

module _ (send : IntrospectionRequest → ℕ → Option Response) (decode : Bytes → Option Answer)
    (equal_fold : Bytes → Bytes → Bool) where
  -- An answer that the token is active, for this client, and the status that it is turned into.
  pub record IsActive (now : ℕ) (i : TokenIntrospector) (a : Answer) (s : TokenStatus)
      : Type 0 where
    pub said : a.active ≡ true
    pub own_client : a.client_id ≡ i.client_id
    pub bearer : equal_fold a.token_type (codes "Bearer") ≡ true
    pub issued : ℕ
    pub expires : ℕ
    pub has_issued : a.issued_at ≡ pos issued
    pub has_expires : a.expires_at ≡ pos expires
    pub after_epoch : 0 < issued
    pub ordered : issued < expires
    pub begun : (epoch_seconds + issued) * second ≤ now + clock_skew
    pub not_expired : now < (epoch_seconds + expires) * second
    pub within_day : (epoch_seconds + expires) * second ≤ now + day
    pub named : a.subject ≢ []
    pub in_session : a.session_id ≢ []
    pub short : (length a.subject ≤ 1024) × (length a.session_id ≤ 1024) × (length a.scope ≤ 4096)
    pub status : s ≡ record {
      active = true;
      subject = a.subject;
      session_id = a.session_id;
      scope = a.scope;
      issued_at = (epoch_seconds + issued) * second;
      expires_at = (epoch_seconds + expires) * second;
    }

  judged :
      (now : ℕ) (i : TokenIntrospector) (a : Answer) (s : TokenStatus)
      → judge send decode equal_fold now i a ≡ ok s
      → ((a.active ≡ false) × (s ≡ inactive)) ⊎ IsActive now i a s
  unfolding judge subject_ok dates_ok
  judged now i a s e = elim (Bool-cases a.active) [
    | inr gone ↦ inl (gone, ground arith)
    | inl said ↦
        let (m, has_issued, after) = positive_cases a.issued_at (ground arith) in
        let later : exceeds a.expires_at (pos m) ≡ true = rw (sym has_issued) (ground arith) in
        let (n, has_expires, ordered) = exceeds_cases a.expires_at m later in
        inr (record {
          said = said;
          own_client = ground arith;
          bearer = ground arith;
          issued = m;
          expires = n;
          has_issued = has_issued;
          has_expires = has_expires;
          after_epoch = after;
          ordered = ordered;
          begun = ground arith;
          not_expired = ground arith;
          within_day = ground arith;
          named = ground arith;
          in_session = ground arith;
          short = (ground arith, ground arith, ground arith);
          status = ground arith;
        })
  ]

  judge-inactive :
      (now : ℕ) (i : TokenIntrospector) (a : Answer) (s : TokenStatus)
      → a.active ≡ false
      → s ≡ inactive
      → judge send decode equal_fold now i a ≡ ok s
  unfolding judge
  judge-inactive now i a s gone nothing = ground arith

  judge-IsActive :
      (now : ℕ) (i : TokenIntrospector) (a : Answer) (s : TokenStatus)
      → IsActive now i a s
      → judge send decode equal_fold now i a ≡ ok s
  unfolding judge subject_ok dates_ok
  judge-IsActive now i a s h =
      let issued = h.has_issued in
      let expires = h.has_expires in
      ground (
        arith, h.said, h.own_client, h.bearer, h.after_epoch, h.ordered, h.begun, h.not_expired,
        h.within_day, h.named, h.in_session, h.short, h.status,
      )

  -- `Introspect` returns a status exactly if there is a context, the token has 1 to 4096 bytes, and the
  -- issuer's answer was decoded and either says inactive, for the empty status, or is active. It is
  -- active if it says so, for this client and the token type Bearer by `EqualFold`, with a subject and a
  -- session of 1 to 1024 bytes each and a scope of at most 4096; issued after 1970, at most a minute in
  -- the future, and before its end, which lies after now and at most a day later. The status is then
  -- the answer's.
  pub introspect_iff :
      (now : ℕ) (i : TokenIntrospector) (has_context : Bool) (token : Bytes) (s : TokenStatus)
      → (introspect send decode equal_fold now (some i) has_context token ≡ ok s) ↔ (
          (has_context ≡ true)
          × (token ≢ [])
          × (length token ≤ max_code_bytes)
          × ((a : Answer) × (ask send decode equal_fold i token ≡ some a)
              × (((a.active ≡ false) × (s ≡ inactive)) ⊎ IsActive now i a s)))
  unfolding introspect
  introspect_iff now i has_context token s = (
    λ e. elim (Option-cases (ask send decode equal_fold i token)) [
      | inl unanswered ↦ absurd (ground arith)
      | inr (a, answered) ↦
          (ground arith, ground arith, ground arith, (a, answered, judged now i a s (ground arith)))
    ],
    λ (context, given, short, (a, answered, verdict)).
        let done : judge send decode equal_fold now i a ≡ ok s = elim verdict [
          | inl (gone, nothing) ↦ judge-inactive now i a s gone nothing
          | inr h ↦ judge-IsActive now i a s h
        ] in
        ground arith,
  )
