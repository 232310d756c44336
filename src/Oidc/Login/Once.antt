-- ===== src/Oidc/Login/Once.antt =====
-- auth/oidc/login.go, `complete`: a transaction serves once, whatever calls there are.
use stumpfworks_framework.Base.{
  ℕ, ◌≡◌, refl, Bool, true, List, [], ◌∷◌, Option, none, some, err, arith, Option-cases, inl, inr,
}
use stumpfworks_framework.Oidc.Transactions.{Heap, mark_used}
use stumpfworks_framework.Oidc.Verify.{Jose}
use stumpfworks_framework.Oidc.Login.{
  LoginClient, Callback, Clock, Web, Outcome, login_failed, complete,
}
use stumpfworks_framework.Oidc.Login.Complete.{exchange-heap, consumed}

-- A call of `complete`: the outside of it, which includes the time, and its arguments.
pub record Call : Type 1 where
  pub jose : Jose
  pub web : Web
  pub clock : Clock
  pub clients : ℕ → LoginClient jose.Key
  pub client : Option ℕ
  pub has_context : Bool
  pub transaction : Option ℕ
  pub callback : Callback
  pub wants_token : Bool

abbrev pub outcome : Call → Heap → Outcome
outcome call heap =
    complete call.jose call.web call.clock call.clients heap call.client call.has_context
      call.transaction call.callback call.wants_token

-- Calls one after the other.
pub outcome_all : List Call → Heap → Heap
outcome_all [] heap = heap
outcome_all (call ∷ more) heap = outcome_all more (outcome call heap).heap

mark_used_keeps :
    (heap : Heap) (b a : ℕ) → (heap a).used ≡ true → ((mark_used heap b) a).used ≡ true
mark_used_keeps heap b a used = ground arith

-- A call on any transaction leaves those used that were.
outcome_keeps :
    (call : Call) (heap : Heap) (a : ℕ)
    → (heap a).used ≡ true
    → ((outcome call heap).heap a).used ≡ true
unfolding complete
outcome_keeps call heap a used = elim (Option-cases call.client) [
  | inl none_given ↦ rw (complete, none_given) used
  | inr (p, given) ↦ elim (Option-cases call.transaction) [
    | inl nothing_given ↦ rw (complete, given, nothing_given) used
    | inr (b, on) ↦
        let kept =
          exchange-heap call.jose call.web call.clock (call.clients p) (mark_used heap b) (heap b)
            call.callback call.wants_token in
        let marked = mark_used_keeps heap b a used in
        rw (complete, given, on) (ground (arith, kept, marked))
  ]
]

outcome_all_keeps :
    (calls : List Call) (heap : Heap) (a : ℕ)
    → (heap a).used ≡ true
    → ((outcome_all calls heap) a).used ≡ true
unfolding outcome_all
outcome_all_keeps [] heap a used = used
outcome_all_keeps (call ∷ more) heap a used =
    outcome_all_keeps more (outcome call heap).heap a (outcome_keeps call heap a used)

refused :
    (call : Call) (heap : Heap) (a : ℕ)
    → call.transaction ≡ some a
    → (heap a).used ≡ true
    → ((outcome call heap).result ≡ err login_failed) × ((outcome call heap).sent ≡ none)
unfolding complete
refused call heap a on used = elim (Option-cases call.client) [
  | inl none_given ↦ rw (complete, none_given) (refl, refl)
  | inr (p, given) ↦ rw (complete, given, on) (ground arith, ground arith)
]

-- Whatever a call of the transaction's own client with a context returns, it consumes the
-- transaction: after it and any further calls of `complete`, on whatever transactions, each call on
-- this one fails and sends nothing, and it stays used. The calls may be of different clients, with
-- different callbacks, at different times, and before different servers.
pub complete_once :
    (first : Call) (between : List Call) (again : Call) (heap : Heap) (p a : ℕ)
    → first.client ≡ some p
    → first.has_context ≡ true
    → first.transaction ≡ some a
    → (heap a).owner ≡ some p
    → again.transaction ≡ some a
    → let after = outcome_all between (outcome first heap).heap in
      ((outcome again after).result ≡ err login_failed)
      × ((outcome again after).sent ≡ none)
      × (((outcome again after).heap a).used ≡ true)
complete_once first between again heap p a own context on owned same =
    let used : ((outcome first heap).heap a).used ≡ true =
      rw (own, context, on)
        (consumed first.jose first.web first.clock first.clients heap p a first.callback
          first.wants_token owned) in
    let after = outcome_all between (outcome first heap).heap in
    let still = outcome_all_keeps between (outcome first heap).heap a used in
    let (failed, silent) = refused again after a same still in
    (failed, silent, outcome_keeps again after a still)
