-- ===== src/GrpcSecurity/Admits.antt =====
-- The interceptors admit the callers with an allowed identity.
use mathlib.Core.Path.{subst}
use mathlib.Core.List.{Memᴰ}
use mathlib.Core.List.Memᴰ
use mathlib.Core.List.Memᴰ.{head, tail}
use meme_launchpad_backend.Common.{
  ◌≡◌, ◌⊎◌, inl, inr, refl, sym, ◌∙◌, String, true, false, none, some, some-injective, List, [],
  ◌∷◌, Option-cases, Bool-cases, eq_iff, if◌then◌else◌, ◌==◌, string_eq, nat_eq,
}
use meme_launchpad_backend.Postgres.Table.{lookup, upsert, lookup-upsert}
use meme_launchpad_backend.GrpcSecurity.{
  Certificate, Context, Status, unauthenticated, permission_denied, refused, handled,
  client_certificate, certificate_identities, IdentitySet, identity_set, any_allowed,
  authorize_client, require_client_identity,
}

lookup-identity_set :
    (i : String) (xs : List String) (t : IdentitySet)
    → lookup i (identity_set xs t) ≡ some tt
    → Memᴰ i xs ⊎ (lookup i t ≡ some tt)
unfolding identity_set
lookup-identity_set i [] t h = inr h
lookup-identity_set i (x ∷ xs) t h = elim (lookup-identity_set i xs (upsert x tt (λ u. u) t) h) [
  | inl listed ↦ inl (tail listed)
  | inr before ↦ elim (Bool-cases (x == i)) [
    | inl same ↦ inl (head (sym ((eq_iff x i).0 same)))
    | inr other ↦ inr (rw other at (sym (lookup-upsert x i tt (λ u. u) t) ∙ before))
  ]
]

identity_set-keeps :
    (i : String) (xs : List String) (t : IdentitySet)
    → lookup i t ≡ some tt
    → lookup i (identity_set xs t) ≡ some tt
unfolding identity_set
identity_set-keeps i [] t h = h
identity_set-keeps i (x ∷ xs) t h =
    identity_set-keeps i xs (upsert x tt (λ u. u) t) (lookup-upsert x i tt (λ u. u) t ∙ covers)
  where
    covers : (if x == i then some tt else lookup i t) ≡ some tt
    covers = elim (Bool-cases (x == i)) [ inl same ↦ rw same refl | inr other ↦ rw other h ]

identity_set-has :
    (i : String) (xs : List String) (t : IdentitySet)
    → Memᴰ i xs
    → lookup i (identity_set xs t) ≡ some tt
unfolding identity_set
identity_set-has i [] t m = elim m [ ]
identity_set-has i (x ∷ xs) t (head e) =
    identity_set-keeps i xs (upsert x tt (λ u. u) t)
      (lookup-upsert x i tt (λ u. u) t ∙ rw ((eq_iff x i).1 (sym e)) refl)
identity_set-has i (x ∷ xs) t (tail m) = identity_set-has i xs (upsert x tt (λ u. u) t) m

-- an identity of a list that is allowed
abbrev pub Shares : List String → List String → Type 0
Shares allowed identities = (i : String) × Memᴰ i identities × Memᴰ i allowed

none_listed : (i : String) → ¬ (lookup {V = Unit {0}} i [] ≡ some tt)
unfolding lookup
none_listed i h = cc

any_allowed-cases :
    (allowed identities : List String)
    → ((any_allowed (identity_set allowed []) identities ≡ true) × Shares allowed identities)
      ⊎ ((any_allowed (identity_set allowed []) identities ≡ false)
          × ((i : String) → Memᴰ i identities → ¬ Memᴰ i allowed))
unfolding any_allowed
any_allowed-cases allowed [] = inr (refl, λ i m _. elim m [ ])
any_allowed-cases allowed (i ∷ identities) =
    elim (Option-cases (lookup i (identity_set allowed []))) [
      | inr (_, found) ↦
          let listed : Memᴰ i allowed = elim (lookup-identity_set i allowed [] found) [
            | inl m ↦ m
            | inr nowhere ↦ absurd (none_listed i nowhere)
          ] in
          inl (rw (found, any_allowed) refl, (i, head refl, listed))
      | inl missing ↦ elim (any_allowed-cases allowed identities) [
        | inl (later, (j, here, there)) ↦
            inl (rw (missing, any_allowed) later, (j, tail here, there))
        | inr (later, none_of) ↦ inr (rw (missing, any_allowed) later, not_first missing none_of)
      ]
    ]
  where
    not_first :
        lookup i (identity_set allowed []) ≡ none
        → ((j : String) → Memᴰ j identities → ¬ Memᴰ j allowed)
        → (j : String) → Memᴰ j (i ∷ identities)
        → ¬ Memᴰ j allowed
    not_first missing none_of j (tail m) listed = none_of j m listed
    not_first missing none_of j (head e) listed =
        let k = sym missing ∙ identity_set-has i allowed [] (Memᴰ.cast (sym e) listed) in cc

module _ {S A Request : Type 0} (allowed : List String) (ctx : Context)
    (handler : Request → S → A × S) where
  -- the caller has a certificate with an allowed identity
  abbrev pub Admitted : Type 0
  Admitted =
      (c : Certificate) × (client_certificate ctx ≡ some c)
      × Shares allowed (certificate_identities c)

  -- The interceptor runs the handler and returns what it returns just for the callers whose first
  -- certificate has an allowed identity; every other call is refused without a change of the state.
  pub require_client_identity-admits :
      (request : Request) (s : S)
      → (Admitted
          × (require_client_identity allowed ctx handler request s
              ≡ (handled (handler request s).0, (handler request s).1)))
        ⊎ ((¬ Admitted)
            × (status : Status) × (require_client_identity allowed ctx handler request s
                ≡ (refused status, s)))
  unfolding require_client_identity authorize_client
  require_client_identity-admits request s = elim (Option-cases (client_certificate ctx)) [
    | inl missing ↦ inr (
      (λ a. let k = sym missing ∙ a.1 in cc),
      unauthenticated "verified client certificate is required",
      rw (missing, require_client_identity) refl,
    )
    | inr (c, here) ↦ elim (any_allowed-cases allowed (certificate_identities c)) [
      | inl (found, shares) ↦ inl (
        (c, here, shares),
        rw (here, require_client_identity) (rw (found, require_client_identity) refl),
      )
      | inr (refusal, none_of) ↦ inr (
        stranger c here none_of,
        permission_denied "client service identity is not allowed",
        rw (here, require_client_identity) (rw (refusal, require_client_identity) refl),
      )
    ]
  ]
    where
      stranger :
          (c : Certificate)
          → client_certificate ctx ≡ some c
          → ((i : String) → Memᴰ i (certificate_identities c) → ¬ Memᴰ i allowed)
          → ¬ Admitted
      stranger c here none_of (c', here', (i, mine, listed)) =
          let same : c' ≡ c = some-injective (sym here' ∙ here) in
          none_of i (subst (λ d. Memᴰ i (certificate_identities d)) same mine) listed
