-- ===== src/Security/Admission.antt =====
-- Who the extractors of src/security.rs let in.
use mathlib.Core.Path.{subst}
use update_delivery_system.Prelude.{
  ℕ, ◌≡◌, ◌≢◌, refl, sym, ◌∙◌, ◌↔◌, ◌⊎◌, inl, inr, String, Bool, true, false, Option, none, some,
  Bool-cases, [], arith,
}
use update_delivery_system.Errors.{ok, err, unauthorized, forbidden}
use update_delivery_system.Auth.{Crates, ActorIdentity, owner_identity, verify_owner}
use update_delivery_system.Auth.Store.{Json, TokenStore, authenticate}
use update_delivery_system.Security.{
  Parts, Extracted, bearer, admin_auth, admin_bearer, admin_token, owner_auth, owner_bearer,
  owner_token, record_actor, disabled_events,
}

module _ (crates : Crates) (json : Json) (verifier : String) (auth : TokenStore json)
    (parts : Parts) where
  -- The actor as whom a request is let in on administrative routes.
  abbrev pub IsAdmitted : ActorIdentity → Type 0
  IsAdmitted actor =
      (token : String) × (bearer parts.authorization ≡ some token)
      × (((verify_owner crates token verifier ≡ true) × (actor ≡ owner_identity))
          ⊎ ((verify_owner crates token verifier ≡ false)
              × (authenticate crates json token auth ≡ some (actor, true))))

  admin_token_lem :
      (o : Option (ActorIdentity × Bool)) (actor : ActorIdentity)
      → ((admin_token crates json verifier auth parts o).result ≡ ok actor)
        ↔ (o ≡ some (actor, true))
  unfolding admin_token
  admin_token_lem none actor = (λ h. cc, λ h. cc)
  admin_token_lem (some (a, true)) actor = (λ h. ground arith, λ h. ground arith)
  admin_token_lem (some (a, false)) actor = (λ h. cc, λ h. ground arith)

  -- `IsAdmitted` at the token that the header holds.
  abbrev Admits : String → ActorIdentity → Type 0
  Admits token actor =
      ((verify_owner crates token verifier ≡ true) × (actor ≡ owner_identity))
      ⊎ ((verify_owner crates token verifier ≡ false)
          × (authenticate crates json token auth ≡ some (actor, true)))

  admits_lem :
      (token : String) (actor : ActorIdentity)
      → ((admin_bearer crates json verifier auth parts (some token)).result ≡ ok actor)
        ↔ Admits token actor
  unfolding admin_bearer
  admits_lem token actor =
      let (to, from) = admin_token_lem (authenticate crates json token auth) actor in
      elim (Bool-cases (verify_owner crates token verifier)) [
        | inl owner ↦ rw owner (λ h. inl (refl, cc), λ c. elim c [ inl p ↦ cc | inr p ↦ cc (p.0) ])
        | inr other ↦
            rw other (λ h. inr (refl, to h), λ c. elim c [ inl p ↦ cc (p.0) | inr p ↦ from p.1 ])
      ]

  admin_bearer_lem :
      (o : Option String) (actor : ActorIdentity)
      → bearer parts.authorization ≡ o
      → ((admin_bearer crates json verifier auth parts o).result ≡ ok actor) ↔ IsAdmitted actor
  admin_bearer_lem none actor e =
      unfold admin_bearer in (λ h. cc, λ h. absurd (let k = sym e ∙ h.1 in cc))
  admin_bearer_lem (some token) actor e =
      let (to, from) = admits_lem token actor in
      (
        λ h. (token, e, to h),
        λ (t, b, c).
            let known : some token ≡ some t = sym e ∙ b in
            let p : t ≡ token = cc in from (subst (λ u. Admits u actor) p c),
      )

-- An administrative request is let in as an actor exactly when its bearer token is the owner's, and
-- the actor is the owner, or it is an enabled administrator token, and the actor is that token's.
pub admin_auth_admits_iff :
    (crates : Crates) (json : Json) (verifier : String) (auth : TokenStore json) (parts : Parts)
    (actor : ActorIdentity)
    → ((admin_auth crates json verifier auth parts).result ≡ ok actor)
      ↔ IsAdmitted crates json verifier auth parts actor
unfolding admin_auth
admin_auth_admits_iff crates json verifier auth parts actor =
    admin_bearer_lem crates json verifier auth parts (bearer parts.authorization) actor refl

-- A refusal: it is an `unauthorized`, records no actor and emits an event.
abbrev pub IsRefused : Extracted ActorIdentity → Type 0
IsRefused x = (x.result ≡ err unauthorized) × (x.actor ≡ none) × (x.events ≢ [])

-- A request that is let in, silently, as the actor that is recorded.
abbrev pub IsLetIn : Parts → Extracted ActorIdentity → Type 0
IsLetIn parts x =
    (actor : ActorIdentity) × (x.result ≡ ok actor)
    × (x.actor ≡ record_actor parts actor)
    × (x.events ≡ [])

module _ (crates : Crates) (json : Json) (verifier : String) (auth : TokenStore json)
    (parts : Parts) where
  disabled_events-ne-nil : (o : Option ℕ) → disabled_events crates json verifier auth parts o ≢ []
  unfolding disabled_events
  disabled_events-ne-nil none h = cc
  disabled_events-ne-nil (some id) h = cc

  admin_token_outcome :
      (o : Option (ActorIdentity × Bool))
      → IsLetIn parts (admin_token crates json verifier auth parts o)
        ⊎ IsRefused (admin_token crates json verifier auth parts o)
  unfolding admin_token
  admin_token_outcome none = inr (refl, refl, λ h. cc)
  admin_token_outcome (some (a, true)) = inl (a, refl, refl, refl)
  admin_token_outcome (some (a, false)) = inr (refl, refl, disabled_events-ne-nil a.token_id)

  admin_bearer_outcome :
      (o : Option String)
      → IsLetIn parts (admin_bearer crates json verifier auth parts o)
        ⊎ IsRefused (admin_bearer crates json verifier auth parts o)
  unfolding admin_bearer
  admin_bearer_outcome none = inr (refl, refl, λ h. cc)
  admin_bearer_outcome (some token) = elim (Bool-cases (verify_owner crates token verifier)) [
    | inl owner ↦ rw owner (inl (owner_identity, refl, refl, refl))
    | inr other ↦ rw other (admin_token_outcome (authenticate crates json token auth))
  ]

  owner_token_lem :
      (o : Option (ActorIdentity × Bool))
      → ((owner_token crates json verifier auth parts o).result ≡ err forbidden) ↔ (o ≢ none)
  unfolding owner_token
  owner_token_lem none = (λ h. cc, λ h. absurd (h refl))
  owner_token_lem (some a) = (λ h e. cc, λ h. refl)

  owner_token-ne-ok :
      (o : Option (ActorIdentity × Bool)) (actor : ActorIdentity)
      → (owner_token crates json verifier auth parts o).result ≢ ok actor
  unfolding owner_token
  owner_token-ne-ok none actor h = cc
  owner_token-ne-ok (some a) actor h = cc

-- Every administrative request is either let in, with the actor recorded and no event, or refused as
-- `unauthorized`, with no actor recorded and at least one security event.
pub admin_auth_outcome :
    (crates : Crates) (json : Json) (verifier : String) (auth : TokenStore json) (parts : Parts)
    → IsLetIn parts (admin_auth crates json verifier auth parts)
      ⊎ IsRefused (admin_auth crates json verifier auth parts)
unfolding admin_auth
admin_auth_outcome crates json verifier auth parts =
    admin_bearer_outcome crates json verifier auth parts (bearer parts.authorization)

-- With a bearer token, an owner route lets in exactly the owner's token, and as the owner, and answers
-- `forbidden` exactly to the other tokens that the administrator store recognises, enabled or not.
pub owner_auth_admits_iff :
    (crates : Crates) (json : Json) (verifier : String) (auth : TokenStore json) (parts : Parts)
    (token : String) (actor : ActorIdentity)
    → bearer parts.authorization ≡ some token
    → (((owner_auth crates json verifier auth parts).result ≡ ok actor)
        ↔ ((verify_owner crates token verifier ≡ true) × (actor ≡ owner_identity)))
      × (((owner_auth crates json verifier auth parts).result ≡ err forbidden) ↔ (
          (verify_owner crates token verifier ≡ false)
          × (authenticate crates json token auth ≢ none)))
unfolding owner_auth owner_bearer
owner_auth_admits_iff crates json verifier auth parts token actor e =
    let (to, from) =
      owner_token_lem crates json verifier auth parts (authenticate crates json token auth) in
    let never =
      owner_token-ne-ok crates json verifier auth parts (authenticate crates json token auth)
        actor in
    elim (Bool-cases (verify_owner crates token verifier)) [
      | inl owner ↦ rw e (rw owner ((λ h. (refl, cc), λ c. cc (c.1)), (λ h. cc, λ c. cc (c.0))))
      | inr other ↦
          rw e
            (rw other ((λ h. absurd (never h), λ c. cc (c.0)), (λ h. (refl, to h), λ c. from c.1)))
    ]
