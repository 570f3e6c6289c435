-- ===== src/ControlPlane/Routes/Laws.antt =====
-- Which changes of an application the API accepts, and what the interface's form loses.
use mathlib.Core.Option.{some-injective}
use mathlib.Core.List.{Memᴰ}
use mathlib.Core.List.Memᴰ.{head, tail}
use cesar_core.Base.{
  ℕ, ◌<◌, String, ◌≡◌, ◌⊎◌, refl, sym, ap, ◌∙◌, Bool, true, false, none, some, List, [], ◌∷◌, ◌==◌,
  ◌&&◌, arith, eq_iff, any, includes, Bool-cases, Option-cases, inl, inr,
}
use cesar_core.ControlPlane.Credentials.{Credential, unrevoked, active_credential_count}
use cesar_core.Frontend.Applications.{Entry}
use cesar_core.Frontend.Applications.Form.{EditBody, edit_body, edit_defaults}
use cesar_core.Frontend.Applications.Laws.{edit_body-fetch}
use cesar_core.ControlPlane.Registry.{
  Capability, ai, fetch, search, all_capabilities, active, Registry, Result, ok, err, Change, find,
  granted, get_quota, update_application,
}
use cesar_core.ControlPlane.Registry.Laws.{update_application_lem}
use cesar_core.ControlPlane.Routes.{
  capability_name, change_of, is_valid, parse_state, parse_update, done, within, stored,
  put_application, put_body,
}

stored-done :
    (m : Registry × Result (Unit {0})) (r' : Registry) → stored m ≡ (r', done) → m ≡ (r', ok tt)
unfolding stored
stored-done (r, ok tt) r' h = ground arith
stored-done (r, err e) r' h = ground arith

-- An accepted change reached the store.
pub put-stored :
    (legacy : Bool) (cs : List Credential) (id : String) (now : ℕ) (ch : Change) (r r' : Registry)
    → put_application legacy cs id now ch r ≡ (r', done)
    → update_application id now (within ch) r ≡ (r', ok tt)
unfolding put_application
put-stored legacy cs id now ch r r' h = elim (Option-cases (find id r.applications)) [
  | inl e ↦ absurd (ground arith)
  | inr (a, e) ↦ stored-done (update_application id now (within ch) r) r' (ground arith)
]

put-tests :
    (legacy : Bool) (cs : List Credential) (id : String) (now : ℕ) (ch : Change) (r r' : Registry)
    → put_application legacy cs id now ch r ≡ (r', done)
    → ch.state ≡ active
    → (any ch.capabilities all_capabilities ≡ true)
      × (((id ≡ "gg_oferta") × (legacy ≡ true)) ⊎ (0 < active_credential_count id cs))
unfolding put_application
put-tests legacy cs id now ch r r' h s = elim (Option-cases (find id r.applications)) [
  | inl e ↦ absurd (ground arith)
  | inr (a, e) ↦ ground (arith, eq_iff id "gg_oferta")
]

-- Where a key of an application is counted, there is one.
counted_key :
    (id : String) (cs : List Credential)
    → 0 < active_credential_count id cs
    → (key : Credential) × Memᴰ key cs × (key.application_id ≡ id) × (key.revoked_at ≡ none)
unfolding active_credential_count
counted_key id [] h = absurd (omega arith)
counted_key id (c ∷ cs) h = elim (Bool-cases (c.application_id == id && unrevoked c)) [
  | inl e ↦ (c, head refl, ground (arith, e, eq_iff c.application_id id), ground (arith, e))
  | inr e ↦
      let (key, inside, mine, unspent) = counted_key id cs (ground (arith, e, h)) in
      (key, tail inside, mine, unspent)
]

any_granted :
    (p : Capability → Bool) → any p all_capabilities ≡ true → (c : Capability) × (p c ≡ true)
any_granted p h = elim (Bool-cases (p ai)) [
  | inl e ↦ (ai, e)
  | inr not_ai ↦ elim (Bool-cases (p fetch)) [
    | inl e ↦ (fetch, e)
    | inr not_fetch ↦ (search, ground arith)
  ]
]

-- An accepted change to the active state leaves the application with a capability, every capability
-- of its with a positive quota, and a way to authenticate: the legacy credential, which is for
-- `gg_oferta`, or a key of the table that is of the application and is not revoked.
pub put_application-active :
    (legacy : Bool) (cs : List Credential) (id : String) (now : ℕ) (ch : Change) (r r' : Registry)
    → put_application legacy cs id now ch r ≡ (r', done)
    → ch.state ≡ active
    → ((c : Capability) × (granted id c r'.grants ≡ true))
      × ((c : Capability)
          → granted id c r'.grants ≡ true
          → (m : ℕ) × (get_quota id c r'.policies ≡ some m) × (0 < m))
      × (((id ≡ "gg_oferta") × (legacy ≡ true))
          ⊎ ((key : Credential) × Memᴰ key cs
              × (key.application_id ≡ id)
              × (key.revoked_at ≡ none)))
unfolding within
put_application-active legacy cs id now ch r r' h s =
    let (some_capability, way_in) = put-tests legacy cs id now ch r r' h s in
    let (c, chosen) = any_granted ch.capabilities some_capability in
    let (_, grants, quotas, _) =
      update_application_lem id now (within ch) r r' (put-stored legacy cs id now ch r r' h) in
    (
      (c, grants c ∙ chosen),
      (λ d g. let (m, pos, _, q) = quotas d (sym (grants d) ∙ g) in (m, q, pos)),
      elim way_in [ inl file ↦ inl file | inr some_key ↦ inr (counted_key id cs some_key) ],
    )

parse_update-capabilities :
    (fits : String → Bool) (body : EditBody) (ch : Change)
    → parse_update fits body ≡ some ch
    → (c : Capability) → ch.capabilities c ≡ includes body.capabilities (capability_name c)
unfolding parse_update change_of
parse_update-capabilities fits body ch h c = elim (Bool-cases (is_valid fits body)) [
  | inl fine ↦ elim (Option-cases (parse_state body.state)) [
    | inl e ↦ absurd (ground arith)
    | inr (s, e) ↦
        let read : parse_update fits body ≡ some (change_of body s) = ground (arith, fine, e) in
        ap (λ x. x.capabilities c) (some-injective ch (change_of body s) (sym h ∙ read))
  ]
  | inr bad ↦ absurd (ground arith)
]

no_fetch :
    (app : Entry)
    → includes (edit_body (edit_defaults app)).capabilities (capability_name fetch) ≡ false
unfolding capability_name
no_fetch app = edit_body-fetch app

-- Where the interface saves an application as its form opened, and the API accepts it, the
-- application no longer has the capability `fetch`, whether it had it or not.
pub put_body-edit-fetch :
    (fits : String → Bool) (legacy : Bool) (cs : List Credential) (now : ℕ) (app : Entry)
    (r r' : Registry)
    → put_body fits legacy cs app.id now (edit_body (edit_defaults app)) r ≡ (r', done)
    → granted app.id fetch r'.grants ≡ false
unfolding put_body within
put_body-edit-fetch fits legacy cs now app r r' h =
    elim (Option-cases (parse_update fits (edit_body (edit_defaults app)))) [
      | inl e ↦ absurd (ground arith)
      | inr (ch, e) ↦
          let (_, grants, _, _) =
            update_application_lem app.id now (within ch) r r'
              (put-stored legacy cs app.id now ch r r' (ground arith)) in
          grants fetch ∙ parse_update-capabilities fits _ ch e fetch ∙ no_fetch app
    ]
