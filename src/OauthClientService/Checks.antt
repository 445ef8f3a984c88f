-- ===== src/OauthClientService/Checks.antt =====
-- `validate_client` and `create_client`: which clients pass, and that a new client does.
use codelab_auth_service.Common.{
  ℕ, String, ◌≡◌, ◌≢◌, ◌↔◌, ◌⊎◌, inl, inr, refl, sym, ap, ◌∙◌, Bool, true, false, Bool-cases,
  Option-cases, Option, none, some, [], ◌∷◌, ◌++◌, arith, select, scalar_one_or_none, truthy, ◌==◌,
  eq_iff, eq_refl, eq-false_of_ne,
}
use codelab_auth_service.Commands.{>>=-reply, >>=-raise}
use codelab_auth_service.OauthClient.{OauthClient, OauthClientCreate, ClientTable, clashes}
use codelab_auth_service.OauthClientService.{
  get_by_client_id, validate_client, check_client, check_secret, create_client, create_unless,
  new_client, secret_hash,
}

abbrev pub has_id : String → OauthClient → Bool
has_id client_id c = c.client_id == client_id

one_row :
    (xs : ClientTable) (c : OauthClient) → (scalar_one_or_none xs ≡ some (some c)) ↔ (xs ≡ c ∷ [])
one_row [] c = (λ h. cc h, λ h. cc h)
one_row (d ∷ []) c = (λ h. cc h, λ h. cc h)
one_row (d ∷ e ∷ xs) c = (λ h. cc h, λ h. cc h)

no_row : (xs : ClientTable) → scalar_one_or_none xs ≡ some none → xs ≡ []
no_row [] h = refl
no_row (d ∷ []) h = cc h
no_row (d ∷ e ∷ xs) h = cc h

select-last :
    (p : OauthClient → Bool) (xs : ClientTable) (c : OauthClient)
    → select p xs ≡ []
    → p c ≡ true
    → select p (xs ++ c ∷ []) ≡ c ∷ []
unfolding select
select-last p [] c h e = rw e refl
select-last p (x ∷ xs) c h e = ground (arith, select-last p xs c)

get_by_client_id-reply :
    (client_id : String) (clients : ClientTable) (found : Option (Option OauthClient))
    → scalar_one_or_none (select (has_id client_id) clients) ≡ found
    → get_by_client_id client_id clients ≡ (found, clients)
unfolding get_by_client_id
get_by_client_id-reply client_id clients found e = rw e refl

module _ (hash : String → String) (client_data : OauthClientCreate) (id : String) (clock : ℕ → ℕ)
    (clients : ClientTable) where
  create-reply :
      (found : Option OauthClient)
      → scalar_one_or_none (select (has_id client_data.client_id) clients) ≡ some found
      → create_client hash client_data id clock clients
        ≡ create_unless (new_client hash client_data id clock) found clients
  unfolding create_client
  create-reply found e =
      >>=-reply (get_by_client_id client_data.client_id)
        (create_unless (new_client hash client_data id clock)) clients clients found
        (get_by_client_id-reply client_data.client_id clients (some found) e)

  create-raise :
      scalar_one_or_none (select (has_id client_data.client_id) clients) ≡ none
      → create_client hash client_data id clock clients ≡ (none, clients)
  unfolding create_client
  create-raise e =
      >>=-raise (get_by_client_id client_data.client_id)
        (create_unless (new_client hash client_data id clock)) clients clients
        (get_by_client_id-reply client_data.client_id clients none e)

create_unless-made :
    (d : OauthClient) (found : Option OauthClient) (clients : ClientTable) (c : OauthClient)
    → (create_unless d found clients).0 ≡ some c
    → (found ≡ none) × (c ≡ d) × ((create_unless d found clients).1 ≡ clients ++ c ∷ [])
unfolding create_unless
create_unless-made d (some existing) clients c made = cc made
create_unless-made d none clients c made = elim (Bool-cases (clashes d clients)) [
  | inl e ↦ ground arith
  | inr e ↦ ground arith
]

-- How `create_client` can end with a client.
create_client-made :
    (hash : String → String) (client_data : OauthClientCreate) (id : String) (clock : ℕ → ℕ)
    (clients : ClientTable) (c : OauthClient)
    → (create_client hash client_data id clock clients).0 ≡ some c
    → (select (has_id client_data.client_id) clients ≡ [])
      × (c ≡ new_client hash client_data id clock)
      × ((create_client hash client_data id clock clients).1 ≡ clients ++ c ∷ [])
create_client-made hash client_data id clock clients c made =
    let d = new_client hash client_data id clock in
    elim (Option-cases (scalar_one_or_none (select (has_id client_data.client_id) clients))) [
      | inl e ↦
          let raised =
            ap (λ (r : Option OauthClient × ClientTable). r.0)
              (create-raise hash client_data id clock clients e) in
          cc (made, raised)
      | inr (found, e) ↦
          let reply = create-reply hash client_data id clock clients found e in
          let (nothing, is, rows) =
            create_unless-made d found clients c
              (sym (ap (λ (r : Option OauthClient × ClientTable). r.0) reply) ∙ made) in
          (
            no_row (select (has_id client_data.client_id) clients) (e ∙ ap some nothing),
            is,
            ap (λ (r : Option OauthClient × ClientTable). r.1) reply ∙ rows,
          )
    ]

-- The new client shows its own secret.
new-HasSecret :
    (hash : String → String) (verify : String → Option String → Option Bool)
    (secret : Option String)
    → ((s : String) → verify s (some (hash s)) ≡ some true)
    → truthy secret ≡ true
    → (s : String) × (secret ≡ some s) × (s ≢ "") × (verify s (secret_hash hash secret) ≡ some true)
new-HasSecret hash verify none agree known = cc known
new-HasSecret hash verify (some s) agree known =
    (s, refl, λ (empty : s ≡ ""). ground (arith, eq_iff s ""), ground (arith, agree s))

module _ (verify : String → Option String → Option Bool) where
  -- The client shows a secret that the test accepts.
  abbrev pub HasSecret : OauthClient → Option String → Type 0
  HasSecret c secret =
      (s : String) × (secret ≡ some s) × (s ≢ "") × (verify s c.client_secret_hash ≡ some true)

  check_client_iff :
      (found : Option OauthClient) (secret : Option String) (c : OauthClient)
      → (check_client verify secret found ≡ some (some c)) ↔ (
          (found ≡ some c)
          × (c.is_active ≡ true)
          × ((c.is_confidential ≡ false) ⊎ HasSecret c secret))
  unfolding check_client check_secret
  check_client_iff none secret c = (λ h. cc h, λ h. cc (h.0))
  check_client_iff (some d) none c =
      (λ h. (ground arith, ground arith, inl (ground arith)), λ h. ground arith)
  check_client_iff (some d) (some s) c = (
    λ h. (
      ground arith,
      ground arith,
      elim (Bool-cases c.is_confidential) [
        | inl e ↦ inr (s, refl, λ (empty : s ≡ ""). ground (arith, eq_iff s ""), ground arith)
        | inr e ↦ inl e
      ],
    ),
    λ h. elim h.2 [
      | inl e ↦ ground arith
      | inr (s', e, ne, ok) ↦ ground (arith, eq-false_of_ne s' "" ne)
    ],
  )

  validate-reply :
      (client_id : String) (secret : Option String) (clients : ClientTable)
      (found : Option OauthClient)
      → scalar_one_or_none (select (has_id client_id) clients) ≡ some found
      → validate_client verify client_id secret clients
        ≡ (check_client verify secret found, clients)
  unfolding validate_client
  validate-reply client_id secret clients found e =
      >>=-reply (get_by_client_id client_id) (λ f cs. (check_client verify secret f, cs)) clients
        clients found (get_by_client_id-reply client_id clients (some found) e)

  validate-raise :
      (client_id : String) (secret : Option String) (clients : ClientTable)
      → scalar_one_or_none (select (has_id client_id) clients) ≡ none
      → validate_client verify client_id secret clients ≡ (none, clients)
  unfolding validate_client
  validate-raise client_id secret clients e =
      >>=-raise (get_by_client_id client_id) (λ f cs. (check_client verify secret f, cs)) clients
        clients (get_by_client_id-reply client_id clients none e)

  -- A client is validated exactly if it is the one row of its identifier, is active, and, where it
  -- is confidential, shows a secret, not empty, that agrees with its hash.
  pub validate_client_iff :
      (client_id : String) (secret : Option String) (clients : ClientTable) (c : OauthClient)
      → ((validate_client verify client_id secret clients).0 ≡ some (some c)) ↔ (
          (select (has_id client_id) clients ≡ c ∷ [])
          × (c.is_active ≡ true)
          × ((c.is_confidential ≡ false) ⊎ HasSecret c secret))
  validate_client_iff client_id secret clients c =
      elim (Option-cases (scalar_one_or_none (select (has_id client_id) clients))) [
        | inl e ↦
            rw (validate-raise client_id secret clients e)
              (λ h. cc h, λ h. cc (ap scalar_one_or_none h.0, e))
        | inr (found, e) ↦ rw (validate-reply client_id secret clients found e) (
          λ h.
              let (is, active, secret_ok) = (check_client_iff found secret c).0 h in
              (
                (one_row (select (has_id client_id) clients) c).0 (e ∙ ap some is),
                active,
                secret_ok,
              ),
          λ h. (check_client_iff found secret c).1 (cc (ap scalar_one_or_none h.0, e), h.1, h.2),
        )
      ]

  -- If the test of passwords accepts every hash that is made: a client that has been created is
  -- validated from then on with the secret that it was created with, if it is public or that
  -- secret is given and not empty.
  pub create_then_validate :
      (hash : String → String) (client_data : OauthClientCreate) (id : String) (clock : ℕ → ℕ)
      (clients : ClientTable) (c : OauthClient)
      → ((s : String) → verify s (some (hash s)) ≡ some true)
      → (create_client hash client_data id clock clients).0 ≡ some c
      → (client_data.is_confidential ≡ false) ⊎ (truthy client_data.client_secret ≡ true)
      → (validate_client verify client_data.client_id client_data.client_secret
          (create_client hash client_data id clock clients).1).0
        ≡ some (some c)
  create_then_validate hash client_data id clock clients c agree made known =
      let (free, is, rows) = create_client-made hash client_data id clock clients c made in
      (validate_client_iff client_data.client_id client_data.client_secret
          (create_client hash client_data id clock clients).1 c).1
        (
          rw rows (
              select-last (has_id client_data.client_id) clients c free
                (ap (has_id client_data.client_id) is ∙ eq_refl client_data.client_id)),
          ap (λ (x : OauthClient). x.is_active) is,
          elim known [
            | inl public ↦ inl (ap (λ (x : OauthClient). x.is_confidential) is ∙ public)
            | inr given ↦
                inr (rw is (new-HasSecret hash verify client_data.client_secret agree given))
          ],
        )
