-- ===== src/Auth/Registered.antt =====
-- A client that was registered, as the later requests see it.
use aver.Prelude.{
  ℕ, true, Option, none, some, List, [], ◌∷◌, find, ◌≡◌, refl, ap, ◌∙◌, arith, list_eq, nat_eq,
  find-insert, ==_refl, ◌==◌, not, Bool-cases, inl, inr, sym,
}
use aver.Text.{all_whitespace}
use aver.Auth.{Text, Crates, RegisteredClient, AuthDb, done, ensure-done, text_agrees}
use aver.Auth.Clients.{
  redirect_uri_allowed, all_allowed, is_empty, aver_id, insert_client, register_client, client_from,
  get_client, lists_uri, allows, client_allows_redirect_uri,
}

lists-allowed :
    (c : Crates) (uris : List Text) (uri : Text)
    → all_allowed c uris ≡ true
    → lists_uri uri uris ≡ true
    → redirect_uri_allowed c uri ≡ true
unfolding all_allowed lists_uri
lists-allowed c [] uri all h = cc h
lists-allowed c (u ∷ uris) uri all h = elim (Bool-cases (u == uri)) [
  | inl same ↦ rw (sym ((text_agrees u uri).0 same)) (ground (arith, all))
  | inr other ↦ lists-allowed c uris uri (ground (arith, all)) (ground (arith, h))
]

insert_client-done :
    (c : Crates) (db : AuthDb) (id name : Text) (uris : List Text) (now : ℕ) (json : Option Text)
    (client : RegisteredClient)
    → c.to_json uris ≡ json
    → ((t : Text) → c.to_json uris ≡ some t → c.from_json t ≡ some uris)
    → (insert_client db id name uris now json).0 ≡ done client
    → (client.client_id ≡ id)
      × (client_from c id (find id (insert_client db id name uris now json).1.clients)
          ≡ done (some (record { client_id = id; client_name = name; redirect_uris = uris })))
insert_client-done c db id name uris now none client j trip h = cc h
insert_client-done c db id name uris now (some json) client j trip h =
    let (_, e, d) = ensure-done _ _ db _ client h in
    (
      ground (arith, d),
      ap (λ r. client_from c id (find id r.1.clients)) e
          ∙ rw (find-insert id id _ db.clients, ==_refl id, trip json j) refl,
    )

-- Where serde_json reads back the lists that it wrote, a client that was registered accepts exactly
-- the redirect URIs it was registered with, and each URI it accepts is HTTPS or loopback HTTP.
register-allows :
    (c : Crates) (db : AuthDb) (name : Text) (uris : List Text) (uuid : Text) (now : ℕ)
    (client : RegisteredClient)
    → ((us : List Text) (t : Text) → c.to_json us ≡ some t → c.from_json t ≡ some us)
    → (register_client c db name uris uuid now).0 ≡ done client
    → (uri : Text)
    → (client_allows_redirect_uri c (register_client c db name uris uuid now).1 client.client_id uri
        ≡ done (lists_uri uri uris))
      × (lists_uri uri uris ≡ true → redirect_uri_allowed c uri ≡ true)
unfolding register_client client_allows_redirect_uri get_client
register-allows c db name uris uuid now client trip h uri =
    let (_, e1, h1) = ensure-done (not (all_whitespace name)) _ db _ client h in
    let (_, e2, h2) = ensure-done (not (is_empty uris)) _ db _ client h1 in
    let (all, e3, h3) = ensure-done (all_allowed c uris) _ db _ client h2 in
    let (same, found) =
      insert_client-done c db (aver_id uuid) name uris now (c.to_json uris) client refl (trip uris)
        h3 in
    (
      rw same (
          ap (λ r. allows uri (client_from c (aver_id uuid) (find (aver_id uuid) r.1.clients)))
            (e1 ∙ e2 ∙ e3)
          ∙ ap (allows uri) found),
      lists-allowed c uris uri all,
    )
