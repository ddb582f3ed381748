-- ===== src/Clients/Views.antt =====
-- The list of each client is the part of the list of all connections that is the client's.
use mathlib.Core.Option.{none-ne-some, some-injective}
use tcpudp.Base.{
  ℕ, ◌≡◌, ◌∙◌, refl, sym, ap, subst, arith, List, [], ◌∷◌, ◌++◌, Option, none, some, Bool-cases,
  inl, inr, length, ◌==◌, ==→eq, if◌then◌else◌, append-nil,
}
use tcpudp.Base.Assoc.{lookup, insert, lookup-insert, lookup-erase}
use tcpudp.Clients.{
  Connection, ConnectionManager, no_connections, or_empty, entry, generate_connection_id,
  add_connection, create_with, create_connection, find_connection, erase_connection, put_entry,
  remove_found, remove_connection, get_client_connections, get_client_connection_count,
  remove_all_connections, ManagerCall, created, removed, looked_up, removed_all, manage, manage_all,
}

-- The connections of one client, in the order in which they were made.
unfoldable pub of_client : ℕ → List Connection → List Connection
of_client c [] = []
of_client c (x ∷ xs) = let rest = of_client c xs in if x.client_id == c then x ∷ rest else rest

of_client-append :
    (c : ℕ) (xs ys : List Connection) → of_client c (xs ++ ys) ≡ of_client c xs ++ of_client c ys
unfolding of_client
of_client-append c [] ys = refl
of_client-append c (x ∷ xs) ys = ground (arith, of_client-append c xs ys)

-- Every entry of the map is what the list of all connections has for the client.
abbrev pub Agrees : ConnectionManager → Type 0
Agrees m = (c : ℕ) → entry c m ≡ of_client c m.connections

or_empty-insert :
    (k c : ℕ) (xs : List Connection) (entries : List (ℕ × List Connection))
    → or_empty (lookup c (insert k xs entries))
      ≡ (if k == c then xs else or_empty (lookup c entries))
or_empty-insert k c xs entries = rw (lookup-insert k c xs entries) (ground arith)

or_empty-put :
    (k c : ℕ) (xs : List Connection) (entries : List (ℕ × List Connection))
    → or_empty (lookup c (put_entry k xs entries))
      ≡ (if k == c then xs else or_empty (lookup c entries))
or_empty-put k c [] entries = rw (lookup-erase k c entries) (ground arith)
or_empty-put k c (x ∷ xs) entries = or_empty-insert k c (x ∷ xs) entries

-- Erasing the first connection with an id commutes with picking the client that has it.
of_client-erase :
    (id c : ℕ) (xs : List Connection) (x : Connection)
    → find_connection id xs ≡ some x
    → of_client c (erase_connection id xs)
      ≡ (if x.client_id == c then erase_connection id (of_client c xs) else of_client c xs)
unfolding of_client find_connection erase_connection
of_client-erase id c [] x e = absurd (none-ne-some x e)
of_client-erase id c (y ∷ ys) x e = elim (Bool-cases (y.connection_id == id)) [
  | inl own ↦
      let same : y ≡ x = some-injective y x (rw own at e) in
      subst
        (λ z. of_client c (erase_connection id (y ∷ ys)) ≡ (
          if z.client_id == c
          then erase_connection id (of_client c (y ∷ ys))
          else of_client c (y ∷ ys)))
        same (ground arith)
  | inr other ↦
      let later : find_connection id ys ≡ some x = rw other at e in
      ground (arith, of_client-erase id c ys x later)
]

add-Agrees :
    (client id : ℕ) (m : ConnectionManager) → Agrees m → Agrees (add_connection client id m)
unfolding of_client
add-Agrees client id m h c =
    let x : Connection = record { client_id = client; connection_id = id } in
    or_empty-insert client c (entry client m ++ (x ∷ [])) m.client_connections
    ∙ (rw (h client, h c, of_client-append c m.connections (x ∷ []))
        (elim (Bool-cases (client == c)) [
          | inl own ↦ rw (own, ==→eq client c own) refl
          | inr other ↦ rw other (sym (append-nil (of_client c m.connections)))
        ]))

create-Agrees :
    (client : ℕ) (id : Option ℕ) (m : ConnectionManager)
    → Agrees m
    → Agrees (create_with client id m).1
create-Agrees client none m h = h
create-Agrees client (some id) m h = add-Agrees client id m h

remove_found-Agrees :
    (id : ℕ) (m : ConnectionManager) (x : Option Connection)
    → find_connection id m.connections ≡ x
    → Agrees m
    → Agrees (remove_found id x m).1
remove_found-Agrees id m none e h = h
remove_found-Agrees id m (some x) e h = λ c.
    or_empty-put x.client_id c (erase_connection id (entry x.client_id m)) m.client_connections
    ∙ (rw (h x.client_id, h c, of_client-erase id c m.connections x e)
        (elim (Bool-cases (x.client_id == c)) [
          | inl own ↦ rw (own, ==→eq x.client_id c own) refl
          | inr other ↦ rw other refl
        ]))

look_up-Agrees :
    (client : ℕ) (m : ConnectionManager) → Agrees m → Agrees (get_client_connections client m).1
unfolding get_client_connections
look_up-Agrees client m h c =
    or_empty-insert client c (entry client m) m.client_connections
    ∙ (elim (Bool-cases (client == c)) [
      | inl own ↦ rw own (ap (λ i. entry i m) (==→eq client c own) ∙ h c)
      | inr other ↦ rw other (h c)
    ])

manage-Agrees : (call : ManagerCall) (m : ConnectionManager) → Agrees m → Agrees (manage call m)
unfolding manage create_connection remove_connection remove_all_connections lookup of_client
manage-Agrees (created client draws) m h =
    create-Agrees client (generate_connection_id m.connection_ids draws) m h
manage-Agrees (removed id) m h = remove_found-Agrees id m (find_connection id m.connections) refl h
manage-Agrees (looked_up client) m h = look_up-Agrees client m h
manage-Agrees removed_all m h = λ c. refl

manage_all-Agrees :
    (calls : List ManagerCall) (m : ConnectionManager) → Agrees m → Agrees (manage_all calls m)
manage_all-Agrees [] m h = h
manage_all-Agrees (c ∷ cs) m h = manage_all-Agrees cs (manage c m) (manage-Agrees c m h)

-- After any calls on a new manager, the connections that it returns for a client are those of the
-- live connections that were made for this client, in the order in which they were made, and the
-- count that it returns is their number.
pub client_view :
    (calls : List ManagerCall) (client : ℕ)
    → let m = manage_all calls no_connections in
      ((get_client_connections client m).0 ≡ of_client client m.connections)
      × ((get_client_connection_count client m).0 ≡ length (of_client client m.connections))
unfolding get_client_connections get_client_connection_count lookup of_client
client_view calls client =
    let e = manage_all-Agrees calls no_connections (λ c. refl) client in (e, ap length e)
