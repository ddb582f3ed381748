-- ===== src/Clients/Tests.antt =====
-- A few calls on the connection manager, and the theorems on them.
use tcpudp.Base.{◌≡◌, refl, List, [], ◌∷◌, length}
use tcpudp.Clients.{
  ManagerCall, created, removed, manage, manage_all, no_connections, create_connection,
  generate_connection_id, find_connection, erase_connection, erase_number, remove_connection,
  get_client_connections, get_client_connection_count,
}
use tcpudp.Base.Assoc.{lookup, insert, erase}
use tcpudp.Clients.Views.{of_client, client_view}

abbrev calls : List ManagerCall
calls = created 1 (1000005 ∷ []) ∷ created 2 (5 ∷ 6 ∷ []) ∷ created 1 (8 ∷ []) ∷ removed 5 ∷ []

calls-run :
    (manage_all calls no_connections).connections
    ≡ record { client_id = 2; connection_id = 6 } ∷ record { client_id = 1; connection_id = 8 } ∷ []
unfolding manage create_connection generate_connection_id remove_connection find_connection
    erase_connection erase_number lookup insert erase
calls-run = refl

client_view_example :
    let m = manage_all calls no_connections in
    ((get_client_connections 1 m).0 ≡ of_client 1 m.connections)
    × ((get_client_connection_count 1 m).0 ≡ length (of_client 1 m.connections))
client_view_example = client_view calls 1
