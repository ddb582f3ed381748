-- ===== src/Clients.antt =====
-- src/common/Protocol.h, class ConnectionManager: the connections of each client. A `Connection` does not
-- change after it is made, so that a pointer to one is modelled by its value.
pub mod Views
pub mod Ids
mod Tests
use tcpudp.Base.{
  ℕ, ◌%◌, Bool, true, false, List, [], ◌∷◌, ◌++◌, Option, none, some, length, contains, ◌==◌,
  if◌then◌else◌,
}
use tcpudp.Base.Assoc.{lookup, insert, erase}

pub record Connection : Type 0 where
  pub client_id : ℕ
  pub connection_id : ℕ

pub record ConnectionManager : Type 0 where
  pub connections : List Connection
  pub connection_ids : List ℕ
  pub client_connections : List (ℕ × List Connection)

abbrev pub no_connections : ConnectionManager
no_connections = record { connections = []; connection_ids = []; client_connections = [] }

-- `clientConnections[clientId]`, which makes an empty entry where there is none.
abbrev pub or_empty : Option (List Connection) → List Connection
or_empty none = []
or_empty (some xs) = xs

abbrev pub entry : ℕ → ConnectionManager → List Connection
entry client_id m = or_empty (lookup client_id m.client_connections)

-- `rand() % 1000000` until the id is new; `none` if the numbers drawn are used up before that.
unfoldable pub generate_connection_id : List ℕ → List ℕ → Option ℕ
generate_connection_id ids [] = none
generate_connection_id ids (drawn ∷ rest) =
    let later = generate_connection_id ids rest in
    if contains (drawn % 1000000) ids then later else some (drawn % 1000000)

-- What `createConnection` does with the new id.
abbrev pub add_connection : ℕ → ℕ → ConnectionManager → ConnectionManager
add_connection client_id id m =
    let connection : Connection = record { client_id = client_id; connection_id = id } in
    record {
      connections = m.connections ++ (connection ∷ []);
      connection_ids = id ∷ m.connection_ids;
      client_connections =
          insert client_id (entry client_id m ++ (connection ∷ [])) m.client_connections;
    }

abbrev pub create_with : ℕ → Option ℕ → ConnectionManager → Option Connection × ConnectionManager
create_with client_id none m = (none, m)
create_with client_id (some id) m =
    (some (record { client_id = client_id; connection_id = id }), add_connection client_id id m)

unfoldable pub create_connection :
    ℕ → List ℕ → ConnectionManager → Option Connection × ConnectionManager
create_connection client_id draws m =
    create_with client_id (generate_connection_id m.connection_ids draws) m

-- The first connection with the id, and the list without it.
unfoldable pub find_connection : ℕ → List Connection → Option Connection
find_connection id [] = none
find_connection id (x ∷ xs) =
    let rest = find_connection id xs in if x.connection_id == id then some x else rest

unfoldable pub erase_connection : ℕ → List Connection → List Connection
erase_connection id [] = []
erase_connection id (x ∷ xs) =
    let rest = erase_connection id xs in if x.connection_id == id then xs else x ∷ rest

-- `connectionIds.erase(connectionId)` on a set.
unfoldable pub erase_number : ℕ → List ℕ → List ℕ
erase_number id [] = []
erase_number id (x ∷ xs) = let rest = erase_number id xs in if x == id then rest else x ∷ rest

-- An empty list of connections takes its entry along.
abbrev pub put_entry : ℕ → List Connection → List (ℕ × List Connection) → List (ℕ × List Connection)
put_entry client_id [] entries = erase client_id entries
put_entry client_id (x ∷ xs) entries = insert client_id (x ∷ xs) entries

abbrev pub remove_found : ℕ → Option Connection → ConnectionManager → Bool × ConnectionManager
remove_found id none m = (false, m)
remove_found id (some x) m = (
  true,
  record {
    connections = erase_connection id m.connections;
    connection_ids = erase_number id m.connection_ids;
    client_connections =
        put_entry x.client_id (erase_connection id (entry x.client_id m)) m.client_connections;
  },
)

unfoldable pub remove_connection : ℕ → ConnectionManager → Bool × ConnectionManager
remove_connection id m = remove_found id (find_connection id m.connections) m

-- The answer, and the manager with the entry that `operator[]` may have made.
unfoldable pub get_client_connections : ℕ → ConnectionManager → List Connection × ConnectionManager
get_client_connections client_id m = (
  entry client_id m,
  record m { client_connections = insert client_id (entry client_id m) m.client_connections },
)

unfoldable pub get_client_connection_count : ℕ → ConnectionManager → ℕ × ConnectionManager
get_client_connection_count client_id m =
    let (xs, m') = get_client_connections client_id m in (length xs, m')

unfoldable pub remove_all_connections : ConnectionManager → ConnectionManager
remove_all_connections m = no_connections

pub data ManagerCall : Type 0 where
  created : ℕ → List ℕ → ManagerCall
  removed : ℕ → ManagerCall
  looked_up : ℕ → ManagerCall
  removed_all : ManagerCall

unfoldable pub manage : ManagerCall → ConnectionManager → ConnectionManager
manage (created client_id draws) m = (create_connection client_id draws m).1
manage (removed id) m = (remove_connection id m).1
manage (looked_up client_id) m = (get_client_connections client_id m).1
manage removed_all m = remove_all_connections m

abbrev pub manage_all : List ManagerCall → ConnectionManager → ConnectionManager
manage_all [] m = m
manage_all (c ∷ cs) m = manage_all cs (manage c m)
