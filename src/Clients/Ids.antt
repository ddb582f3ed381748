-- ===== src/Clients/Ids.antt =====
-- Connection ids: no two live connections share one, and removing an id removes just its connection.
use mathlib.Core.Option.{none-ne-some, some-ne-none, some-injective}
use tcpudp.Base.{
  ℕ, ◌%◌, ◌≡◌, ◌∙◌, refl, sym, ap, arith, Bool, true, false, ◌||◌, List, [], ◌∷◌, ◌++◌, Option,
  none, some, Bool-cases, inl, inr, contains, contains-append, ◌==◌, ==→eq, if◌then◌else◌,
}
use tcpudp.Clients.{
  Connection, ConnectionManager, no_connections, generate_connection_id, create_with,
  create_connection, find_connection, erase_connection, erase_number, remove_found,
  remove_connection, get_client_connections, remove_all_connections, ManagerCall, created, removed,
  looked_up, removed_all, manage, manage_all,
}

unfoldable pub ids : List Connection → List ℕ
ids [] = []
ids (x ∷ xs) = x.connection_id ∷ ids xs

abbrev pub IsUnique : List Connection → Type 0
IsUnique [] = Unit
IsUnique (x ∷ xs) = (contains x.connection_id (ids xs) ≡ false) × IsUnique xs

ids-append : (xs ys : List Connection) → ids (xs ++ ys) ≡ ids xs ++ ids ys
unfolding ids
ids-append [] ys = refl
ids-append (x ∷ xs) ys = ap (◌∷◌ x.connection_id) (ids-append xs ys)

append-IsUnique :
    (xs : List Connection) (y : Connection)
    → IsUnique xs
    → contains y.connection_id (ids xs) ≡ false
    → IsUnique (xs ++ (y ∷ []))
unfolding ids
append-IsUnique [] y h new = (refl, tt)
append-IsUnique (x ∷ xs) y h new =
    let e = ap (contains x.connection_id) (ids-append xs (y ∷ [])) in
    let c = contains-append x.connection_id (ids xs) (y.connection_id ∷ []) in
    (e ∙ (c ∙ ground (arith, h.0, new)), append-IsUnique xs y h.1 (ground (arith, new)))

generate-fresh :
    (taken draws : List ℕ) (id : ℕ)
    → generate_connection_id taken draws ≡ some id
    → contains id taken ≡ false
unfolding generate_connection_id
generate-fresh taken [] id e = absurd (none-ne-some id e)
generate-fresh taken (drawn ∷ rest) id e = elim (Bool-cases (contains (drawn % 1000000) taken)) [
  | inl used ↦ generate-fresh taken rest id (rw used at e)
  | inr new ↦
      ap (λ i. contains i taken) (sym (some-injective (drawn % 1000000) id (rw new at e))) ∙ new
]

contains-erase_number :
    (id i : ℕ) (xs : List ℕ)
    → contains i (erase_number id xs) ≡ (if id == i then false else contains i xs)
unfolding erase_number
contains-erase_number id i [] = ground arith
contains-erase_number id i (x ∷ xs) = ground (arith, contains-erase_number id i xs)

contains-erase_connection :
    (id i : ℕ) (xs : List Connection)
    → IsUnique xs
    → contains i (ids (erase_connection id xs)) ≡ (if id == i then false else contains i (ids xs))
unfolding erase_connection ids
contains-erase_connection id i [] h = ground arith
contains-erase_connection id i (x ∷ xs) h = elim (Bool-cases (x.connection_id == id)) [
  | inl own ↦
      let e = ==→eq x.connection_id id own in
      let gone : contains id (ids xs) ≡ false = ap (λ k. contains k (ids xs)) (sym e) ∙ h.0 in
      elim (Bool-cases (id == i)) [
        | inl same ↦ rw (own, same) (ap (λ k. contains k (ids xs)) (sym (==→eq id i same)) ∙ gone)
        | inr differs ↦
            let other : (x.connection_id == i) ≡ false = ap (λ k. k == i) e ∙ differs in
            rw (own, differs, other) refl
      ]
  | inr other ↦ ground (arith, contains-erase_connection id i xs h.1)
]

erase-IsUnique : (id : ℕ) (xs : List Connection) → IsUnique xs → IsUnique (erase_connection id xs)
unfolding erase_connection
erase-IsUnique id [] h = tt
erase-IsUnique id (x ∷ xs) h = elim (Bool-cases (x.connection_id == id)) [
  | inl own ↦ rw own (h.1)
  | inr other ↦ rw other (
    contains-erase_connection id x.connection_id xs h.1 ∙ ground (arith, h.0),
    erase-IsUnique id xs h.1,
  )
]

-- The set of ids has exactly the ids of the live connections, which differ.
pub record HasIds (m : ConnectionManager) : Type 0 where
  pub unique : IsUnique m.connections
  pub same : (i : ℕ) → contains i m.connection_ids ≡ contains i (ids m.connections)

create-HasIds :
    (client : ℕ) (id : Option ℕ) (draws : List ℕ) (m : ConnectionManager)
    → generate_connection_id m.connection_ids draws ≡ id
    → HasIds m
    → HasIds (create_with client id m).1
unfolding ids
create-HasIds client none draws m e h = h
create-HasIds client (some id) draws m e h =
    let x : Connection = record { client_id = client; connection_id = id } in
    record {
      unique =
          append-IsUnique m.connections x h.unique
            (sym (h.same id) ∙ generate-fresh m.connection_ids draws id e);
      same = λ i.
          ap (λ b. (id == i) || b) (h.same i)
          ∙ sym (
              ap (contains i) (ids-append m.connections (x ∷ []))
              ∙ (contains-append i (ids m.connections) (id ∷ [])
                  ∙ swap (contains i (ids m.connections)) (id == i)));
    }
  where
    swap : (a b : Bool) → (a || (b || false)) ≡ (b || a)
    swap true true = refl
    swap true false = refl
    swap false true = refl
    swap false false = refl

remove-HasIds :
    (id : ℕ) (x : Option Connection) (m : ConnectionManager)
    → HasIds m
    → HasIds (remove_found id x m).1
remove-HasIds id none m h = h
remove-HasIds id (some x) m h = record {
  unique = erase-IsUnique id m.connections h.unique;
  same = λ i.
      contains-erase_number id i m.connection_ids
      ∙ (ap (λ b. if id == i then false else b) (h.same i)
          ∙ sym (contains-erase_connection id i m.connections h.unique));
}

manage-HasIds : (call : ManagerCall) (m : ConnectionManager) → HasIds m → HasIds (manage call m)
unfolding manage create_connection remove_connection remove_all_connections get_client_connections
    ids
manage-HasIds (created client draws) m h =
    create-HasIds client (generate_connection_id m.connection_ids draws) draws m refl h
manage-HasIds (removed id) m h = remove-HasIds id (find_connection id m.connections) m h
manage-HasIds (looked_up client) m h = record { unique = h.unique; same = h.same }
manage-HasIds removed_all m h = record { unique = tt; same = λ i. refl }

manage_all-HasIds :
    (calls : List ManagerCall) (m : ConnectionManager) → HasIds m → HasIds (manage_all calls m)
manage_all-HasIds [] m h = h
manage_all-HasIds (c ∷ cs) m h = manage_all-HasIds cs (manage c m) (manage-HasIds c m h)

found_none :
    (id : ℕ) (xs : List Connection) → find_connection id xs ≡ none → contains id (ids xs) ≡ false
unfolding find_connection ids
found_none id [] e = refl
found_none id (x ∷ xs) e = elim (Bool-cases (x.connection_id == id)) [
  | inl own ↦ absurd (some-ne-none x (rw own at e))
  | inr other ↦ rw other (found_none id xs (rw other at e))
]

found_some :
    (id : ℕ) (xs : List Connection) (y : Connection)
    → find_connection id xs ≡ some y
    → contains id (ids xs) ≡ true
unfolding find_connection ids
found_some id [] y e = absurd (none-ne-some y e)
found_some id (x ∷ xs) y e = elim (Bool-cases (x.connection_id == id)) [
  | inl own ↦ rw own refl
  | inr other ↦ rw other (found_some id xs y (rw other at e))
]

remove_found_lem :
    (id i : ℕ) (x : Option Connection) (m : ConnectionManager)
    → find_connection id m.connections ≡ x
    → IsUnique m.connections
    → let out = remove_found id x m in
      (out.0 ≡ contains id (ids m.connections))
      × (contains i (ids out.1.connections)
          ≡ (if id == i then false else contains i (ids m.connections)))
remove_found_lem id i none m e h =
    let absent = found_none id m.connections e in
    (
      sym absent,
      elim (Bool-cases (id == i)) [
        | inl same ↦
            rw same (ap (λ k. contains k (ids m.connections)) (sym (==→eq id i same)) ∙ absent)
        | inr differs ↦ rw differs refl
      ],
    )
remove_found_lem id i (some x) m e h =
    (sym (found_some id m.connections x e), contains-erase_connection id i m.connections h)

-- After any calls on a new manager, the ids of the live connections differ, and removing an id
-- reports whether a live connection has it; afterwards none has it, and the other ids are as before.
remove_exact :
    (calls : List ManagerCall) (id i : ℕ)
    → let m = manage_all calls no_connections in
      let out = remove_connection id m in
      IsUnique m.connections
      × (out.0 ≡ contains id (ids m.connections))
      × (contains i (ids out.1.connections)
          ≡ (if id == i then false else contains i (ids m.connections)))
unfolding remove_connection ids
remove_exact calls id i =
    let m = manage_all calls no_connections in
    let h = manage_all-HasIds calls no_connections (record { unique = tt; same = λ j. refl }) in
    let r = remove_found_lem id i (find_connection id m.connections) m refl h.unique in
    (h.unique, r.0, r.1)
