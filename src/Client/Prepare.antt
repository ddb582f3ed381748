-- ===== src/Client/Prepare.antt =====
-- src/client/Client.cpp, PrepareVC: all connections of a channel, or none.
use tcpudp.Base.{
  ℕ, zero, suc, ◌+◌, ◌%◌, ◌^◌, ◌≡◌, refl, sym, ap, ap₂, ◌∙◌, subst, arith, Bool, true, false, List,
  [], ◌∷◌, ◌++◌, append_assoc, append-nil, Option, none, some, length, if◌then◌else◌, count,
  count-append,
}
use tcpudp.VcSlots.{VcSlots, open_slots}
use tcpudp.Client.{
  Client, Opening, close_fd, close_fds, release, teardown_vc, stop_watchdog, keep_socket, waste_id,
  open_one, open_sockets, publish_vc, start_watchdog, prepare_vc,
}

-- The descriptors that the rounds create, up to the first round that fails.
abbrev created_first : Opening → Option ℕ → List ℕ → List ℕ
created_first x none rest = []
created_first x (some fd) rest =
    if x.connected then if x.sent then fd ∷ rest else fd ∷ [] else fd ∷ []

unfoldable pub created_fds : List Opening → List ℕ
created_fds [] = []
created_fds (x ∷ xs) = let rest = created_fds xs in created_first x x.created rest

-- The ids of so many binds, from one on.
unfoldable pub ids_from : ℕ → ℕ → List ℕ
ids_from id zero = []
ids_from id (suc n) = id ∷ ids_from ((id + 1) % 2 ^ 32) n

-- A failed attempt: no channel, no sockets, and each descriptor closed once more than before.
abbrev Closed : (before kept created : List ℕ) → Client → Type 0
Closed before kept created c =
    (c.vc ≡ none)
    × (c.tcp_sockets ≡ [])
    × (c.tcp_connection_ids ≡ [])
    × ((fd : ℕ) → count fd c.closed_fds ≡ count fd before + (count fd kept + count fd created))

-- A success: the new descriptors are kept, in order, with ids from the next one on.
abbrev Kept : Client → List ℕ → ℕ → Client → Type 0
Kept c created n c' =
    (c'.vc ≡ none)
    × (c'.tcp_sockets ≡ c.tcp_sockets ++ created)
    × (c'.tcp_connection_ids ≡ c.tcp_connection_ids ++ ids_from c.next_connection_id n)
    × (length created ≡ n)
    × (c'.closed_fds ≡ c.closed_fds)

abbrev Opened : Client → List ℕ → ℕ → Client × Bool → Type 0
Opened c created n (c', true) = Kept c created n c'
Opened c created n (c', false) = Closed c.closed_fds c.tcp_sockets created c'

teardown-Closed :
    (c : Client) (created : List ℕ) (c0 : Client)
    → c.vc ≡ none
    → ((fd : ℕ)
        → count fd c.closed_fds + count fd c.tcp_sockets
          ≡ count fd c0.closed_fds + (count fd c0.tcp_sockets + count fd created))
    → Closed c0.closed_fds c0.tcp_sockets created (teardown_vc c)
unfolding teardown_vc stop_watchdog close_fds
teardown-Closed c created c0 e h =
    subst (λ v. Closed c0.closed_fds c0.tcp_sockets created (release v (stop_watchdog c))) (sym e)
      (e, refl, refl, λ fd. count-append fd c.closed_fds c.tcp_sockets ∙ h fd)

-- The three ways in which a round with a socket goes on.
by_tests :
    (c : Client) (n : ℕ) (connected sent : Bool) (kept alone : List ℕ) (r r' r'' : Client × Bool)
    → Opened c kept n r
    → Opened c alone n r'
    → Opened c alone n r''
    → Opened c
        (if connected then if sent then kept else alone else alone)
        n
        (if connected then if sent then r else r' else r'')
by_tests c n true true kept alone r r' r'' p q s = p
by_tests c n true false kept alone r r' r'' p q s = q
by_tests c n false sent kept alone r r' r'' p q s = s

-- A round that keeps its socket, then the others.
kept_first :
    (c c1 : Client) (fd n : ℕ) (created : List ℕ) (r : Client × Bool)
    → c1.closed_fds ≡ c.closed_fds
    → c1.tcp_sockets ≡ c.tcp_sockets ++ fd ∷ []
    → c1.tcp_connection_ids ≡ c.tcp_connection_ids ++ c.next_connection_id ∷ []
    → c1.next_connection_id ≡ (c.next_connection_id + 1) % 2 ^ 32
    → Opened c1 created n r
    → Opened c (fd ∷ created) (suc n) r
unfolding ids_from
kept_first c c1 fd n created (c', true) e1 e2 e3 e4 (v, s, i, l, f) = (
  v,
  s ∙ ap (λ xs. xs ++ created) e2 ∙ append_assoc c.tcp_sockets (fd ∷ []) created,
  i
      ∙ ap₂ (λ xs k. xs ++ ids_from k n) e3 e4
      ∙ append_assoc c.tcp_connection_ids (c.next_connection_id ∷ [])
          (ids_from ((c.next_connection_id + 1) % 2 ^ 32) n),
  ap suc l,
  f ∙ e1,
)
kept_first c c1 fd n created (c', false) e1 e2 e3 e4 (v, s, i, h) = (
  v,
  s,
  i,
  λ k.
      let split = count-append k c.tcp_sockets (fd ∷ []) in
      let more = count-append k (fd ∷ []) created in
      omega (arith, h k, ap (count k) e1, ap (count k) e2, split, more),
)

-- A round that closes its socket: nothing is left.
failed_here :
    (c c1 : Client) (fd : ℕ)
    → c1.vc ≡ none
    → c1.closed_fds ≡ c.closed_fds ++ fd ∷ []
    → c1.tcp_sockets ≡ c.tcp_sockets
    → Closed c.closed_fds c.tcp_sockets (fd ∷ []) (teardown_vc c1)
failed_here c c1 fd e f g = teardown-Closed c1 (fd ∷ []) c e (λ k.
    let split = count-append k c.closed_fds (fd ∷ []) in
    omega (arith, ap (count k) f, ap (count k) g, split))

open_sockets-Opened :
    (id : ℕ) (xs : List Opening) (c : Client)
    → c.vc ≡ none
    → Opened c (created_fds xs) (length xs) (open_sockets id xs c)
unfolding open_sockets created_fds ids_from keep_socket waste_id
open_sockets-Opened id [] c e = (e, sym (append-nil _), sym (append-nil _), refl, refl)
open_sockets-Opened id (x ∷ xs) c e = by_socket (λ c1 e1. open_sockets-Opened id xs c1 e1) x.created
  where
    Next : Type 0
    Next =
        (c1 : Client)
        → c1.vc ≡ none
        → Opened c1 (created_fds xs) (length xs) (open_sockets id xs c1)

    by_socket :
        Next
        → (o : Option ℕ)
        → Opened c
            (created_first x o (created_fds xs))
            (suc (length xs))
            (open_one id x o (open_sockets id xs) c)
    by_socket next none = teardown-Closed c [] c e (λ k. omega arith)
    by_socket next (some fd) =
        let c1 = keep_socket id fd c in
        by_tests c (suc (length xs)) x.connected x.sent (fd ∷ created_fds xs) (fd ∷ [])
          (open_sockets id xs c1) (teardown_vc (close_fd fd (waste_id c)), false)
          (teardown_vc (close_fd fd c), false)
          (kept_first c c1 fd (length xs) (created_fds xs) (open_sockets id xs c1) refl refl refl
            refl (next c1 e))
          (failed_here c (close_fd fd (waste_id c)) fd e refl refl)
          (failed_here c (close_fd fd c) fd e refl refl)

-- What is left of `PrepareVC` for these sockets: all connections of a channel, or none.
abbrev pub Prepared : Client → List Opening → Client × Bool → Type 0
Prepared c xs (c', true) =
    (c'.vc ≡ some (open_slots (created_fds xs) true))
    × (c'.tcp_sockets ≡ created_fds xs)
    × (length (created_fds xs) ≡ length xs)
    × (c'.tcp_connection_ids ≡ ids_from c.next_connection_id (length xs))
    × (c'.closed_fds ≡ c.closed_fds)
    × (c'.watchdog_running ≡ true)
Prepared c xs (c', false) =
    (c'.vc ≡ none)
    × (c'.tcp_sockets ≡ [])
    × (c'.tcp_connection_ids ≡ [])
    × ((fd : ℕ) → count fd c'.closed_fds ≡ count fd c.closed_fds + count fd (created_fds xs))

publish-Prepared :
    (c : Client) (xs : List Opening) (r : Client × Bool)
    → c.tcp_sockets ≡ []
    → c.tcp_connection_ids ≡ []
    → Opened c (created_fds xs) (length xs) r
    → Prepared c xs (publish_vc r)
unfolding start_watchdog
publish-Prepared c xs (c', true) e1 e2 (v, s, i, l, f) =
    let sockets : c'.tcp_sockets ≡ created_fds xs = s ∙ ap (λ ys. ys ++ created_fds xs) e1 in
    (
      ap (λ fds. some (open_slots fds true)) sockets,
      sockets,
      l,
      i ∙ ap (λ ys. ys ++ ids_from c.next_connection_id (length xs)) e2,
      f,
      refl,
    )
publish-Prepared c xs (c', false) e1 e2 (v, s, i, h) =
    (v, s, i, λ k. omega (arith, h k, ap (count k) e1))

torn_down :
    (v : Option VcSlots) (c : Client)
    → c.vc ≡ v
    → ((release v c).vc ≡ none)
      × ((release v c).tcp_sockets ≡ [])
      × ((release v c).tcp_connection_ids ≡ [])
unfolding close_fds
torn_down none c e = (e, refl, refl)
torn_down (some v) c e = (refl, refl, refl)

-- `PrepareVC` takes the old channel down and opens all connections of a new one, or none. If it
-- succeeds, the channel has exactly the sockets that were created, in their order, with consecutive
-- connection ids, nothing is closed that the teardown of the old one did not close, and the watchdog
-- runs. If it fails, there are no channel and no sockets, and after the teardown each
-- descriptor has been closed as often as it was created.
pub prepare_all_or_none :
    (id : ℕ) (xs : List Opening) (c : Client) → Prepared (teardown_vc c) xs (prepare_vc id xs c)
unfolding prepare_vc teardown_vc stop_watchdog
prepare_all_or_none id xs c =
    let (v, s, i) = torn_down c.vc (stop_watchdog c) refl in
    publish-Prepared (teardown_vc c) xs (open_sockets id xs (teardown_vc c)) s i
      (open_sockets-Opened id xs (teardown_vc c) v)
