-- ===== src/Mqtt/Descriptors.antt =====
-- Which sockets are open and which of them wake the client, after any run of its two operations.
use linuxapp.Common.Int.{is_negative, ℤ, pos, negsuc, pos_part, neg_part}
use mathlib.Core.Bool.{true≢false}
use linuxapp.Common.{
  ℕ, zero, suc, replicate, ◌≢◌, ◌∙◌, ap, sym, Bool, true, false, if◌then◌else◌, ◌==◌, ◌&&◌, not,
  some, List, [], ◌∷◌, ◌++◌, ◌≡◌, refl, arith, ◌⊎◌, inl, inr,
}
use linuxapp.Mqtt.{
  Mqtt, SystemCall, socket, close, epoll_add, epoll_mod, epoll_del, Answers, dropped_calls,
  drv_mqtt_create_tcp_connect, request, watch, drv_mqtt_connect_cmd, Received, packet, end_of_file,
  would_block, io_error, other_error, receive_loop, drv_mqtt_socket_handle,
}

abbrev pub same : ℤ → ℤ → Bool
same a b = pos_part a == pos_part b && neg_part a == neg_part b

-- The list without every n.
abbrev pub without : ℤ → List ℤ → List ℤ
without n [] = []
without n (m ∷ ms) = if same m n then without n ms else m ∷ without n ms

-- The open sockets, and those that epoll will report once there is input.
pub record System : Type 0 where
  pub opened : List ℤ
  pub armed : List ℤ

-- What a call does to them. A socket that is closed is no longer watched.
unfoldable pub account : SystemCall → System → System
account (socket n) s = record s { opened = n ∷ s.opened }
account (close n) s = record { opened = without n s.opened; armed = without n s.armed }
account (epoll_add n e) s = if is_negative e then s else record s { armed = n ∷ s.armed }
account (epoll_mod n) s = record s { armed = n ∷ without n s.armed }
account (epoll_del n) s = record s { armed = without n s.armed }

unfoldable pub account_all : List SystemCall → System → System
unfolding account
account_all [] s = s
account_all (c ∷ cs) s = account_all cs (account c s)

-- The client owns its socket and no other: it is the only one open, and at most it is armed.
unfoldable pub IsTidy : Mqtt → System → Type 0
IsTidy m s =
    ((is_negative m.fd ≡ true) × (s.opened ≡ []) × (s.armed ≡ []))
    ⊎ ((is_negative m.fd ≡ false)
        × (s.opened ≡ m.fd ∷ [])
        × ((s.armed ≡ []) ⊎ (s.armed ≡ m.fd ∷ [])))

same_refl : (n : ℤ) → same n n ≡ true
same_refl n = ground arith

-- A client that has given up its socket.
abbrev pub empty : System
empty = record { opened = []; armed = [] }

dropped_all : (m : Mqtt) (s : System) → IsTidy m s → account_all (dropped_calls m) s ≡ empty
unfolding IsTidy dropped_calls account_all account
dropped_all m s (inl (n, o, r)) = rw n (λ i. record { opened = o i; armed = r i })
dropped_all m s (inr (n, o, inl r)) = rw n (rw o (rw r (rw (same_refl m.fd) refl)))
dropped_all m s (inr (n, o, inr r)) = rw n (rw o (rw r (rw (same_refl m.fd) refl)))

pub account_all-append :
    (cs ds : List SystemCall) (s : System)
    → account_all (cs ++ ds) s ≡ account_all ds (account_all cs s)
unfolding account_all
account_all-append [] ds s = refl
account_all-append (c ∷ cs) ds s = account_all-append cs ds (account c s)

-- Every step on the way to a connection succeeds.
abbrev pub succeeds : Answers → Bool
succeeds a =
    a.host_found
    && not (is_negative a.socket_fd)
    && a.connected
    && not (is_negative a.nonblock)
    && not (is_negative a.added)
    && a.packed
    && not (is_negative a.sent)

-- A connection attempt of a client that has nothing open.
fresh_lem :
    (a : Answers) (m : Mqtt)
    → dropped_calls m ≡ []
    → let (result, calls, m') = drv_mqtt_connect_cmd a m in
      let s = account_all calls empty in
      IsTidy m' s
      × (if succeeds a
          then (result ≡ pos 0)
            × (s.armed ≡ m'.fd ∷ [])
            × (m'.read_func_arg ≡ m'.fd)
            × (m'.writev_func_arg ≡ m'.fd)
          else result ≡ negsuc 0)
unfolding drv_mqtt_connect_cmd drv_mqtt_create_tcp_connect watch request account_all account IsTidy
fresh_lem a m d = ground (arith, same_refl a.socket_fd)

-- An attempt closes the old socket first, and goes on as if there had been none.
closed_first :
    (a : Answers) (m : Mqtt)
    → let (result, calls, m') = drv_mqtt_connect_cmd a (record m { fd = negsuc 0 }) in
      drv_mqtt_connect_cmd a m ≡ (result, dropped_calls m ++ calls, m')
unfolding drv_mqtt_connect_cmd dropped_calls
closed_first a m = ground arith

-- Any attempt of a client that owns at most its one open socket: it returns 0 exactly if every step
-- succeeds, else -1, and then too the client owns at most the new socket and nothing else is open.
-- After a 0 that socket is armed, and both contexts have it.
pub connect_IsTidy :
    (a : Answers) (m : Mqtt) (s : System)
    → IsTidy m s
    → let (result, calls, m') = drv_mqtt_connect_cmd a m in
      IsTidy m' (account_all calls s)
      × (if succeeds a
          then (result ≡ pos 0)
            × ((account_all calls s).armed ≡ m'.fd ∷ [])
            × (m'.read_func_arg ≡ m'.fd)
            × (m'.writev_func_arg ≡ m'.fd)
          else result ≡ negsuc 0)
connect_IsTidy a m s tidy =
    let m0 = record m { fd = negsuc 0 } in
    let calls = (drv_mqtt_connect_cmd a m0).1 in
    rw (closed_first a m) (
      rw (account_all-append (dropped_calls m) calls s)
        (rw (dropped_all m s tidy) (fresh_lem a m0 (unfold dropped_calls in refl))))

-- How the loop on Mqtt_RecvPkt ends, by the first answer that is not a packet.
receive_loop_lem :
    (n : ℕ) (x : Received) (rest : List Received) (m : Mqtt)
    → receive_loop (replicate n packet ++ x ∷ rest) m ≡ receive_loop (x ∷ rest) m
unfolding receive_loop
receive_loop_lem zero x rest m = refl
receive_loop_lem (suc n) x rest m = receive_loop_lem n x rest m

unfoldable pub is_error : Received → Bool
is_error io_error = true
is_error other_error = true
is_error _ = false

rearmed :
    (m : Mqtt) (s : System)
    → is_negative m.fd ≡ false
    → IsTidy m s
    → account_all (epoll_mod m.fd ∷ []) s ≡ record { opened = m.fd ∷ []; armed = m.fd ∷ [] }
unfolding IsTidy account_all account
rearmed m s k (inl (n, o, r)) = absurd (true≢false (sym n ∙ k))
rearmed m s k (inr (n, o, inl r)) = rw o (rw r refl)
rearmed m s k (inr (n, o, inr r)) = rw o (rw r (rw (same_refl m.fd) refl))

rearmed_IsTidy :
    (m : Mqtt) (s : System)
    → is_negative m.fd ≡ false
    → IsTidy m s
    → IsTidy m (account_all (epoll_mod m.fd ∷ []) s)
unfolding IsTidy
rearmed_IsTidy m s k tidy = rw (rearmed m s k tidy) (inr (k, refl, inr refl))

closed_all :
    (m : Mqtt) (s : System)
    → is_negative m.fd ≡ false
    → IsTidy m s
    → account_all (close m.fd ∷ epoll_del m.fd ∷ []) s ≡ empty
unfolding dropped_calls
closed_all m s k tidy =
    ap (λ b. account_all (if b then [] else close m.fd ∷ epoll_del m.fd ∷ []) s) (sym k)
    ∙ dropped_all m s tidy

closed_IsTidy :
    (m : Mqtt) (s : System)
    → is_negative m.fd ≡ false
    → IsTidy m s
    → IsTidy (record m { fd = negsuc 0 }) (account_all (close m.fd ∷ epoll_del m.fd ∷ []) s)
unfolding IsTidy
closed_IsTidy m s k tidy = rw (closed_all m s k tidy) (inl (refl, refl, refl))

-- An event on the client's socket, with any number of packets before the answer that ends the loop:
-- the handler returns. After an error it returns -1, calls nothing and changes nothing. Else it
-- returns 0, and the socket is armed or, at the end of the connection, closed and given up.
pub socket_handle_IsTidy :
    (readable : Bool) (n : ℕ) (x : Received) (rest : List Received) (m : Mqtt) (s : System)
    → x ≢ packet
    → is_negative m.fd ≡ false
    → IsTidy m s
    → (out : ℤ × List SystemCall × Mqtt) × (drv_mqtt_socket_handle readable
          (replicate n packet ++ x ∷ rest)
          m
        ≡ some out)
      × IsTidy out.2 (account_all out.1 s)
      × (if readable && is_error x
          then (out.0 ≡ negsuc 0) × (out.1 ≡ []) × (out.2 ≡ m)
          else (out.0 ≡ pos 0)
            × ((is_negative out.2.fd ≡ true) ⊎ ((account_all out.1 s).armed ≡ out.2.fd ∷ [])))
unfolding drv_mqtt_socket_handle receive_loop is_error IsTidy account_all
socket_handle_IsTidy false n x rest m s ne k tidy = (
  (pos 0, epoll_mod m.fd ∷ [], m),
  refl,
  rearmed_IsTidy m s k tidy,
  (refl, inr (ap (λ t. t.armed) (rearmed m s k tidy))),
)
socket_handle_IsTidy true n packet rest m s ne k tidy = absurd (ne refl)
socket_handle_IsTidy true n end_of_file rest m s ne k tidy = (
  (pos 0, close m.fd ∷ epoll_del m.fd ∷ [], record m { fd = negsuc 0 }),
  receive_loop_lem n end_of_file rest m,
  closed_IsTidy m s k tidy,
  (refl, inl refl),
)
socket_handle_IsTidy true n would_block rest m s ne k tidy = (
  (pos 0, epoll_mod m.fd ∷ [], m),
  receive_loop_lem n would_block rest m,
  rearmed_IsTidy m s k tidy,
  (refl, inr (ap (λ t. t.armed) (rearmed m s k tidy))),
)
socket_handle_IsTidy true n io_error rest m s ne k tidy =
    ((negsuc 0, [], m), receive_loop_lem n io_error rest m, tidy, (refl, refl, refl))
socket_handle_IsTidy true n other_error rest m s ne k tidy =
    ((negsuc 0, [], m), receive_loop_lem n other_error rest m, tidy, (refl, refl, refl))
