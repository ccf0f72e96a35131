-- ===== src/Mqtt/App/Events.antt =====
-- The sockets of the client over its whole life: its start, and any events after that.
use linuxapp.Common.{
  ℕ, suc, replicate, Bool, true, false, not, ◌&&◌, &&_parts, if◌then◌else◌, Option, none, some,
  List, [], ◌∷◌, ◌++◌, ◌≡◌, ◌≢◌, refl, ap, ◌∙◌, inl, inr, Bool-cases, arith,
}
use mathlib.Core.Path.{subst}
use linuxapp.Common.Int.{ℤ, negsuc, is_negative}
use linuxapp.Mqtt.{
  Mqtt, Answers, Received, packet, end_of_file, would_block, io_error, other_error, SystemCall,
  drv_mqtt_connect_cmd, drv_mqtt_socket_handle,
}
use linuxapp.Mqtt.Descriptors.{
  System, IsTidy, account_all, account_all-append, empty, same, connect_IsTidy,
  socket_handle_IsTidy,
}
use linuxapp.Mqtt.App.{Event, handle_events, fns_mqtt_do_epoll_events, fns_mqtt_init}

-- Mqtt_RecvPkt does not hand out packets without end.
unfoldable pub ends : List Received → Bool
ends [] = false
ends (packet ∷ rest) = ends rest
ends (_ ∷ rest) = true

-- Every event is of a descriptor, and its packets end.
unfoldable pub all_end : List Event → Bool
all_end [] = true
all_end (e ∷ events) = not (is_negative e.fd) && (ends e.answers && all_end events)

unfoldable pub waits_end : List (Option (List Event)) → Bool
waits_end [] = true
waits_end (none ∷ waits) = true
waits_end (some events ∷ waits) = all_end events && waits_end waits

split_answers :
    (answers : List Received)
    → ends answers ≡ true
    → (n : ℕ) × (x : Received) × (rest : List Received) × (answers ≡ replicate n packet ++ x ∷ rest)
      × (x ≢ packet)
unfolding ends
split_answers [] h = cc
split_answers (packet ∷ rest) h =
    let (n, x, later, e, other) = split_answers rest h in
    (suc n, x, later, ap (◌∷◌ packet) e, other)
split_answers (end_of_file ∷ rest) h = (0, end_of_file, rest, refl, λ e. cc)
split_answers (would_block ∷ rest) h = (0, would_block, rest, refl, λ e. cc)
split_answers (io_error ∷ rest) h = (0, io_error, rest, refl, λ e. cc)
split_answers (other_error ∷ rest) h = (0, other_error, rest, refl, λ e. cc)

handler-IsTidy :
    (readable : Bool) (answers : List Received) (m : Mqtt) (s : System)
    → ends answers ≡ true
    → is_negative m.fd ≡ false
    → IsTidy m s
    → (out : ℤ × List SystemCall × Mqtt) × (drv_mqtt_socket_handle readable answers m ≡ some out)
      × IsTidy out.2 (account_all out.1 s)
handler-IsTidy readable answers m s h k tidy =
    let (n, x, rest, e, other) = split_answers answers h in
    let (out, returned, still, how) = socket_handle_IsTidy readable n x rest m s other k tidy in
    (out, ap (λ a. drv_mqtt_socket_handle readable a m) e ∙ returned, still)

same_sign : (a b : ℤ) → same a b ≡ true → not (is_negative a) ≡ true → is_negative b ≡ false
same_sign a b e h = ground arith

-- The events of one epoll_wait.
events-IsTidy :
    (events : List Event) (m : Mqtt) (s : System)
    → all_end events ≡ true
    → IsTidy m s
    → (calls : List SystemCall) × (m' : Mqtt) × (handle_events events m ≡ some (calls, m'))
      × IsTidy m' (account_all calls s)
unfolding handle_events all_end account_all
events-IsTidy [] m s h tidy = ([], m, refl, tidy)
events-IsTidy (e ∷ events) m s h tidy =
    let (real, rest) = &&_parts (not (is_negative e.fd)) (ends e.answers && all_end events) h in
    let (over, later) = &&_parts (ends e.answers) (all_end events) rest in
    elim (Bool-cases (same e.fd m.fd)) [
      | inl ours ↦
          let (out, returned, still) =
            handler-IsTidy e.readable e.answers m s over (same_sign e.fd m.fd ours real) tidy in
          elim (Bool-cases (is_negative out.0)) [
            | inl failed ↦ (
              out.1 ++ [],
              out.2,
              rw ours (rw returned (rw failed refl)),
              rw (account_all-append out.1 [] s) still,
            )
            | inr fine ↦
                let (calls, m', next, after) =
                  events-IsTidy events out.2 (account_all out.1 s) later still in
                (
                  out.1 ++ calls,
                  m',
                  rw ours (rw returned (rw fine (rw next refl))),
                  rw (account_all-append out.1 calls s) after,
                )
          ]
      | inr other ↦
          let (calls, m', returned, still) = events-IsTidy events m s later tidy in
          (calls, m', rw other returned, still)
    ]

-- Any waits of the loop.
waits-IsTidy :
    (waits : List (Option (List Event))) (m : Mqtt) (s : System)
    → waits_end waits ≡ true
    → IsTidy m s
    → (calls : List SystemCall) × (m' : Mqtt) × (fns_mqtt_do_epoll_events waits m
        ≡ some (calls, m'))
      × IsTidy m' (account_all calls s)
unfolding fns_mqtt_do_epoll_events waits_end account_all
waits-IsTidy [] m s h tidy = ([], m, refl, tidy)
waits-IsTidy (none ∷ waits) m s h tidy = ([], m, refl, tidy)
waits-IsTidy (some events ∷ waits) m s h tidy =
    let (now, later) = &&_parts (all_end events) (waits_end waits) h in
    let (calls, m1, first, still) = events-IsTidy events m s now tidy in
    let (more, m2, rest, after) = waits-IsTidy waits m1 (account_all calls s) later still in
    (calls ++ more, m2, rw first (rw rest refl), rw (account_all-append calls more s) after)

only_result {ℓ} :
    {A : Type ℓ} (good late bad : Bool) (out p : A)
    → (if good then (if late then none else if bad then none else some out) else none) ≡ some p
    → out ≡ p
only_result false late bad out p e = cc
only_result true true bad out p e = cc
only_result true false true out p e = cc
only_result true false false out p e = cc

-- A client without a socket.
abbrev unconnected : Mqtt
unconnected = record { fd = negsuc 0; read_func_arg = negsuc 0; writev_func_arg = negsuc 0 }

unconnected-IsTidy : IsTidy unconnected empty
unfolding IsTidy
unconnected-IsTidy = inl (refl, refl, refl)

started-IsTidy :
    (context : Bool) (epfd : ℤ) (a : Answers) (calls : List SystemCall) (m : Mqtt)
    → fns_mqtt_init context epfd a ≡ some (calls, m)
    → IsTidy m (account_all calls empty)
unfolding fns_mqtt_init
started-IsTidy context epfd a calls m e =
    let out = drv_mqtt_connect_cmd a unconnected in
    let (tidy, how) = connect_IsTidy a unconnected empty unconnected-IsTidy in
    subst (λ p. IsTidy p.1 (account_all p.0 empty))
      (only_result context (is_negative epfd) (is_negative out.0) (out.1, out.2) (calls, m) e) tidy

-- The client from a start that succeeds on, whatever epoll_wait then reports, as long as the
-- packets of each event end: the loop returns or waits, and at every such point at most the
-- client's own socket is open and armed; if it has none, nothing is open.
pub client-IsTidy :
    (context : Bool) (epfd : ℤ) (a : Answers) (calls : List SystemCall) (m : Mqtt)
    (waits : List (Option (List Event)))
    → fns_mqtt_init context epfd a ≡ some (calls, m)
    → waits_end waits ≡ true
    → (more : List SystemCall) × (m' : Mqtt) × (fns_mqtt_do_epoll_events waits m ≡ some (more, m'))
      × IsTidy m' (account_all (calls ++ more) empty)
client-IsTidy context epfd a calls m waits started h =
    let (more, m', run, tidy) =
      waits-IsTidy waits m (account_all calls empty) h
        (started-IsTidy context epfd a calls m started) in
    (more, m', run, rw (account_all-append calls more empty) tidy)
