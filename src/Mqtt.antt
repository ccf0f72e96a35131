-- ===== src/Mqtt.antt =====
-- iMX287Learn/mqtt/src/mqtt/mqtt_api.c: the connection of the MQTT client. The answers of the
-- system's calls and of the SDK's functions are arguments; the calls made are a list.
pub mod Descriptors
pub mod App
pub mod Packet
mod Tests
use linuxapp.Common.Int.{is_negative, ℤ, pos, negsuc, ltb_ℤ}
use linuxapp.Common.{Bool, true, false, if◌then◌else◌, Option, none, some, List, [], ◌∷◌, ◌++◌}

-- The members of `struct MQTT` that change: the socket, and the contexts' two copies of it.
pub record Mqtt : Type 0 where
  pub fd : ℤ
  pub read_func_arg : ℤ
  pub writev_func_arg : ℤ

-- The calls that concern descriptors. `epoll_add` carries its answer.
pub data SystemCall : Type 0 where
  socket close : ℤ → SystemCall
  epoll_add : ℤ → ℤ → SystemCall
  epoll_mod epoll_del : ℤ → SystemCall

-- The answers on the way to a connection: gethostbyname, socket, connect, fcntl, epoll_ctl,
-- Mqtt_PackConnectPkt and Mqtt_SendPkt.
pub record Answers : Type 0 where
  pub host_found : Bool
  pub socket_fd : ℤ
  pub connected : Bool
  pub nonblock : ℤ
  pub added : ℤ
  pub packed : Bool
  pub sent : ℤ

unfoldable pub drv_mqtt_create_tcp_connect : Answers → ℤ × List SystemCall
drv_mqtt_create_tcp_connect a =
    if a.host_found
    then (if is_negative a.socket_fd
        then (a.socket_fd, [])
        else if a.connected
        then (a.socket_fd, socket a.socket_fd ∷ [])
        else (negsuc 0, socket a.socket_fd ∷ close a.socket_fd ∷ []))
    else (negsuc 0, [])

-- The close of the old socket.
unfoldable pub dropped_calls : Mqtt → List SystemCall
dropped_calls m = if is_negative m.fd then [] else close m.fd ∷ epoll_del m.fd ∷ []

-- The packet is packed and sent once the socket is watched.
unfoldable pub request : Answers → ℤ
request a = if a.packed then (if is_negative a.sent then negsuc 0 else pos 0) else negsuc 0

-- What follows a socket that is connected.
unfoldable pub watch : ℤ → Answers → ℤ × List SystemCall
unfolding request
watch fd a =
    if is_negative a.nonblock
    then (negsuc 0, [])
    else if is_negative a.added
    then (negsuc 0, epoll_add fd a.added ∷ [])
    else (request a, epoll_add fd a.added ∷ [])

-- `drv_mqtt_connectCmd`: its value, the calls and the new state.
unfoldable pub drv_mqtt_connect_cmd : Answers → Mqtt → ℤ × List SystemCall × Mqtt
unfolding drv_mqtt_create_tcp_connect dropped_calls watch
drv_mqtt_connect_cmd a m =
    let (fd, opened) = drv_mqtt_create_tcp_connect a in
    if is_negative fd
    then (negsuc 0, dropped_calls m ++ opened, record m { fd = fd })
    else (let (result, watched) = watch fd a in
        (
          result,
          dropped_calls m ++ opened ++ watched,
          record { fd = fd; read_func_arg = fd; writev_func_arg = fd },
        ))

-- What Mqtt_RecvPkt answers: a packet was handled, the end of the connection, nothing more for now
-- (MQTTERR_IO with EAGAIN), another input error, or another error.
pub data Received : Type 0 where
  packet end_of_file would_block io_error other_error : Received

-- `drv_mqtt_socketHandle` with EPOLLIN set: the loop, on the answers of Mqtt_RecvPkt. It is `none`
-- where they end before the loop does.
unfoldable pub receive_loop : List Received → Mqtt → Option (ℤ × List SystemCall × Mqtt)
receive_loop [] m = none
receive_loop (packet ∷ rest) m = receive_loop rest m
receive_loop (end_of_file ∷ rest) m =
    some (pos 0, close m.fd ∷ epoll_del m.fd ∷ [], record m { fd = negsuc 0 })
receive_loop (would_block ∷ rest) m = some (pos 0, epoll_mod m.fd ∷ [], m)
receive_loop (io_error ∷ rest) m = some (negsuc 0, [], m)
receive_loop (other_error ∷ rest) m = some (negsuc 0, [], m)

-- `drv_mqtt_socketHandle`; `readable` is `events & EPOLLIN`.
unfoldable pub drv_mqtt_socket_handle :
    Bool → List Received → Mqtt → Option (ℤ × List SystemCall × Mqtt)
unfolding receive_loop
drv_mqtt_socket_handle readable answers m =
    if readable then receive_loop answers m else some (pos 0, epoll_mod m.fd ∷ [], m)
