-- ===== src/Mqtt/App.antt =====
-- iMX287Learn/mqtt/src/mqtt/mqtt_app.c: the start of the MQTT client and its loop over epoll. Its
-- calls of mqtt_connect_cmd and mqtt_socket_handle are taken for the functions of mqtt_api.c.
pub mod Events
mod Tests
use linuxapp.Mqtt.Descriptors.{same}
use linuxapp.Common.Int.{is_negative, ℤ, pos, negsuc, pos_part, neg_part}
use linuxapp.Common.{
  Bool, true, false, ◌==◌, if◌then◌else◌, Option, none, some, ◌>>=◌, List, [], ◌∷◌, ◌++◌, ◌+◌,
}
use linuxapp.Mqtt.{
  Mqtt, Answers, Received, SystemCall, drv_mqtt_connect_cmd, drv_mqtt_socket_handle,
}

-- `fns_mqtt__init`, by the answers of Mqtt_InitContext and epoll_create and those on the way to a
-- connection. The contexts' copies of the socket are set before there is one. `none` is exit(-1).
unfoldable pub fns_mqtt_init : Bool → ℤ → Answers → Option (List SystemCall × Mqtt)
unfolding drv_mqtt_connect_cmd
fns_mqtt_init context epfd a =
    let (result, calls, m) =
      drv_mqtt_connect_cmd a
        (record { fd = negsuc 0; read_func_arg = negsuc 0; writev_func_arg = negsuc 0 }) in
    if context
    then (if is_negative epfd then none else if is_negative result then none else some (calls, m))
    else none

-- An entry of `events`: its descriptor, whether EPOLLIN is set, and what Mqtt_RecvPkt then answers.
pub record Event : Type 0 where
  pub fd : ℤ
  pub readable : Bool
  pub answers : List Received

-- The loop over the events of one epoll_wait, which ends after an error of the handler.
unfoldable pub handle_events : List Event → Mqtt → Option (List SystemCall × Mqtt)
unfolding drv_mqtt_socket_handle
handle_events [] m = some ([], m)
handle_events (e ∷ events) m =
    let passed_over = handle_events events m in
    if same e.fd m.fd
    then (do
      (result, calls, m') ← drv_mqtt_socket_handle e.readable e.answers m
      (more, m'') ← if is_negative result then some ([], m') else handle_events events m'
      some (calls ++ more, m''))
    else passed_over

-- `fns_mqtt_doEpollEvents`, by what each epoll_wait gives: `none` is its error, which ends the
-- loop. Where the answers end the loop still waits.
unfoldable pub fns_mqtt_do_epoll_events :
    List (Option (List Event)) → Mqtt → Option (List SystemCall × Mqtt)
unfolding handle_events
fns_mqtt_do_epoll_events [] m = some ([], m)
fns_mqtt_do_epoll_events (none ∷ waits) m = some ([], m)
fns_mqtt_do_epoll_events (some events ∷ waits) m = do
  (calls, m') ← handle_events events m
  (more, m'') ← fns_mqtt_do_epoll_events waits m'
  some (calls ++ more, m'')

-- `_connect_state`: MQTT_CONNECT_NONE and MQTT_CONNECT_OK.
pub data ConnectState : Type 0 where
  connect_none connect_ok : ConnectState

-- `isMqttConnec`
unfoldable is_mqtt_connec : ConnectState → Bool
is_mqtt_connec connect_ok = true
is_mqtt_connec connect_none = false

-- `fns_mqtt_start_th`, the only function that sets the state, by what pthread_create answers.
unfoldable fns_mqtt_start_th : Bool → Option ConnectState
fns_mqtt_start_th created = if created then some connect_none else none

-- What the SDK calls to send and to receive, `drv_mqtt_sendPacket` and `drv_mqtt_recivePacket`: the
-- answers of sendmsg and read; and `drv_mqtt_connackHandle`.
unfoldable drv_mqtt_send_packet : ℤ → ℤ
drv_mqtt_send_packet sent = sent

unfoldable drv_mqtt_recive_packet : ℤ → ℤ
drv_mqtt_recive_packet got = got

unfoldable drv_mqtt_connack_handle : ℤ
drv_mqtt_connack_handle = pos 0
