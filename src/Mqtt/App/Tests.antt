-- ===== src/Mqtt/App/Tests.antt =====
-- A client that connects on descriptor 5, waits twice and loses the connection.
use linuxapp.Common.{true, some, none, List, [], ◌∷◌, ◌++◌, ◌≡◌, Option, refl}
use linuxapp.Common.Int.{pos}
use linuxapp.Mqtt.{Mqtt, SystemCall, Answers, packet, would_block, end_of_file, socket, epoll_add}
use linuxapp.Mqtt.Descriptors.{IsTidy, account_all, empty}
use linuxapp.Mqtt.App.{Event, fns_mqtt_init, fns_mqtt_do_epoll_events}
use linuxapp.Mqtt.App.Events.{client-IsTidy, waits_end, all_end, ends}

abbrev connecting : Answers
connecting = record {
  host_found = true;
  socket_fd = pos 5;
  connected = true;
  nonblock = pos 0;
  added = pos 0;
  packed = true;
  sent = pos 40;
}

abbrev calls : List SystemCall
calls = socket (pos 5) ∷ epoll_add (pos 5) (pos 0) ∷ []

abbrev client : Mqtt
client = record { fd = pos 5; read_func_arg = pos 5; writev_func_arg = pos 5 }

abbrev waits : List (Option (List Event))
waits =
    some (record { fd = pos 5; readable = true; answers = packet ∷ would_block ∷ [] } ∷ [])
    ∷ some (record { fd = pos 5; readable = true; answers = end_of_file ∷ [] } ∷ [])
    ∷ none
    ∷ []

client-IsTidy_example :
    (more : List SystemCall) × (m' : Mqtt) × (fns_mqtt_do_epoll_events waits client
      ≡ some (more, m'))
    × IsTidy m' (account_all (calls ++ more) empty)
unfolding fns_mqtt_init waits_end all_end ends
client-IsTidy_example = client-IsTidy true (pos 4) connecting calls client waits refl refl
