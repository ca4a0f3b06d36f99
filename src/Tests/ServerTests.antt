-- ===== src/Tests/ServerTests.antt =====
-- Tests of a node's server, from its set up to its end.
use plant_minder.Base.{◌≡◌, refl, List, [], ◌∷◌, ◌++◌, Bool, true, false}
use plant_minder.Firmware.Node.{
  Sent, Turn, no_data, init, turn, interrupted, answer_sent, report_sent,
}
use plant_minder.Firmware.Server.{
  ThreadCall, set_radio_config, set_active_dataset, ipv6_set_enabled, thread_set_enabled,
  get_udp_socket, Moment, one_turn, timer_fires, Server, serving, returned, coap_server_event_loop,
  radio, dataset,
}
use plant_minder.Firmware.Server.Ends.{Sound, coap_server_event_loop-Sound}
use plant_minder.Tests.{mesh, eui_of}
use plant_minder.Tests.FirmwareTests.{TestSensor, read_test, json}
use plant_minder.Tests.NodeTests.{codec, soil_only, asked}

abbrev all_succeed : ThreadCall → Bool
all_succeed c = true

abbrev no_socket : ThreadCall → Bool
no_socket get_udp_socket = false
no_socket c = true

-- The report of the last turn cannot be sent.
abbrev unsent : Turn
unsent = record {
  send_data_buf = 0 ∷ 0 ∷ 0 ∷ [];
  send_ok = false;
  received = no_data;
  reply_ok = true;
}

abbrev moments : List Moment
moments =
    one_turn asked
    ∷ timer_fires
    ∷ one_turn (record unsent { send_ok = true })
    ∷ one_turn unsent
    ∷ timer_fires
    ∷ one_turn unsent
    ∷ one_turn asked
    ∷ []

server_example :
    Sound read_test json codec soil_only all_succeed moments
      (coap_server_event_loop read_test json codec all_succeed moments (init soil_only))
server_example = coap_server_event_loop-Sound read_test json codec soil_only all_succeed moments

abbrev sent_by : Server TestSensor → List Sent
sent_by (serving calls n sent) = sent
sent_by (returned r calls n sent) = sent
sent_by (Server.panicked calls sent) = sent

-- One of the two reports is sent.
reported :
    sent_by (coap_server_event_loop read_test json codec all_succeed moments (init soil_only))
    ≡ answer_sent (0x60 ∷ (eui_of 7 ++ b'f' ∷ [])) (mesh 1) 1300
      ∷ report_sent (800 ∷ []) (mesh 1) 1300
      ∷ []
unfolding coap_server_event_loop turn init interrupted plant_minder.Firmware.copy_to
reported = refl

without_socket :
    coap_server_event_loop read_test json codec no_socket moments (init soil_only)
    ≡ Server.panicked
        (set_radio_config radio
          ∷ set_active_dataset dataset
          ∷ ipv6_set_enabled true
          ∷ thread_set_enabled true
          ∷ get_udp_socket
          ∷ [])
        []
unfolding coap_server_event_loop
without_socket = refl
