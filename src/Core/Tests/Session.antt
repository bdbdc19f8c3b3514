-- ===== src/Core/Tests/Session.antt =====
-- Calls one after another, on the links of the tests.
use ludlc.Prelude.{ℕ, ◌≡◌, refl, true, false, some, List, [], ◌∷◌, ◌++◌, arith, inl, inr}
use ludlc.Core.State.{Connection, ret_ok, connected}
use ludlc.Core.Init.{connection_init, fresh, cfg_ok, resolve_cfg, window_ok}
use ludlc.Core.Channel.{chan_tag_bits_ok}
use ludlc.Core.Send.Gap.{urgent_packet_lost}
use ludlc.Core.Handshake.Meet.{meet, meet-connected}
use ludlc.Core.Send.{send_urgent_data}
use ludlc.Core.Disconnect.{handle_disconnect, disconnect_locked}
use ludlc.Core.Transmit.{finish_u_packet}
use ludlc.Core.Receive.{Packet}
use ludlc.Core.Session.{IsSound, pending, confirmed}
use ludlc.Core.Session.Closing.{handle_disconnect-confirms}
use ludlc.Core.Session.History.{
  Call, call_enqueue, call_receive, call_get_packet_to_send, call_handle_disconnect, perform_all,
  Accounted, perform_all-Accounted, accepted_are_confirmed, ready-IsSound,
}
use ludlc.Core.Init.Ready.{IsReady, connection_init-IsReady}
use ludlc.Core.Channel.{is_ctrl_chan}
use ludlc.Core.Tests.{listener, buffer, answers, cfg_8, busy, octets_at}

-- A link of 8 places just opened, and calls on it: two packets are accepted, the link comes up, they
-- go out, the peer takes the first and asks for the second again, and the link is closed.
abbrev opened_link : Connection
opened_link = fresh (resolve_cfg (some cfg_8)) listener buffer

abbrev step_packet : ℕ → Packet
step_packet id = record { tx_id = id; ack_id = 0; chan = 0; payload = []; pkt_sz = 3 }

abbrev story : List Call
story =
    call_enqueue 5 200 2 3
    ∷ (call_enqueue 6 300 4 9
        ∷ (call_receive (step_packet 0) 0
            ∷ (call_receive (step_packet 1) 0
                ∷ (call_receive (step_packet 2) 0
                    ∷ (call_get_packet_to_send
                        ∷ (call_get_packet_to_send
                            ∷ (call_receive
                                  (record {
                                    tx_id = 129;
                                    ack_id = 129;
                                    chan = 0;
                                    payload = [];
                                    pkt_sz = 2;
                                  })
                                  0
                                ∷ (call_handle_disconnect ∷ []))))))))

opened_link-IsReady : IsReady opened_link
unfolding connection_init resolve_cfg cfg_ok window_ok chan_tag_bits_ok
opened_link-IsReady = connection_init-IsReady answers (some cfg_8) listener opened_link refl

opened_link-IsSound : IsSound opened_link
unfolding fresh
opened_link-IsSound = ready-IsSound opened_link-IsReady refl

perform_all-Accounted_example : Accounted opened_link (perform_all octets_at opened_link story)
perform_all-Accounted_example = perform_all-Accounted octets_at story opened_link-IsSound

accepted_are_confirmed_example :
    (perform_all octets_at opened_link story).taken
    ≡ (perform_all octets_at opened_link story).given
      ++ pending (perform_all octets_at opened_link story).conn
unfolding connection_init resolve_cfg cfg_ok window_ok chan_tag_bits_ok fresh
accepted_are_confirmed_example =
    accepted_are_confirmed octets_at answers (some cfg_8) listener opened_link story refl refl

-- A link whose DISCONNECT is with the transport.
abbrev leaving : Connection
leaving = record busy { flags = record (busy.flags) { disc_after_tx = true; u_done = false } }

urgent_packet_lost_example :
    let sent = send_urgent_data (finish_u_packet leaving).0 5 200 2 in
    let closed = disconnect_locked sent.0 in
    (sent.1 ≡ ret_ok)
    × (closed.1 ≡ true)
    × (closed.0.flags.u_confirm_f ≡ false)
    × (closed.0.flags.u_idle ≡ true)
    × (closed.0.flags.u_done ≡ true)
unfolding finish_u_packet fresh resolve_cfg is_ctrl_chan
urgent_packet_lost_example =
    urgent_packet_lost leaving 5 200 2 refl refl refl refl (ground arith) (ground arith)
      (omega arith) refl

-- State 2 hears the step 1, which it has passed.
abbrev waiting : Connection
waiting = record opened_link { conn_state = 2 }

-- The busy link with its callbacks run.
abbrev caught_up : Connection
caught_up = record busy { last_reported = 127 }

caught_up-IsSound : IsSound caught_up
unfolding fresh resolve_cfg
caught_up-IsSound = record {
  ordered = record {
    window = inr (inr (inr (inl refl)));
    reported_id = omega arith;
    ack_id = omega arith;
    sent_id = omega arith;
    queued_id = omega arith;
    received_id = omega arith;
    seen_id = omega arith;
    room = omega arith;
    closed = ground arith;
  };
  sent = omega arith;
  ttl =
      ((omega arith, omega arith), ((omega arith, omega arith), ((omega arith, omega arith), tt)));
  reported = refl;
  quiet = record { free = refl; calls = refl; no_confirm = refl; no_u = refl };
}

handle_disconnect-confirms_example :
    (confirmed (handle_disconnect caught_up).1 ≡ pending caught_up)
    × (pending (handle_disconnect caught_up).0 ≡ [])
unfolding fresh
handle_disconnect-confirms_example =
    handle_disconnect-confirms caught_up-IsSound (ground arith) (ground arith)

-- An end in State 2 and one that has just started.
meet-connected_example :
    let (x, y) = meet (λ _. []) (λ _. 0) (λ _. 0) 5 waiting opened_link in
    (x.conn_state ≡ connected) × (y.conn_state ≡ connected)
unfolding fresh
meet-connected_example =
    meet-connected (λ _. []) (λ _. 0) (λ _. 0) waiting opened_link (omega arith) (omega arith)
