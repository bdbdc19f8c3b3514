-- ===== src/Core/Tests.antt =====
-- Links to try the core's theorems on.
mod Session
use ludlc.Prelude.{
  ℕ, ◌+◌, ◌≡◌, refl, true, false, none, some, List, [], ◌∷◌, ◌++◌, ◌==◌, ◌||◌, arith, inl, inr, All,
  length, get_elem?,
}
use ludlc.Core.State.{
  Connection, ConnCfg, ConnCb, PacketQueueItem, ret_ok, success, connected, epipe,
}
use ludlc.Core.Init.{PlatformAnswers, connection_init, fresh, cfg_ok, resolve_cfg, window_ok}
use ludlc.Core.Channel.{chan_tag_bits_ok}
use ludlc.Core.Send.Gap.{urgent_packet_lost}
use ludlc.Core.Handshake.{rx_handle_handshake}
use ludlc.Core.Send.{send_urgent_data, enqueue_data}
use ludlc.Core.Disconnect.{handle_disconnect, disconnect_locked, on_disconnect_lock}
use ludlc.Core.Report.{confirm_unlocked}
use ludlc.Core.Ack.{rx_handle_ack}
use ludlc.Core.Transmit.{get_packet_to_send, send_connected, tx_copy, finish_u_packet}
use ludlc.Core.Receive.{Packet, rx_handle_packet, receive}
use ludlc.Core.Session.Settle.{Settled}
use ludlc.Core.Session.Receive.{receive-Settled}
use ludlc.Core.Receive.Order.{delivered_ids, ids_after, delivered_in_order, data_packet_accepted}
use ludlc.Core.Queue.{IsOrdered, SentWithin, view, HasTtl, fail_all, Request}
use ludlc.Core.Queue.Offer.{enqueue_data-offer, enqueue_data-IsOrdered, viewed, offer}
use ludlc.Core.Queue.Sweep.{view-on_disconnect_lock, on_disconnect_lock-IsOrdered}
use ludlc.Core.Queue.Drain.{Drained, confirm_unlocked-Drained}
use ludlc.Core.Queue.HandleAck.{Answered, rx_handle_ack-Answered, rx_handle_ack_too_far}
use ludlc.Core.Transmit.Keep.{Kept, get_packet_to_send-Kept}
use ludlc.Core.Transmit.Numbered.{send_connected-due, octets_of}
use ludlc.Core.Session.{IsSound, pending, confirmed}
use ludlc.Core.Session.Closing.{handle_disconnect-confirms}
use ludlc.Core.Session.History.{
  Call, call_enqueue, call_receive, call_get_packet_to_send, call_handle_disconnect, perform_all,
  Accounted, perform_all-Accounted, accepted_are_confirmed, ready-IsSound,
}
use ludlc.Core.Init.Ready.{IsReady, connection_init-IsReady}
use ludlc.Core.Channel.{chan_make, chan_id, chan_tag, is_ctrl_chan}
use ludlc.Core.Channel.Tag.{chan_make-parts}

abbrev pub listener : ConnCb
listener = record {
  has_on_connect = true;
  has_on_disconnect = true;
  has_on_recv = true;
  has_on_confirm = true;
  has_on_caps = true;
  caps = 0;
  caps_size = 0;
}

abbrev pub buffer : ℕ → PacketQueueItem
buffer i = record { payload = 100 + i; size = 2; chan = 5; result = success; ttl = 2 }

abbrev pub answers : PlatformAnswers
answers = record {
  slots = some buffer;
  conn_init = ret_ok;
  ping_timer_init = ret_ok;
  wd_timer_init = ret_ok;
}

abbrev pub cfg_8 : ConnCfg
cfg_8 = record { ping_time = 0; max_payload = 16; window = 8; default_ttl = 3; chan_tag_bits = 2 }

-- A link that is up across the wrap of its IDs: packets 126 and 127 wait to be reported, 0, 1 and 2
-- for the peer, of which 0 and 1 are sent.
abbrev pub busy : Connection
busy = record (fresh (resolve_cfg (some cfg_8)) listener buffer) {
  last_queued = 2;
  last_sent = 1;
  last_ack = 127;
  last_reported = 125;
  last_received = 9;
  last_seen = 9;
  conn_state = connected;
}

busy-IsOrdered : IsOrdered busy
unfolding fresh resolve_cfg
busy-IsOrdered = record {
  window = inr (inr (inr (inl refl)));
  reported_id = omega arith;
  ack_id = omega arith;
  sent_id = omega arith;
  queued_id = omega arith;
  received_id = omega arith;
  seen_id = omega arith;
  room = omega arith;
  closed = ground arith;
}

busy-SentWithin : SentWithin busy
unfolding fresh resolve_cfg
busy-SentWithin = omega arith

busy-HasTtl : All HasTtl (view busy).requests
unfolding fresh resolve_cfg
busy-HasTtl =
    ((omega arith, omega arith), ((omega arith, omega arith), ((omega arith, omega arith), tt)))

abbrev pub octets_at : ℕ → ℕ → List ℕ
octets_at p n = p ∷ (n ∷ [])

abbrev data_packet : ℕ → Packet
data_packet id = record { tx_id = id; ack_id = 0; chan = 5; payload = 7 ∷ []; pkt_sz = 4 }

abbrev arrivals : List Packet
arrivals = data_packet 10 ∷ (data_packet 10 ∷ (data_packet 12 ∷ (data_packet 11 ∷ [])))

delivered_in_order_example :
    delivered_ids busy arrivals ≡ ids_after 9 (length (delivered_ids busy arrivals))
unfolding fresh
delivered_in_order_example = delivered_in_order busy arrivals refl (omega arith)

data_packet_accepted_example :
    ((rx_handle_packet busy (data_packet 10)).1.accept_f ≡ true)
    × ((rx_handle_packet busy (data_packet 10)).0.conn_state ≡ connected)
    × ((rx_handle_packet busy (data_packet 10)).0.last_received ≡ 10)
unfolding fresh resolve_cfg is_ctrl_chan
data_packet_accepted_example =
    data_packet_accepted busy (data_packet 10) refl (omega arith) refl refl refl

enqueue_data-offer_example :
    viewed (enqueue_data busy 6 200 3 0)
    ≡ offer false false 8 (record { payload = 200; size = 3; chan = 6; ttl = 1 }) (view busy)
unfolding fresh resolve_cfg is_ctrl_chan
enqueue_data-offer_example = enqueue_data-offer busy-IsOrdered 6 200 3 0

enqueue_data-IsOrdered_example : IsOrdered (enqueue_data busy 6 200 3 0).0
enqueue_data-IsOrdered_example = enqueue_data-IsOrdered busy-IsOrdered 6 200 3 0

view-on_disconnect_lock_example : view (on_disconnect_lock busy) ≡ fail_all epipe (view busy)
view-on_disconnect_lock_example = view-on_disconnect_lock busy-IsOrdered

on_disconnect_lock-IsOrdered_example : IsOrdered (on_disconnect_lock busy)
on_disconnect_lock-IsOrdered_example = on_disconnect_lock-IsOrdered busy-IsOrdered

confirm_unlocked-Drained_example : Drained busy (confirm_unlocked busy)
unfolding fresh
confirm_unlocked-Drained_example = confirm_unlocked-Drained busy-IsOrdered refl

-- The peer has 0 and asks for 1 again.
rx_handle_ack-Answered_example : Answered busy 1 true (rx_handle_ack busy 128)
unfolding fresh
rx_handle_ack-Answered_example =
    rx_handle_ack-Answered 128 busy-IsOrdered busy-SentWithin busy-HasTtl (omega arith)

get_packet_to_send-Kept_example : Kept busy (get_packet_to_send octets_at busy).conn
unfolding fresh finish_u_packet
get_packet_to_send-Kept_example =
    get_packet_to_send-Kept octets_at busy-IsOrdered busy-SentWithin refl

send_connected-due_example :
    let (d, f, _, _) = send_connected octets_at busy false in
    (r : Request) × (get_elem? (view busy).requests 2 ≡ some r)
    × (f.hdr.tx_id ≡ 2)
    × (f.hdr.hdr_chan ≡ r.chan)
    × (f.payload ≡ tx_copy (octets_of octets_at r))
    × (d.last_sent ≡ 2)
unfolding fresh
send_connected-due_example =
    send_connected-due octets_at false busy-IsOrdered busy-SentWithin refl (omega arith)

connection_init-IsReady_example : IsReady (fresh (resolve_cfg (some cfg_8)) listener buffer)
unfolding connection_init resolve_cfg cfg_ok window_ok chan_tag_bits_ok
connection_init-IsReady_example =
    connection_init-IsReady answers (some cfg_8) listener
      (fresh (resolve_cfg (some cfg_8)) listener buffer) refl

chan_make-parts_example :
    (chan_id busy (chan_make busy 5 3) ≡ 5) × (chan_tag busy (chan_make busy 5 3) ≡ 3)
unfolding fresh resolve_cfg chan_tag_bits_ok
chan_make-parts_example = chan_make-parts busy 5 3 refl (omega arith) (omega arith)
