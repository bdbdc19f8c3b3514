-- ===== src/Framing/Counters.antt =====
-- The counters of a link that its framing counts in (LUDLC_INC_STATS of
-- src/lib/include/ludlc_private.h).
use ludlc.Prelude.{◌+◌, u32}
use ludlc.Core.State.{Stats}

abbrev pub count_rx_packet : Stats → Stats
count_rx_packet st = record st { rx_packet = u32 (st.rx_packet + 1) }

abbrev pub count_bad_csum : Stats → Stats
count_bad_csum st = record st { bad_csum = u32 (st.bad_csum + 1) }

abbrev pub count_jabber : Stats → Stats
count_jabber st = record st { jabber = u32 (st.jabber + 1) }

abbrev pub count_dropped : Stats → Stats
count_dropped st = record st { dropped = u32 (st.dropped + 1) }
