-- ===== src/Btreplay/Recorded.antt =====
-- btreplay on what btrecord wrote.
use blktrace.Common.{Bool, List, map}
use blktrace.Parse.Streams.{File}
use blktrace.Btrecord.{IoPkt}
use blktrace.Btrecord.Input.{ios}
use blktrace.Btrecord.Bunches.{pkt_of}
use blktrace.Btreplay.{Settings, as_allowed}

-- What btreplay is to send for a file of traces
abbrev pub replayed : Settings → Bool → File → List IoPkt
replayed o b file = map (as_allowed o) (map pkt_of (ios b file))
