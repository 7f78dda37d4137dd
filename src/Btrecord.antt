-- ===== src/Btrecord.antt =====
-- btreplay/btrecord.c: the queue traces of one file, put together in bunches for btreplay. Writing is
-- taken to succeed; what is printed with `verbose` is left out.
pub mod Bunches
pub mod Recording
pub mod Input
use blktrace.Common.{
  ℕ, zero, suc, ◌+◌, ◌-◌, ◌*◌, ◌%◌, ◌^◌, Bool, true, false, not, ◌&&◌, ◌||◌, Option, none, some,
  List, [], ◌∷◌, ◌++◌, if◌then◌else◌, ◌==◌, leb, ltb, add64, sub64, has_bits, length,
}
use blktrace.Trace.Record.{BlkIoTrace}
use blktrace.Trace.Header.{Native, trace_to_cpu, check_data_endianness}
use blktrace.Trace.Tc
use blktrace.Trace.Ta
use blktrace.Parse.Streams.{File}

-- BT_MAX_PKTS
abbrev pub bt_max_pkts : ℕ
bt_max_pkts = 512

-- struct io_spec; `rw` is true for a read.
pub record IoSpec : Type 0 where
  pub time : ℕ
  pub sector : ℕ
  pub bytes : ℕ
  pub rw : Bool

-- struct io_pkt
pub record IoPkt : Type 0 where
  pub sector : ℕ
  pub nbytes : ℕ
  pub rw : Bool

-- struct io_bunch with its header
pub record IoBunch : Type 0 where
  pub npkts : ℕ
  pub time_stamp : ℕ
  pub pkts : List IoPkt

-- struct io_file_hdr, without the version
pub record IoFileHdr : Type 0 where
  pub genesis : ℕ
  pub nbunches : ℕ
  pub total_pkts : ℕ

-- struct ifile_info, with data_is_native and the unread rest of the file
pub record IfileInfo : Type 0 where
  pub data_is_native : Native
  pub tpkts : ℕ
  pub genesis : ℕ
  pub rest : File

-- struct io_stream; `ofp` is what was written after the header.
pub record IoStream : Type 0 where
  pub cur : Option IoBunch
  pub start_time : ℕ
  pub last_time : ℕ
  pub bunches : ℕ
  pub pkts : ℕ
  pub ofp : List IoBunch

-- max_bunch_tm and max_pkts_per_bunch
pub record Limits : Type 0 where
  pub max_bunch_tm : ℕ
  pub max_pkts_per_bunch : ℕ

-- match
unfoldable pub match : ℕ → Bool
match action = (action % 2 ^ 16 == Ta.queue) && has_bits action (Tc.act Tc.queue)

-- mk_btversion on numbers that are not negative
unfoldable pub mk_btversion : ℕ → ℕ → ℕ → ℕ
mk_btversion mjr mnr sub = mjr % 2 ^ 8 * 2 ^ 16 + mnr % 2 ^ 8 * 2 ^ 8 + sub % 2 ^ 8

-- What next_io does: the end of the file (0), an IO (1), or the end of the program by assert or fatal.
pub data Read : Type 0 where
  end : Read
  io : IoSpec → IfileInfo → Read
  aborted : Read

-- if (data_is_native == -1) check_data_endianness(t.magic)
unfoldable pub learn_order : Native → ℕ → Native
unfolding check_data_endianness
learn_order (some b) magic = some b
learn_order none magic = check_data_endianness magic

unfoldable pub spec_of : BlkIoTrace → IoSpec
spec_of t = record {
  time = t.time;
  sector = t.sector;
  bytes = t.bytes;
  rw = has_bits t.action (Tc.act Tc.read);
}

-- The end of next_io, on a trace that matches
unfoldable pub note_genesis : IoSpec → IfileInfo → Read
note_genesis spec iip =
    if iip.genesis == 0
    then io spec (record iip { genesis = spec.time })
    else if ltb spec.time iip.genesis
    then aborted
    else io spec iip

-- next_io on what is left of the file; `tpkts` counts the traces read.
unfoldable pub next_from : Native → ℕ → ℕ → File → Read
unfolding learn_order trace_to_cpu match spec_of note_genesis
next_from native tpkts genesis [] = end
next_from native tpkts genesis ((t, whole) ∷ rest) = elim (learn_order native t.magic) [
  | none ↦ aborted
  | some b ↦
      let t' = trace_to_cpu (some b) t in
      let later = next_from (some b) (add64 tpkts 1) genesis rest in
      if not (t'.pdu_len == 0) && not whole
      then end
      else if not (match t'.action)
      then later
      else note_genesis (spec_of t') (record {
        data_is_native = some b;
        tpkts = add64 tpkts 1;
        genesis = genesis;
        rest = rest;
      })
]

unfoldable pub next_io : IfileInfo → Read
unfolding next_from
next_io iip = next_from iip.data_is_native iip.tpkts iip.genesis iip.rest

unfoldable pub io_bunch_create : IoStream → ℕ → IoStream
io_bunch_create stream time = record stream {
  cur = some (record { npkts = 0; time_stamp = time; pkts = [] });
  start_time = time;
}

-- io_bunch_add; `none` is a failed assert.
unfoldable pub io_bunch_add : IoStream → IoSpec → Option IoStream
io_bunch_add stream spec = elim stream.cur [
  | none ↦ none
  | some cur ↦
      if ltb cur.npkts bt_max_pkts && ((stream.last_time == 0) || leb stream.last_time spec.time)
      then some (record stream {
        cur = some (record cur {
          npkts = add64 cur.npkts 1;
          pkts =
              cur.pkts ++ record { sector = spec.sector; nbytes = spec.bytes; rw = spec.rw } ∷ [];
        });
        last_time = spec.time;
      })
      else none
]

-- stream_flush; the bunch is freed, but `cur` keeps pointing to it. `none` is a failed assert.
unfoldable pub stream_flush : IoStream → Option IoStream
stream_flush stream = elim stream.cur [
  | none ↦ some stream
  | some cur ↦
      if cur.npkts == 0
      then some stream
      else if leb cur.npkts bt_max_pkts
      then some (record stream {
        ofp = stream.ofp ++ cur ∷ [];
        bunches = add64 stream.bunches 1;
        pkts = add64 stream.pkts cur.npkts;
      })
      else none
]

-- bunch_done, for the current bunch
unfoldable pub bunch_done : Limits → IoStream → IoBunch → IoSpec → Bool
bunch_done limits stream cur spec =
    leb limits.max_pkts_per_bunch cur.npkts
    || ltb limits.max_bunch_tm (sub64 spec.time stream.start_time)

unfoldable pub stream_add_io : Limits → IoStream → IoSpec → Option IoStream
unfolding io_bunch_create io_bunch_add stream_flush bunch_done
stream_add_io limits stream spec = elim stream.cur [
  | none ↦ io_bunch_add (io_bunch_create stream spec.time) spec
  | some cur ↦
      if bunch_done limits stream cur spec
      then elim (stream_flush stream) [
        | none ↦ none
        | some stream' ↦ io_bunch_add (io_bunch_create stream' spec.time) spec
      ]
      else io_bunch_add stream spec
]

-- stream_open, and the data_is_native = -1 in it
abbrev pub stream_open : IoStream
stream_open = record { cur = none; start_time = 0; last_time = 0; bunches = 0; pkts = 0; ofp = [] }

abbrev pub open_input : File → IfileInfo
open_input file = record { data_is_native = none; tpkts = 0; genesis = 0; rest = file }

-- stream_close: the header takes its counts before the last bunch is flushed.
unfoldable pub stream_close : IfileInfo → IoStream → Option (IoFileHdr × List IoBunch)
unfolding stream_flush
stream_close iip stream =
    let hdr : IoFileHdr = record {
      genesis = iip.genesis;
      nbunches = stream.bunches;
      total_pkts = stream.pkts;
    } in
    elim (stream_flush stream) [ none ↦ none | some stream' ↦ some (hdr, stream'.ofp) ]

-- The loop of process. `none` is the end of the program by assert or fatal, or the end of the fuel.
unfoldable pub process_loop : ℕ → Limits → IfileInfo → IoStream → Option (IoFileHdr × List IoBunch)
unfolding next_io stream_add_io stream_close
process_loop zero limits iip stream = none
process_loop (suc fuel) limits iip stream = elim (next_io iip) [
  | end ↦ stream_close iip stream
  | aborted ↦ none
  | io spec iip' ↦ elim (stream_add_io limits stream spec) [
    | none ↦ none
    | some stream' ↦ process_loop fuel limits iip' stream'
  ]
]

-- process: one turn of the loop for each record of the file, and one for its end.
unfoldable pub process_file : Limits → File → Option (IoFileHdr × List IoBunch)
unfolding process_loop
process_file limits file = process_loop (suc (length file)) limits (open_input file) stream_open
