-- ===== src/Parse/Streams.antt =====
-- The input streams of blkparse.c: ms_prime, ms_sort, ms_resort, ms_deq, ms_alloc. One stream reads
-- the file of one CPU of one device; the list ms_head is kept in the order of the streams' next
-- traces. The list is linked by `next` in the source and is a list here, ms_head first.
--
-- A file is the list of its trace records as they stand in it, each with whether its payload could
-- be read in full. A record that is itself incomplete ends the list: read_data never returns part
-- of one. No SIGINT comes in (is_done() is 0), and allocation does not fail.
pub mod Merge
pub mod Read
pub mod Order
pub mod Setup
use blktrace.Common.{
  ℕ, zero, suc, ◌+◌, ◌-◌, ◌^◌, Bool, true, false, not, ◌&&◌, ◌||◌, Option, none, some, List, [],
  ◌∷◌, ◌++◌, if◌then◌else◌, ◌==◌, ltb, has_bits, get_or, set, max,
}
use blktrace.Trace.Record.{BlkIoTrace}
use blktrace.Trace.Header.{
  Native, check_magic, check_data_endianness, trace_to_cpu, verify_trace, bswap_16, bswap_32,
}
use blktrace.Trace.Tc
use blktrace.Trace.Ta

abbrev pub File : Type 0
File = List (BlkIoTrace × Bool)

-- get_pdulen and get_magic: the fields before the record as a whole is converted
unfoldable pub get_pdulen : Native → BlkIoTrace → ℕ
get_pdulen (some false) bit = bswap_16 bit.pdu_len
get_pdulen (some true) bit = bit.pdu_len
get_pdulen none bit = bit.pdu_len

unfoldable pub get_magic : Native → BlkIoTrace → ℕ
get_magic (some false) bit = bswap_32 bit.magic
get_magic (some true) bit = bit.magic
get_magic none bit = bit.magic

-- What one round of ms_prime makes of a record: `goto err`, a record of another CPU that is
-- skipped, a notification that is handled at once, or a trace for the queue.
pub data Verdict : Type 0 where
  bad foreign : Verdict
  notify : BlkIoTrace → Verdict
  trace : BlkIoTrace → Verdict

-- bit->action & BLK_TC_ACT(BLK_TC_NOTIFY) && bit->action != BLK_TN_MESSAGE
unfoldable pub is_notify : BlkIoTrace → Bool
is_notify bit = has_bits bit.action (Tc.act Tc.notify) && not (bit.action == Ta.notify_message)

unfoldable pub judge_own : BlkIoTrace → Verdict
judge_own bit = if is_notify bit then notify bit else trace bit

unfoldable pub judge_converted : ℕ → BlkIoTrace → Verdict
unfolding judge_own
judge_converted cpu bit =
    if not (verify_trace bit) then bad else if not (bit.cpu == cpu) then foreign else judge_own bit

-- A record, once the byte order is known.
unfoldable pub judge : Native → ℕ → BlkIoTrace × Bool → Verdict
unfolding get_magic get_pdulen judge_converted
judge native cpu (bit, whole) =
    if not (check_magic (get_magic native bit))
    then bad
    else if not (get_pdulen native bit == 0) && not whole
    then bad
    else judge_converted cpu (trace_to_cpu native bit)

-- data_is_native == -1 && check_data_endianness(bit->magic): `none` is an error, after which the
-- byte order is still unknown.
unfoldable pub detect : Native → BlkIoTrace → Option Native
detect (some b) bit = some (some b)
detect none bit = elim (check_data_endianness bit.magic) [ none ↦ none | some b ↦ some (some b) ]

-- What the streams share: data_is_native, the last_read_time of each device, and the notifications
-- in the order in which handle_notify and output_binary are called on them.
pub record Reader : Type 0 where
  pub native : Native
  pub last_read_time : List ℕ
  pub notified : List BlkIoTrace

-- struct ms_stream. `pdi` is the place of the device in `devices`. `first` is the queue from
-- msp->first to msp->last, and `fd` the unread rest of the open file of the stream's CPU.
pub record MsStream : Type 0 where
  pub pdi : ℕ
  pub cpu : ℕ
  pub first : List BlkIoTrace
  pub fd : Option File

unfoldable pub saw_notify : Reader → BlkIoTrace → Reader
saw_notify r bit = record r { notified = r.notified ++ bit ∷ [] }

-- if (bit->time > pdi->last_read_time) pdi->last_read_time = bit->time
unfoldable pub saw_time : Reader → ℕ → BlkIoTrace → Reader
saw_time r pdi bit =
    if ltb (get_or r.last_read_time pdi 0) bit.time
    then record r { last_read_time = set r.last_read_time pdi bit.time }
    else r

-- The loop of ms_prime over `left` rounds, with ndone counted in the last argument. At the end of
-- the file and at an error the file is closed. A notification is no round (`i -= 1`).
module _ (pdi cpu : ℕ) where
  unfoldable pub prime_loop :
      ℕ → Reader → List BlkIoTrace → File → ℕ → Reader × List BlkIoTrace × Option File × ℕ
  prime_loop zero r queue file ndone = (r, queue, some file, ndone)
  prime_loop (suc left) r queue [] ndone = (r, queue, none, ndone)
  prime_loop (suc left) r queue ((bit, whole) ∷ file) ndone = elim (detect r.native bit) [
    | none ↦ (r, queue, none, ndone)
    | some native ↦
        let r' = record r { native = native } in
        elim (judge native cpu (bit, whole)) [
          | bad ↦ (r', queue, none, ndone)
          | foreign ↦ prime_loop left r' queue file ndone
          | notify t ↦ prime_loop (suc left) (saw_notify r' t) queue file ndone
          | trace t ↦ prime_loop left (saw_time r' pdi t) (queue ++ t ∷ []) file (ndone + 1)
        ]
  ]

-- ms_prime, with rb_batch: the stream afterwards and the number of traces added
unfoldable pub ms_prime : ℕ → Reader → MsStream → Reader × MsStream × ℕ
unfolding prime_loop
ms_prime rb_batch r msp = elim msp.fd [
  | none ↦ (r, msp, 0)
  | some file ↦
      let (r', queue, fd, ndone) = prime_loop msp.pdi msp.cpu rb_batch r msp.first file 0 in
      (r', record msp { first = queue; fd = fd }, ndone)
]

-- ms_peek_time. Every stream in the list has a next trace; the source would follow a null pointer.
abbrev pub head_time : List BlkIoTrace → ℕ
head_time [] = 0
head_time (t ∷ ts) = t.time

abbrev pub ms_peek_time : MsStream → ℕ
ms_peek_time msp = head_time msp.first

-- The while loop of ms_sort, from this_msp->next on.
unfoldable pub sort_after : MsStream → List MsStream → List MsStream
sort_after msp [] = msp ∷ []
sort_after msp (next ∷ rest) =
    if ltb (ms_peek_time next) (ms_peek_time msp)
    then next ∷ sort_after msp rest
    else msp ∷ next ∷ rest

unfoldable pub ms_sort : MsStream → List MsStream → List MsStream
unfolding sort_after
ms_sort msp [] = msp ∷ []
ms_sort msp (this_msp ∷ rest) =
    if ltb (ms_peek_time msp) (ms_peek_time this_msp)
    then msp ∷ this_msp ∷ rest
    else this_msp ∷ sort_after msp rest

-- ms_resort, for the first stream and those after it
unfoldable pub ms_resort : MsStream → List MsStream → List MsStream
unfolding ms_sort
ms_resort msp [] = msp ∷ []
ms_resort msp (next ∷ rest) =
    if ltb (ms_peek_time next) (ms_peek_time msp)
    then ms_sort msp (next ∷ rest)
    else msp ∷ next ∷ rest

-- ms_deq of the first stream, with the queue that is left after its first trace
unfoldable pub refill :
    ℕ → Reader → MsStream → List MsStream → List BlkIoTrace → Reader × List MsStream
unfolding ms_prime ms_resort
refill rb_batch r msp rest (t ∷ ts) = (r, ms_resort (record msp { first = t ∷ ts }) rest)
refill rb_batch r msp rest [] =
    let (r', msp', ndone) = ms_prime rb_batch r (record msp { first = [] }) in
    if ndone == 0 then (r', rest) else (r', ms_resort msp' rest)

-- ms_peek and ms_deq of the first stream, as handle(ms_head) calls them: the trace, and the
-- streams afterwards. `none` is that no stream is left.
unfoldable pub ms_next : ℕ → Reader → List MsStream → Option (BlkIoTrace × (Reader × List MsStream))
unfolding refill
ms_next rb_batch r [] = none
ms_next rb_batch r (msp ∷ rest) = elim msp.first [
  | [] ↦ none
  | t ∷ ts ↦ some (t, refill rb_batch r msp rest ts)
]

-- ms_alloc: a stream with no trace is left out of the list.
unfoldable pub ms_alloc : ℕ → Reader → ℕ → ℕ → Option File → List MsStream → Reader × List MsStream
unfolding ms_prime ms_sort
ms_alloc rb_batch r pdi cpu fd streams =
    let (r', msp, ndone) =
      ms_prime rb_batch r (record { pdi = pdi; cpu = cpu; first = []; fd = fd }) in
    if ndone == 0 then (r', streams) else (r', ms_sort msp streams)
