-- ===== src/Parse/Notify.antt =====
-- handle_notify of blkparse.c: the events that carry a process name, the start time or a message.
use blktrace.Common.{
  ℕ, ◌+◌, ◌*◌, ◌^◌, true, false, Option, none, some, List, if◌then◌else◌, ◌==◌, get_or, take,
}
use blktrace.Trace.Record.{BlkIoTrace}
use blktrace.Trace.Header.{Native, bswap_32}
use blktrace.Trace.Ta
use blktrace.Parse.Processes.{Processes, Hash, add_ppm_hash, until_nul}

-- start_timestamp and abs_start_time
pub record Clock : Type 0 where
  pub start_timestamp : ℕ
  pub tv_sec : ℕ
  pub tv_nsec : ℕ

-- A __u32 in the bytes of a payload, on a host whose low byte comes first
unfoldable pub word_at : List ℕ → ℕ → ℕ
word_at bytes i =
    get_or bytes i 0
    + get_or bytes (i + 1) 0 * 2 ^ 8
    + get_or bytes (i + 2) 0 * 2 ^ 16
    + get_or bytes (i + 3) 0 * 2 ^ 24

-- be32_to_cpu where `!data_is_native`, on such a host; the unknown -1 counts as native.
unfoldable pub payload_word : Native → ℕ → ℕ
unfolding bswap_32
payload_word (some false) x = bswap_32 x
payload_word (some true) x = x
payload_word none x = x

-- The case BLK_TN_TIMESTAMP. A __u32 stored in the long tv_nsec is never below 0.
unfoldable pub notify_timestamp : Native → BlkIoTrace → Clock → Clock
unfolding word_at payload_word
notify_timestamp native t clock =
    if t.pdu_len == 8
    then record {
      start_timestamp = t.time;
      tv_sec = payload_word native (word_at t.pdu 0);
      tv_nsec = payload_word native (word_at t.pdu 4);
    }
    else clock

-- The case BLK_TN_MESSAGE: the text that is printed
unfoldable pub notify_message : BlkIoTrace → Option (List ℕ)
unfolding until_nul
notify_message t = if t.pdu_len == 0 then none else some (until_nul (take t.pdu_len t.pdu))

-- The tables, the clock, and the message printed
unfoldable pub handle_notify :
    Hash → Native → BlkIoTrace → Processes → Clock → Processes × Clock × Option (List ℕ)
unfolding notify_timestamp notify_message add_ppm_hash
handle_notify hash native t ps clock =
    if t.action == Ta.notify_process
    then ((add_ppm_hash hash t.pid t.pdu ps).0, clock, none)
    else if t.action == Ta.notify_timestamp
    then (ps, notify_timestamp native t clock, none)
    else if t.action == Ta.notify_message
    then (ps, clock, notify_message t)
    else (ps, clock, none)
