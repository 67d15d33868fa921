-- ===== src/Response/Header.antt =====
-- Response headers: detection, resynchronisation, and the packet size.
use fx5_slmp_library.Prelude.{
  ℕ, zero, suc, ◌+◌, Bool, true, false, ◌&&◌, ◌||◌, not, bit_and, ltb, ◌==◌, if◌then◌else◌, u8, u16,
}
use fx5_slmp_library.Types.{
  Status, st_ok, err_need_more, err_header_mismatch, Header, header_3e, header_4e, unknown_header,
  resp_header_size_3e, resp_header_size_4e, resp_pdu_header_size, iobuf_size,
}
use fx5_slmp_library.Context.{Context}
use fx5_slmp_library.RingBuf.{Ring, drop_front}
use fx5_slmp_library.Bytes.{peekc_u16_le, peek_or_0}
use fx5_slmp_library.Request.Devices.{is_4e}

abbrev pub response_subheader_3e : ℕ
response_subheader_3e = 0x00D0

abbrev pub response_subheader_4e : ℕ
response_subheader_4e = 0x00D4

abbrev pub magic_number_offset : ℕ
magic_number_offset = 0

abbrev pub serial_offset_4e : ℕ
serial_offset_4e = 2

abbrev pub packet_size_offset_4e : ℕ
packet_size_offset_4e = 11

abbrev pub packet_size_offset_3e : ℕ
packet_size_offset_3e = 7

unfoldable pub get_response_header_size : Header → ℕ
get_response_header_size h = if is_4e h then resp_header_size_4e else resp_header_size_3e

unfoldable pub detect_response_header : Ring → Header
detect_response_header rb =
    let magic = peekc_u16_le rb magic_number_offset in
    if ltb rb.size 2
    then unknown_header
    else if magic == response_subheader_4e
    then header_4e
    else if magic == response_subheader_3e
    then header_3e
    else unknown_header

pub record Resynced : Type 0 where
  pub ring : Ring
  pub discarded : ℕ
  pub header : Header

abbrev is_detected : Header → Bool
is_detected unknown_header = false
is_detected header_3e = true
is_detected header_4e = true

-- After the loop: a single byte stays only if a subheader can start with it.
unfoldable pub resync_last : Ring → ℕ → Resynced
resync_last rb discarded =
    let byte0 = peek_or_0 rb 0 in
    let low3e = u8 (bit_and response_subheader_3e 0xff) in
    let low4e = u8 (bit_and response_subheader_4e 0xff) in
    if (rb.size == 1) && not (byte0 == low3e) && not (byte0 == low4e)
    then record {
      ring = (drop_front rb 1).0;
      discarded = u16 (discarded + 1);
      header = unknown_header;
    }
    else record { ring = rb; discarded = discarded; header = unknown_header }

-- `while (size > 1)`, at most `fuel` rounds: a round that goes on drops a byte.
unfoldable pub resync_loop : ℕ → Ring → ℕ → Resynced
resync_loop zero rb discarded = resync_last rb discarded
resync_loop (suc fuel) rb discarded =
    let header = detect_response_header rb in
    let rest = resync_loop fuel (drop_front rb 1).0 (u16 (discarded + 1)) in
    if ltb 1 rb.size
    then (if is_detected header
        then record { ring = rb; discarded = discarded; header = header }
        else rest)
    else resync_last rb discarded

unfoldable pub try_resync : Ring → ℕ → Resynced
try_resync rb discarded = resync_loop rb.size rb discarded

-- The status, and what `*packet_size` holds then (0 before).
abbrev check_packet_size : ℕ → Status × ℕ
check_packet_size size =
    if ltb size resp_pdu_header_size || ltb iobuf_size size
    then (err_header_mismatch, size)
    else (st_ok, size)

unfoldable pub parse_response_header_3e : Ring → Status × ℕ
parse_response_header_3e rb =
    if ltb rb.size resp_header_size_3e
    then (err_need_more, 0)
    else check_packet_size (peekc_u16_le rb packet_size_offset_3e)

unfoldable pub parse_response_header_4e : Context → Ring → Status × ℕ
parse_response_header_4e c rb =
    if ltb rb.size resp_header_size_4e
    then (err_need_more, 0)
    else if not (peekc_u16_le rb serial_offset_4e == c.serial)
    then (err_header_mismatch, 0)
    else check_packet_size (peekc_u16_le rb packet_size_offset_4e)
