-- ===== src/Tests/Receiving.antt =====
-- The theorems on `fx5_parse_response` at concrete frames.
use fx5_slmp_library.Prelude.{ℕ, ◌≡◌, refl, true, List, [], ◌∷◌, ◌++◌, some, arith, replicate, inl}
use fx5_slmp_library.Types.{
  Status, st_ok, err_need_more, err_resync, response_error, err_invalid_count, dev_d, batch_read,
  header_4e, unknown_header,
}
use fx5_slmp_library.RingBuf.Contents.{contents}
use fx5_slmp_library.Bytes.Array.{put_list}
use fx5_slmp_library.Context.{Context}
use fx5_slmp_library.Packed.{bit_of}
use fx5_slmp_library.Request.Devices.{
  is_bit_device, get_max_value_count, is_supported_device, is_supported_command,
}
use fx5_slmp_library.Response.Header.{try_resync, get_response_header_size}
use fx5_slmp_library.Response.Payload.{parse_word_response_payload}
use fx5_slmp_library.Response.Nibbles.{merged}
use fx5_slmp_library.Response.Stream.{IsResynced, try_resync_lem}
use fx5_slmp_library.Api.Receive.{parse_response}
use fx5_slmp_library.Api.Invariant.{IsWellFormed, rx-IsStream}
use fx5_slmp_library.Api.Parse.Pdu.{IsParsed}
use fx5_slmp_library.Api.Parse.Replies.{
  parse_response-words, parse_response-points, parse_response-acknowledged, parse_response-failed,
}
use fx5_slmp_library.Api.Parse.Total.{parse_response_total}
use fx5_slmp_library.Api.Parse.Waiting.{IsSkipped, parse_response-partial, parse_response-no_frame}
use fx5_slmp_library.Api.Parse.Stall.{parse_response-stalls, parse_word_response_payload-refused}
use fx5_slmp_library.Tests.{
  context_at, context_at-IsWellFormed, header_at, two_words, word_context,
  word_context-IsWellFormed, point_context, point_context-IsWellFormed, write_context,
  write_context-IsWellFormed, part_context, part_context-IsWellFormed, noise_context,
}

try_resync_lem_example :
    IsResynced (contents word_context.rx_cbuffer) 0 297 (try_resync word_context.rx_cbuffer 0)
try_resync_lem_example =
    try_resync_lem word_context.rx_cbuffer 0 (rx-IsStream word_context word_context-IsWellFormed)
      (omega arith)

parse_response-words_example :
    (out : Context) × (parse_response (some word_context) ≡ some (some out, st_ok))
    × (out.values ≡ put_list word_context.values 0 two_words)
    × IsParsed word_context 2 0 2 (9 ∷ []) out
unfolding is_bit_device
parse_response-words_example =
    parse_response-words word_context header_4e 2 (header_at 6) (9 ∷ []) word_context-IsWellFormed
      refl refl (omega arith) two_words refl refl refl (omega arith) (omega arith) refl
      (refl, refl, refl)

parse_response-points_example :
    (out : Context) × (parse_response (some point_context) ≡ some (some out, st_ok))
    × ((j : ℕ) → bit_of out.values j ≡ merged (0x01 ∷ 0x00 ∷ []) 0 3 point_context.values j)
    × IsParsed point_context 0 0 3 (9 ∷ []) out
unfolding is_bit_device
parse_response-points_example =
    parse_response-points point_context header_4e 0 (header_at 4) (9 ∷ [])
      point_context-IsWellFormed refl refl (omega arith) (0x01 ∷ 0x00 ∷ []) refl refl refl
      (omega arith) (omega arith) refl (refl, refl, refl)

parse_response-acknowledged_example :
    (out : Context) × (parse_response (some (write_context 0)) ≡ some (some out, st_ok))
    × (out.values ≡ (write_context 0).values)
    × IsParsed (write_context 0) 0 0 0 (9 ∷ []) out
parse_response-acknowledged_example =
    parse_response-acknowledged (write_context 0) header_4e 0 (header_at 2) (9 ∷ [])
      (write_context-IsWellFormed 0 (omega arith)) refl refl (omega arith) refl refl
      (refl, refl, refl)

parse_response-failed_example :
    (out : Context) × (parse_response (some (write_context 0x51)) ≡ some (some out, response_error))
    × (out.values ≡ (write_context 0x51).values)
    × IsParsed (write_context 0x51) 0 0x51 0 (9 ∷ []) out
parse_response-failed_example =
    parse_response-failed (write_context 0x51) header_4e 0 (header_at 2) (9 ∷ [])
      (write_context-IsWellFormed 0x51 (omega arith)) refl refl (omega arith) 0x51 [] (omega arith)
      (omega arith) (omega arith) refl (refl, refl, refl)

parse_response_total_example :
    (out : Context) × (status : Status) × (parse_response (some word_context)
      ≡ some (some out, status))
    × IsWellFormed out
    × (out.in_use ≡ true)
parse_response_total_example = parse_response_total word_context word_context-IsWellFormed refl

parse_response-partial_example :
    (out : Context) × (parse_response (some (part_context 6)) ≡ some (some out, err_need_more))
    × (contents out.rx_cbuffer ≡ header_at 6 ++ [])
    × IsSkipped (part_context 6) 0 out
parse_response-partial_example =
    parse_response-partial (part_context 6) header_4e 0 6 (header_at 6) []
      (part_context-IsWellFormed 6 (omega arith)) refl refl (omega arith) refl (omega arith)
      (omega arith) (omega arith) (refl, refl, refl)

parse_response-no_frame_example :
    (out : Context) × (parse_response (some (noise_context 65)) ≡ some (some out, err_resync))
    × IsSkipped (noise_context 65) 65 out
unfolding get_max_value_count is_supported_device is_supported_command is_bit_device
parse_response-no_frame_example =
    parse_response-no_frame (noise_context 65) unknown_header 65
      (context_at-IsWellFormed batch_read dev_d 2 (replicate 65 1) (omega arith) (omega arith)
        (omega arith) refl refl)
      refl refl (inl (omega arith))

-- A header that announces 290 bytes, to a buffer of 297.
abbrev large_header : List ℕ
large_header = 0xD4 ∷ 0 ∷ 7 ∷ 0 ∷ 0 ∷ 0 ∷ 0 ∷ 0xFF ∷ 0xFF ∷ 3 ∷ 0 ∷ 34 ∷ 1 ∷ []

abbrev large_context : Context
large_context = context_at batch_read dev_d 2 large_header

parse_response-stalls_example :
    (out : Context) × (parse_response (some large_context) ≡ some (some out, err_need_more))
    × (contents out.rx_cbuffer ≡ contents large_context.rx_cbuffer)
unfolding get_max_value_count is_supported_device is_supported_command is_bit_device
    get_response_header_size
parse_response-stalls_example =
    parse_response-stalls large_context header_4e 290 large_header []
      (context_at-IsWellFormed batch_read dev_d 2 large_header (omega arith) (omega arith)
        (omega arith) refl refl)
      refl refl refl (omega arith) (omega arith) (refl, refl, refl)

parse_word_response_payload-refused_example :
    let (out, status) = parse_word_response_payload word_context 3 in
    (status ≡ err_invalid_count) × (contents out.rx_cbuffer ≡ contents word_context.rx_cbuffer)
parse_word_response_payload-refused_example =
    parse_word_response_payload-refused word_context 3
      (rx-IsStream word_context word_context-IsWellFormed) (omega arith) (omega arith) (omega arith)
