-- ===== src/Tests/Calls.antt =====
-- The theorems on requests, values, sessions and the pool at concrete contexts.
use fx5_slmp_library.Prelude.{
  ℕ, ◌+◌, ◌≤◌, ◌<◌, ◌≡◌, ◌≢◌, refl, true, false, List, [], ◌∷◌, ◌++◌, Option, some, none, arith,
  length, replicate, drop,
}
use fx5_slmp_library.Types.{
  Status, st_ok, err_too_small, err_unsupported, err_not_acquired, dev_d, dev_sm, dev_m, batch_read,
  batch_write, header_3e, iobuf_size,
}
use fx5_slmp_library.RingBuf.Contents.{contents}
use fx5_slmp_library.Context.{Context, zeroed}
use fx5_slmp_library.Request.Devices.{
  is_bit_device, get_max_value_count, is_supported_device, is_supported_command, validate_request,
  device_allows_write, get_required_request_size,
}
use fx5_slmp_library.Api.Build.{build_request}
use fx5_slmp_library.Api.Configure.{set_request, set_write_value, get_response_value}
use fx5_slmp_library.Api.Receive.{feed_response_bytes}
use fx5_slmp_library.Api.{is_acquired}
use fx5_slmp_library.Api.Pool.{initial_pool}
use fx5_slmp_library.Api.Invariant.{IsWellFormed}
use fx5_slmp_library.Api.Frame.{
  frame_bytes, after_build, build_request_lem, get_required_request_size-eq-length,
}
use fx5_slmp_library.Api.Feed.{fed, feed_response_bytes_lem}
use fx5_slmp_library.Api.Requests.{
  is_request, requested, set_request_lem, validate_request-set_request, build_request-refused,
}
use fx5_slmp_library.Api.Values.{get_response_value-set_write_value}
use fx5_slmp_library.Api.Ready.{IsReady}
use fx5_slmp_library.Api.Session.{
  Call, request_call, mode_call, value_call, build_call, feed_call, parse_call, invoke, session,
  session_keeps, invoke_refused,
}
use fx5_slmp_library.Api.Leases.{IsAcquired, acquire_lem}
use fx5_slmp_library.Api.Leases.Run.{
  PoolCall, take_call, give_call, use_call, pool_run, AreSound, pool_run-AreSound,
  initial_pool-AreSound,
}
use fx5_slmp_library.Tests.{
  word_frame, word_context, word_context-IsWellFormed, point_context, point_context-IsWellFormed,
}

-- An array for a request.
abbrev out_array : List ℕ
out_array = replicate 40 0xEE

build_request_lem_example : build_request (some word_context) (some out_array) 30 true ≡ record {
  status = st_ok;
  context = some (after_build word_context);
  out_buf = frame_bytes word_context ++ drop (length (frame_bytes word_context)) out_array;
  actual_size = some (length (frame_bytes word_context));
}
unfolding validate_request get_max_value_count is_supported_device is_supported_command
    is_bit_device device_allows_write
build_request_lem_example =
    build_request_lem word_context out_array 30 word_context-IsWellFormed refl refl (omega arith)
      (omega arith) (omega arith)

get_required_request_size-eq-length_example :
    get_required_request_size word_context ≡ length (frame_bytes word_context)
get_required_request_size-eq-length_example =
    get_required_request_size-eq-length word_context (omega arith)

build_request-refused_example :
    (validate_request word_context ≢ st_ok
      → build_request (some word_context) (some out_array) 20 true ≡ record {
        status = validate_request word_context;
        context = some word_context;
        out_buf = out_array;
        actual_size = none;
      })
    × (validate_request word_context ≡ st_ok
        → 20 < length (frame_bytes word_context)
        → build_request (some word_context) (some out_array) 20 true ≡ record {
          status = err_too_small;
          context = some word_context;
          out_buf = out_array;
          actual_size = some (length (frame_bytes word_context));
        })
build_request-refused_example =
    build_request-refused word_context out_array 20 word_context-IsWellFormed refl

feed_response_bytes_lem_example :
    (length (contents word_context.rx_cbuffer) + 3 ≤ iobuf_size
      → (feed_response_bytes (some word_context) (some (1 ∷ 2 ∷ 3 ∷ []))
          ≡ (some (fed word_context (1 ∷ 2 ∷ 3 ∷ [])), st_ok))
        × (contents (fed word_context (1 ∷ 2 ∷ 3 ∷ [])).rx_cbuffer
            ≡ contents word_context.rx_cbuffer ++ (1 ∷ 2 ∷ 3 ∷ []))
        × IsWellFormed (fed word_context (1 ∷ 2 ∷ 3 ∷ [])))
    × (iobuf_size < length (contents word_context.rx_cbuffer) + 3
        → feed_response_bytes (some word_context) (some (1 ∷ 2 ∷ 3 ∷ []))
          ≡ (some word_context, err_too_small))
feed_response_bytes_lem_example =
    feed_response_bytes_lem word_context (1 ∷ 2 ∷ 3 ∷ []) word_context-IsWellFormed refl
      (omega arith) (omega arith)

set_request_lem_example :
    (is_request batch_read dev_d 5 33 ≡ true
      → set_request (some word_context) batch_read dev_d 5 33
        ≡ (some (requested word_context batch_read dev_d 5 33), st_ok))
    × (is_request batch_read dev_d 5 33 ≡ false
        → let (ctx, status) = set_request (some word_context) batch_read dev_d 5 33 in
          (ctx ≡ some word_context) × (status ≢ st_ok))
set_request_lem_example = set_request_lem word_context batch_read dev_d 5 33 refl

validate_request-set_request_example :
    (stored : Context) × (set_request (some word_context) batch_write dev_sm 5 3
      ≡ (some stored, st_ok))
    × (validate_request stored ≡ err_unsupported)
unfolding is_supported_device is_supported_command is_bit_device device_allows_write
validate_request-set_request_example =
    validate_request-set_request word_context batch_write dev_sm 5 3 refl refl refl

get_response_value-set_write_value_example :
    let (c', status) = set_write_value (some point_context) 1 5 in
    (status ≡ st_ok) × (get_response_value c' 1 true ≡ (st_ok, some 0xFF))
unfolding is_bit_device
get_response_value-set_write_value_example =
    get_response_value-set_write_value point_context point_context-IsWellFormed refl 1 1 5
      (omega arith) (omega arith)

-- A request, its frame, and bytes received.
abbrev some_calls : List Call
some_calls =
    mode_call header_3e
    ∷ request_call batch_write dev_m 100 3
    ∷ value_call 1 1
    ∷ build_call (some out_array) 40 true
    ∷ feed_call (some word_frame)
    ∷ parse_call
    ∷ []

session_keeps_example :
    (out : Option Context) × (statuses : List Status) × (session (some word_context) some_calls
      ≡ some (out, statuses))
    × (length statuses ≡ 6)
    × IsReady out
session_keeps_example =
    session_keeps some_calls (some word_context) (omega arith) (word_context-IsWellFormed, refl)

invoke_refused_example :
    invoke (request_call batch_read dev_d 0 1) (some zeroed) ≡ some (some zeroed, err_not_acquired)
unfolding is_acquired
invoke_refused_example = invoke_refused (request_call batch_read dev_d 0 1) (some zeroed) refl

acquire_lem_example : IsAcquired initial_pool
acquire_lem_example = acquire_lem initial_pool

-- Both contexts taken, one used, given back, and used again by a stale handle.
abbrev some_pool_calls : List PoolCall
some_pool_calls =
    take_call
    ∷ take_call
    ∷ take_call
    ∷ use_call 1 (request_call batch_read dev_d 0 1)
    ∷ use_call 1 (feed_call (some word_frame))
    ∷ use_call 1 parse_call
    ∷ give_call 1
    ∷ use_call 1 parse_call
    ∷ []

pool_run-AreSound_example :
    (out : List Context) × (pool_run initial_pool some_pool_calls ≡ some out) × AreSound out
pool_run-AreSound_example =
    pool_run-AreSound some_pool_calls initial_pool (omega arith) initial_pool-AreSound
