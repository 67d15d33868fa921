-- ===== src/Api/Build.antt =====
-- `fx5_build_request` of src/fx5_core.c.
use fx5_slmp_library.Prelude.{
  ℕ, ◌+◌, ◌-◌, Bool, true, false, not, Option, none, some, List, [], ltb, ◌==◌, if◌then◌else◌, u16,
}
use fx5_slmp_library.Types.{Status, st_ok, err_null, err_too_small, err_internal}
use fx5_slmp_library.Context.{Context}
use fx5_slmp_library.Request.Devices.{
  is_4e, is_read, validate_request, get_required_request_size, get_request_header_size,
}
use fx5_slmp_library.Request.Builders.{
  HeaderOut, PduOut, build_wire_header_3e, build_wire_header_4e, build_pdu_read_request,
  build_pdu_write_request,
}
use fx5_slmp_library.Api.Handle.{require_acquired}

-- What the caller sees: the status, the context, `out_buf`, and `*actual_size` if it was written.
pub record BuildOut : Type 0 where
  pub status : Status
  pub context : Option Context
  pub out_buf : List ℕ
  pub actual_size : Option ℕ

-- The header that the settings ask for.
unfoldable pub build_header : Context → List ℕ → ℕ → ℕ → HeaderOut
build_header c out_buf out_buf_size pdu_size =
    if is_4e c.network_settings.header_type
    then build_wire_header_4e c out_buf out_buf_size pdu_size
    else build_wire_header_3e c out_buf out_buf_size pdu_size

-- The PDU that the command asks for, behind `base` bytes.
unfoldable pub build_pdu : Context → List ℕ → ℕ → ℕ → PduOut
build_pdu c buf base buffer_size =
    if is_read c.command
    then build_pdu_read_request c buf base buffer_size
    else build_pdu_write_request c buf base buffer_size

-- After the header has been built.
unfoldable pub build_rest : HeaderOut → ℕ → ℕ → BuildOut
build_rest h out_buf_size actual_size =
    let p = build_pdu h.context h.buf h.written (u16 (out_buf_size - h.written)) in
    let size_ok = u16 (h.written + p.written) == actual_size in
    record {
      status = elim p.status [ st_ok ↦ if not size_ok then err_internal else st_ok | s ↦ s ];
      context = some h.context;
      out_buf = p.buf;
      actual_size = some actual_size;
    }

-- With the header built: its status is looked at.
unfoldable pub check_header : HeaderOut → ℕ → ℕ → BuildOut
check_header h out_buf_size size = elim h.status [
  | st_ok ↦ build_rest h out_buf_size size
  | s ↦ record { status = s; context = some h.context; out_buf = h.buf; actual_size = some size }
]

-- With the request validated and its `size` stored in `*actual_size`.
unfoldable pub build_sized : Context → List ℕ → ℕ → ℕ → BuildOut
build_sized c out_buf out_buf_size size =
    let pdu_size = u16 (size - get_request_header_size c.network_settings.header_type) in
    if ltb out_buf_size size
    then record {
      status = err_too_small;
      context = some c;
      out_buf = out_buf;
      actual_size = some size;
    }
    else check_header (build_header c out_buf out_buf_size pdu_size) out_buf_size size

unfoldable pub build_request_on : Context → List ℕ → ℕ → BuildOut
build_request_on c out_buf out_buf_size = elim (validate_request c) [
  | st_ok ↦ build_sized c out_buf out_buf_size (get_required_request_size c)
  | s ↦ record { status = s; context = some c; out_buf = out_buf; actual_size = none }
]

-- `out_buf` is `none` for NULL.
unfoldable pub build_request : Option Context → Option (List ℕ) → ℕ → Bool → BuildOut
unfolding require_acquired
build_request ctx none out_buf_size size_given = record {
  status = err_null;
  context = ctx;
  out_buf = [];
  actual_size = none;
}
build_request ctx (some out_buf) out_buf_size false = record {
  status = err_null;
  context = ctx;
  out_buf = out_buf;
  actual_size = none;
}
build_request none (some out_buf) out_buf_size true = record {
  status = require_acquired none;
  context = none;
  out_buf = out_buf;
  actual_size = none;
}
build_request (some c) (some out_buf) out_buf_size true = elim (require_acquired (some c)) [
  | st_ok ↦ build_request_on c out_buf out_buf_size
  | s ↦ record { status = s; context = some c; out_buf = out_buf; actual_size = none }
]
