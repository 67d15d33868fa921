-- ===== src/Api/Session.antt =====
-- Sequences of the calls of src/fx5_core.c that change a context.
use fx5_slmp_library.Prelude.{
  ◌>>=◌, ℕ, suc, ◌<◌, ◌^◌, ◌≡◌, refl, ap, true, false, Bool, Option, some, none, List, [], ◌∷◌,
  arith, length,
}
use fx5_slmp_library.Types.{
  Status, err_null, err_not_acquired, Device, Command, Header, NetworkSettings,
}
use fx5_slmp_library.Context.{Context}
use fx5_slmp_library.Bytes.Stream.{AreBytes}
use fx5_slmp_library.Api.Handle.{require_acquired, is_acquired}
use fx5_slmp_library.Api.Configure.{
  reset, set_network_settings, set_header_mode, set_monitoring_timer, set_request, set_write_value,
}
use fx5_slmp_library.Api.Build.{build_request}
use fx5_slmp_library.Api.Receive.{feed_response_bytes, parse_response}
use fx5_slmp_library.Api.Parse.Total.{parse_response_total}
use fx5_slmp_library.Api.Ready.{
  IsReady, reset-IsReady, set_network_settings-IsReady, set_header_mode-IsReady,
  set_monitoring_timer-IsReady, set_write_value-IsReady, set_request-IsReady,
}
use fx5_slmp_library.Api.Ready.Transfer.{build_request-IsReady, feed-IsReady, feed_none-IsReady}

-- The calls with their arguments.
pub data Call : Type 0 where
  reset_call : Call
  settings_call : Option NetworkSettings → Call
  mode_call : Header → Call
  timer_call : ℕ → Call
  request_call : Command → Device → ℕ → ℕ → Call
  value_call : ℕ → ℕ → Call
  build_call : Option (List ℕ) → ℕ → Bool → Call
  feed_call : Option (List ℕ) → Call
  parse_call : Call

-- The argument types of C: `data` is a sequence of bytes with a 16-bit size.
abbrev pub InRange : Call → Type 0
InRange reset_call = Unit
InRange (settings_call s) = Unit
InRange (mode_call m) = Unit
InRange (timer_call t) = Unit
InRange (request_call command device address count) = Unit
InRange (value_call i v) = Unit
InRange (build_call buf size given) = Unit
InRange (feed_call none) = Unit
InRange (feed_call (some xs)) = AreBytes xs × (length xs < 2 ^ 16)
InRange parse_call = Unit

-- The context and the status after a call; `none` if the call does not return.
unfoldable pub invoke : Call → Option Context → Option (Option Context × Status)
invoke reset_call c = some (reset c)
invoke (settings_call s) c = some (set_network_settings c s)
invoke (mode_call m) c = some (set_header_mode c m)
invoke (timer_call t) c = some (set_monitoring_timer c t)
invoke (request_call command device address count) c =
    some (set_request c command device address count)
invoke (value_call i v) c = some (set_write_value c i v)
invoke (build_call buf size given) c =
    let out = build_request c buf size given in some (out.context, out.status)
invoke (feed_call xs) c = some (feed_response_bytes c xs)
invoke parse_call c = parse_response c

-- Every call returns on a context that is ready, and leaves it ready.
pub invoke-IsReady :
    (call : Call) (ctx : Option Context)
    → InRange call
    → IsReady ctx
    → (out : Option Context) × (status : Status) × (invoke call ctx ≡ some (out, status))
      × IsReady out
unfolding invoke
invoke-IsReady call none h r = absurd r
invoke-IsReady reset_call (some c) h r = (_, _, refl, reset-IsReady c r)
invoke-IsReady (settings_call s) (some c) h r = (_, _, refl, set_network_settings-IsReady c r s)
invoke-IsReady (mode_call m) (some c) h r = (_, _, refl, set_header_mode-IsReady c r m)
invoke-IsReady (timer_call t) (some c) h r = (_, _, refl, set_monitoring_timer-IsReady c r t)
invoke-IsReady (request_call command device address count) (some c) h r =
    (_, _, refl, set_request-IsReady c r command device address count)
invoke-IsReady (value_call i v) (some c) h r = (_, _, refl, set_write_value-IsReady c r i v)
invoke-IsReady (build_call buf size given) (some c) h r =
    (_, _, refl, build_request-IsReady c r buf size given)
invoke-IsReady (feed_call none) (some c) h r = (_, _, refl, feed_none-IsReady c r)
invoke-IsReady (feed_call (some xs)) (some c) h r = (_, _, refl, feed-IsReady c r xs h.0 h.1)
invoke-IsReady parse_call (some c) h r =
    let p = parse_response_total c r.0 r.1 in (some p.0, p.1, p.2, (p.3, p.4))

-- The status of a call that is refused: NULL is looked for first.
abbrev pub refusal : Call → Option Context → Status
refusal call none = err_null
refusal (build_call none size given) (some c) = err_null
refusal (build_call (some buf) size false) (some c) = err_null
refusal call (some c) = err_not_acquired

invoke_unused :
    (call : Call) (c : Context)
    → c.in_use ≡ false
    → invoke call (some c) ≡ some (some c, refusal call (some c))
unfolding invoke require_acquired reset set_network_settings set_header_mode set_monitoring_timer
    set_request set_write_value build_request feed_response_bytes parse_response
invoke_unused reset_call c e = ground arith
invoke_unused (settings_call s) c e = ground arith
invoke_unused (mode_call m) c e = ground arith
invoke_unused (timer_call t) c e = ground arith
invoke_unused (request_call command device address count) c e = ground arith
invoke_unused (value_call i v) c e = ground arith
invoke_unused (build_call none size given) c e = refl
invoke_unused (build_call (some buf) size false) c e = refl
invoke_unused (build_call (some buf) size true) c e = ground arith
invoke_unused (feed_call xs) c e = ground arith
invoke_unused parse_call c e = ground arith

invoke_null : (call : Call) → invoke call none ≡ some (none, err_null)
unfolding invoke require_acquired reset set_network_settings set_header_mode set_monitoring_timer
    set_request set_write_value build_request feed_response_bytes parse_response
invoke_null reset_call = refl
invoke_null (settings_call s) = refl
invoke_null (mode_call m) = refl
invoke_null (timer_call t) = refl
invoke_null (request_call command device address count) = refl
invoke_null (value_call i v) = refl
invoke_null (build_call none size given) = refl
invoke_null (build_call (some buf) size false) = refl
invoke_null (build_call (some buf) size true) = refl
invoke_null (feed_call xs) = refl
invoke_null parse_call = refl

-- Each of the nine calls that can change a context (the reset, the settings, the header mode, the
-- monitoring timer, the request, a value, the building of the request, the feeding of bytes and the
-- parsing of a response) refuses NULL and a context that is not in use: it returns, reports an
-- error and leaves the context as it is.
pub invoke_refused :
    (call : Call) (ctx : Option Context)
    → is_acquired ctx ≡ false
    → invoke call ctx ≡ some (ctx, refusal call ctx)
unfolding is_acquired
invoke_refused call none e = invoke_null call
invoke_refused call (some c) e = invoke_unused call c e

-- The calls one after the other: the last context and the statuses; `none` if a call does not return.
unfoldable pub session : Option Context → List Call → Option (Option Context × List Status)
session c [] = some (c, [])
session c (call ∷ calls) = do
  (c', status) ← invoke call c
  (out, statuses) ← session c' calls
  some (out, status ∷ statuses)

abbrev pub AllInRange : List Call → Type 0
AllInRange [] = Unit
AllInRange (call ∷ calls) = InRange call × AllInRange calls

-- Whatever calls are made on a well-formed context in use, in whatever order and with whatever bytes
-- received, every one returns a status, and the context is then well-formed and in use.
pub session_keeps :
    (calls : List Call) (ctx : Option Context)
    → AllInRange calls
    → IsReady ctx
    → (out : Option Context) × (statuses : List Status) × (session ctx calls ≡ some (out, statuses))
      × (length statuses ≡ length calls)
      × IsReady out
unfolding session
session_keeps [] ctx h r = (ctx, [], refl, refl, r)
session_keeps (call ∷ calls) ctx h r =
    let one = invoke-IsReady call ctx h.0 r in
    let more = session_keeps calls one.0 h.1 one.3 in
    (more.0, one.1 ∷ more.1, rw (one.2, more.2) refl, ap suc more.3, more.4)
